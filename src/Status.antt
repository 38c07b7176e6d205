-- ===== src/Status.antt =====
-- db/Status.h and db/Status.cpp. A status is `status_`: `none` is the null pointer, and a buffer is
-- the list of its bytes. An integer in memory has its bytes lowest first, as on a little-endian
-- host. `none` as a result is a read or a write outside a buffer.
pub mod Message
pub mod Memory
mod Tests
use releveldb.Base.{
  ℕ, ◌+◌, ◌^◌, ◌%◌, List, [], ◌∷◌, ◌++◌, Option, none, some, ◌>>=◌, ◌>>◌, assert, Bool, true, false,
  ltb, leb, ◌==◌, if◌then◌else◌, length, get_elem?, take, drop, codes,
}
use releveldb.Slice.{Slice, size, empty_slice}
use releveldb.Coding.{native_bytes, native_value}

-- `static_cast<StatusCode>` makes a value of any byte.
abbrev pub StatusCode : Type 0
StatusCode = ℕ

abbrev pub k_ok : StatusCode
k_ok = 0

abbrev pub k_not_found : StatusCode
k_not_found = 1

abbrev pub k_corruption : StatusCode
k_corruption = 2

abbrev pub k_not_supported : StatusCode
k_not_supported = 3

abbrev pub k_invalid_argument : StatusCode
k_invalid_argument = 4

abbrev pub k_io_error : StatusCode
k_io_error = 5

pub record Status : Type 0 where
  pub status : Option (List ℕ)

unfoldable pub ok_status : Status
ok_status = record { status = none }

-- what is written into a buffer of `n` bytes has to fit it
pub in_buffer : ℕ → List ℕ → Option Status
in_buffer n result = do assert (leb (length result) n); some (record { status = some result })

-- The private constructor. The lengths are uint32_t, and so is `statusLen + 5`.
pub new_status : StatusCode → Slice → Slice → Option Status
unfolding in_buffer
new_status code msg msg2 =
    let msg_len = size msg % 2 ^ 32 in
    let msg2_len = size msg2 % 2 ^ 32 in
    let status_len = (msg_len + (if msg2_len == 0 then 0 else (msg2_len + 2) % 2 ^ 32)) % 2 ^ 32 in
    let result =
      native_bytes 4 status_len
      ++ (code
          ∷ (take msg_len msg
              ++ (if msg2_len == 0 then [] else b':' ∷ b' ' ∷ take msg2_len msg2))) in
    in_buffer ((status_len + 5) % 2 ^ 32) result

pub not_found : Slice → Slice → Option Status
unfolding new_status
not_found msg msg2 = new_status k_not_found msg msg2

pub corruption : Slice → Slice → Option Status
unfolding new_status
corruption msg msg2 = new_status k_corruption msg msg2

pub not_supported : Slice → Slice → Option Status
unfolding new_status
not_supported msg msg2 = new_status k_not_supported msg msg2

pub invalid_argument : Slice → Slice → Option Status
unfolding new_status
invalid_argument msg msg2 = new_status k_invalid_argument msg msg2

pub io_error : Slice → Slice → Option Status
unfolding new_status
io_error msg msg2 = new_status k_io_error msg msg2

-- `Code()`, with `codeOff` 4
pub code_of : Status → Option StatusCode
code_of s = elim s.status [ none ↦ some k_ok | some state ↦ get_elem? state 4 ]

unfoldable pub ok : Status → Bool
ok s = elim s.status [ none ↦ true | some _ ↦ false ]

-- `IsNotFound()` and its kind, for their code
pub is_code : StatusCode → Status → Option Bool
unfolding code_of
is_code c s = do code ← code_of s; some (code == c)

-- `size + 5` is a uint32_t sum.
pub copy_state : List ℕ → Option (List ℕ)
copy_state state = do
  n ← native_value 4 state
  let bytes = (n + 5) % 2 ^ 32
  assert (leb bytes (length state))
  some (take bytes state)

-- The copy constructor; `operator=` computes the same.
pub copy : Status → Option Status
unfolding code_of copy_state
copy s = do
  code ← code_of s
  if code == k_ok
      then some (record { status = none })
      else (do state ← s.status; buffer ← copy_state state; some (record { status = some buffer }))

-- The prefix for a code. `print_unknown` is what `snprintf` makes of "Unknown code(%d): ".
pub type_of_code : (print_unknown : StatusCode → List ℕ) → StatusCode → List ℕ
type_of_code print_unknown c =
    if c == k_not_found
    then codes "Not Found: "
    else if c == k_invalid_argument
    then codes "Invalid Argument: "
    else if c == k_corruption
    then codes "Corruption: "
    else if c == k_not_supported
    then codes "Not Supported: "
    else if c == k_io_error
    then codes "IO Error: "
    else print_unknown c

pub to_string : (print_unknown : StatusCode → List ℕ) → Status → Option (List ℕ)
unfolding code_of type_of_code
to_string print_unknown s = elim s.status [
  | none ↦ some (codes "OK")
  | some state ↦ (do
    code ← code_of s
    msg_length ← native_value 4 state
    assert (leb msg_length (length (drop 5 state)))
    some (type_of_code print_unknown code ++ take msg_length (drop 5 state)))
]
