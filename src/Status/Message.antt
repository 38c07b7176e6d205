-- ===== src/Status/Message.antt =====
-- What a status says of the code and the messages that it was made from.
use releveldb.Base.{
  ℕ, ◌+◌, ◌^◌, ◌≤◌, ◌<◌, ◌%◌, ◌≡◌, ◌≢◌, refl, arith, List, [], ◌∷◌, ◌++◌, append-nil, Option, some,
  codes, false, true, ◌==◌, length, length-append, drop, take_all, get_elem?,
}
use releveldb.Slice.{Slice, size}
use releveldb.Coding.{native_bytes, native_value}
use releveldb.Coding.Fixed.{native_value-native_bytes, length-native_bytes}
use releveldb.Status.{
  not_found, corruption, not_supported, invalid_argument, io_error, k_corruption, StatusCode,
  Status, ok, in_buffer, new_status, code_of, is_code, copy_state, copy, type_of_code, to_string,
}

-- the message of a status: the two arguments, with a colon between them if the second is not empty
abbrev pub joined : Slice → Slice → List ℕ
joined msg [] = msg
joined msg (c ∷ msg2) = msg ++ (b':' ∷ b' ' ∷ c ∷ msg2)

length-joined : (msg msg2 : Slice) → length (joined msg msg2) ≤ size msg + size msg2 + 2
length-joined msg [] = omega arith
length-joined msg (c ∷ msg2) = omega (arith, length-append msg (b':' ∷ b' ' ∷ c ∷ msg2))

-- the buffer of a code and a message
pub stored : StatusCode → List ℕ → List ℕ
stored c text = native_bytes 4 (length text) ++ (c ∷ text)

-- The lengths that are not wrapped.
small : (n : ℕ) → n < 2 ^ 32 → n % 2 ^ 32 ≡ n
small n h = omega arith

-- Nothing is cut off.
in_buffer-stored :
    (c : StatusCode) (n : ℕ) (text : List ℕ)
    → n ≡ length text
    → length text + 5 < 2 ^ 32
    → in_buffer ((n + 5) % 2 ^ 32) (native_bytes 4 n ++ (c ∷ text))
      ≡ some (record { status = some (stored c text) })
unfolding stored in_buffer
in_buffer-stored c n text e h = rw e (
    ground (
      arith,
      length-append (native_bytes 4 (length text)) (c ∷ text),
      length-native_bytes 4 (length text),
      small (length text + 5) h,
    ))

new_status-stored :
    (c : StatusCode) (msg msg2 : Slice)
    → size msg + size msg2 + 7 < 2 ^ 32
    → new_status c msg msg2 ≡ some (record { status = some (stored c (joined msg msg2)) })
unfolding new_status
new_status-stored c msg [] h = rw (small (size msg) (omega arith)) (
    rw (take_all msg (size msg) (omega arith), append-nil msg)
      (in_buffer-stored c ((size msg + 0) % 2 ^ 32) msg (omega arith) (omega arith)))
new_status-stored c msg (b ∷ msg2) h =
    let some_left : (size (b ∷ msg2) == 0) ≡ false = ground arith in
    rw (small (size msg) (omega arith), small (size (b ∷ msg2)) (omega arith))
      (rw
        (some_left, take_all msg (size msg) (omega arith), take_all msg2 (size msg2) (omega arith))
        (in_buffer-stored c ((size msg + (size (b ∷ msg2) + 2) % 2 ^ 32) % 2 ^ 32)
          (msg ++ (b':' ∷ b' ' ∷ b ∷ msg2))
          (omega (arith, length-append msg (b':' ∷ b' ' ∷ b ∷ msg2)))
          (omega (arith, length-append msg (b':' ∷ b' ' ∷ b ∷ msg2)))))

-- what is in a stored buffer
native_value-stored :
    (c : StatusCode) (text : List ℕ)
    → length text < 2 ^ 32
    → native_value 4 (stored c text) ≡ some (length text)
unfolding stored
native_value-stored c text h = native_value-native_bytes 4 (length text) (c ∷ text) (omega arith)

get_elem?-stored : (c : StatusCode) (text : List ℕ) → get_elem? (stored c text) 4 ≡ some c
unfolding stored native_bytes
get_elem?-stored c text = refl

drop-stored : (c : StatusCode) (text : List ℕ) → drop 5 (stored c text) ≡ text
unfolding stored native_bytes
drop-stored c text = refl

length-stored : (c : StatusCode) (text : List ℕ) → length (stored c text) ≡ length text + 5
unfolding stored native_bytes
length-stored c text = omega arith

module _ (c : StatusCode) (text : List ℕ) (h : length text + 5 < 2 ^ 32) where
  to_string-stored :
      (print_unknown : StatusCode → List ℕ)
      → to_string print_unknown (record { status = some (stored c text) })
        ≡ some (type_of_code print_unknown c ++ text)
  unfolding to_string code_of
  to_string-stored print_unknown = ground (
    arith,
    native_value-stored c text (omega arith),
    get_elem?-stored c text,
    drop-stored c text,
    take_all text (length text) (omega arith),
  )

  copy-stored :
      c ≢ 0
      → copy (record { status = some (stored c text) })
        ≡ some (record { status = some (stored c text) })
  unfolding copy code_of copy_state
  copy-stored ne = ground (
    arith,
    native_value-stored c text (omega arith),
    get_elem?-stored c text,
    length-stored c text,
    small (length text + 5) h,
    take_all (stored c text) (length text + 5) (omega (arith, length-stored c text)),
  )

-- A status made of a code from 1 to 5 and two messages whose lengths are below 2^32 - 7 in sum is
-- not ok, has the code, prints as the code's text and the messages, and is equal to its copies.
pub to_string-new_status :
    (print_unknown : StatusCode → List ℕ) (c : StatusCode) (msg msg2 : Slice)
    → 1 ≤ c
    → c ≤ 5
    → size msg + size msg2 + 7 < 2 ^ 32
    → (s : Status) × (new_status c msg msg2 ≡ some s)
      × (ok s ≡ false)
      × ((d : StatusCode) → is_code d s ≡ some (c == d))
      × (to_string print_unknown s ≡ some (type_of_code print_unknown c ++ joined msg msg2))
      × (copy s ≡ some s)
unfolding ok is_code code_of
to_string-new_status print_unknown c msg msg2 lo hi h =
    let short : length (joined msg msg2) + 5 < 2 ^ 32 = omega (arith, length-joined msg msg2) in
    (
      record { status = some (stored c (joined msg msg2)) },
      new_status-stored c msg msg2 h,
      refl,
      λ d. rw (get_elem?-stored c (joined msg msg2)) refl,
      to_string-stored c (joined msg msg2) short print_unknown,
      copy-stored c (joined msg msg2) short (omega arith),
    )

-- what a status says that `make` made of two messages: that it is not ok, that it has this code and
-- no other, its text, and that its copy is the same
abbrev pub Reports :
    (print_unknown : StatusCode → List ℕ) (make : Slice → Slice → Option Status) (c : StatusCode)
    (text : List ℕ)
    → Slice
    → Slice
    → Type 0
Reports print_unknown make c text msg msg2 =
    (s : Status) × (make msg msg2 ≡ some s)
    × (ok s ≡ false)
    × ((d : StatusCode) → is_code d s ≡ some (c == d))
    × (to_string print_unknown s ≡ some (text ++ joined msg msg2))
    × (copy s ≡ some s)

-- Of two messages whose lengths are below 2^32 - 7 in sum, `NotFound`, `Corruption`,
-- `NotSupported`, `InvalidArgument` and `IOError` make statuses with the codes 1 to 5 and no other,
-- which are not ok, are equal to their copies, and print as "Not Found: ", "Corruption: ",
-- "Not Supported: ", "Invalid Argument: " and "IO Error: " with the messages behind it: the first
-- alone if the second is empty, else both with a colon and a space between them.
pub status_texts :
    (print_unknown : StatusCode → List ℕ) (msg msg2 : Slice)
    → size msg + size msg2 + 7 < 2 ^ 32
    → Reports print_unknown not_found 1 (codes "Not Found: ") msg msg2
      × Reports print_unknown corruption 2 (codes "Corruption: ") msg msg2
      × Reports print_unknown not_supported 3 (codes "Not Supported: ") msg msg2
      × Reports print_unknown invalid_argument 4 (codes "Invalid Argument: ") msg msg2
      × Reports print_unknown io_error 5 (codes "IO Error: ") msg msg2
unfolding not_found corruption not_supported invalid_argument io_error type_of_code
status_texts print_unknown msg msg2 h = (
  to_string-new_status print_unknown 1 msg msg2 (omega arith) (omega arith) h,
  to_string-new_status print_unknown 2 msg msg2 (omega arith) (omega arith) h,
  to_string-new_status print_unknown 3 msg msg2 (omega arith) (omega arith) h,
  to_string-new_status print_unknown 4 msg msg2 (omega arith) (omega arith) h,
  to_string-new_status print_unknown 5 msg msg2 (omega arith) (omega arith) h,
)

-- `IOError` gives a status that is not ok.
pub io_error_lem :
    (msg msg2 : Slice)
    → size msg + size msg2 + 7 < 2 ^ 32
    → (s : Status) × (io_error msg msg2 ≡ some s) × (ok s ≡ false)
unfolding io_error
io_error_lem msg msg2 h =
    let (s, e, bad, _, _, _) =
      to_string-new_status (λ c. []) 5 msg msg2 (omega arith) (omega arith) h in
    (s, e, bad)

-- `Corruption` gives a status with its code.
pub corruption_lem :
    (msg msg2 : Slice)
    → size msg + size msg2 + 7 < 2 ^ 32
    → (s : Status) × (corruption msg msg2 ≡ some s) × (is_code k_corruption s ≡ some true)
unfolding corruption
corruption_lem msg msg2 h =
    let (s, made, _, code, _, _) =
      to_string-new_status (λ c. []) k_corruption msg msg2 (omega arith) (omega arith) h in
    (s, made, code k_corruption)
