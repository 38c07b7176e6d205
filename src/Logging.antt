-- ===== src/Logging.antt =====
-- db/Logging.h and db/Logging.cpp. Text is the list of its byte codes. `char` may be signed: then
-- a byte from 128 on is negative, fails `c >= ' '`, and is escaped as it is by `c <= '~'`.
pub mod Escape
mod Tests
use releveldb.Base.{ℕ, ◌+◌, ◌-◌, ◌/◌, ◌%◌, List, [], ◌∷◌, ◌++◌, ◌&&◌, ltb, leb, if◌then◌else◌}
use releveldb.Slice.{Slice}

-- one digit of `%02x`
hex_digit : ℕ → ℕ
hex_digit d = if ltb d 10 then b'0' + d else b'a' + (d - 10)

-- `snprintf(buf, sizeof(buf), "\\x%02x", c & 0xff)`
pub escape_byte : ℕ → List ℕ
unfolding hex_digit
escape_byte c = b'\\' ∷ b'x' ∷ hex_digit (c / 16 % 16) ∷ hex_digit (c % 16) ∷ []

pub append_escape_string_to : List ℕ → Slice → List ℕ
append_escape_string_to target [] = target
append_escape_string_to target (c ∷ s) =
    append_escape_string_to
      (if leb b' ' c && leb c b'~' then target ++ (c ∷ []) else target ++ escape_byte c) s

pub escape_string : Slice → List ℕ
unfolding append_escape_string_to
escape_string s = append_escape_string_to [] s
