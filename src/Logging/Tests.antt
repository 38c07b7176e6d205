-- ===== src/Logging/Tests.antt =====
-- Runs of the escapes of db/Logging.cpp.
use releveldb.Base.{◌≡◌, refl, [], ◌∷◌, All}
use releveldb.Slice.{Slice}
use releveldb.Logging.{hex_digit, escape_byte, append_escape_string_to, escape_string}
use releveldb.Logging.Escape.{IsPrintable, escape_string-IsPrintable}

abbrev mixed : Slice
mixed = b'k' ∷ 0 ∷ 254 ∷ []

escape_string_run :
    escape_string mixed ≡ (b'k' ∷ b'\\' ∷ b'x' ∷ b'0' ∷ b'0' ∷ b'\\' ∷ b'x' ∷ b'f' ∷ b'e' ∷ [])
unfolding escape_string append_escape_string_to escape_byte hex_digit
escape_string_run = refl

escape_string-IsPrintable_example : All IsPrintable (escape_string mixed)
escape_string-IsPrintable_example = escape_string-IsPrintable mixed
