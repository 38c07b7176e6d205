-- ===== src/Logging/Escape.antt =====
-- What escaping gives.
use releveldb.Base.{
  ℕ, ◌*◌, ◌≤◌, ◌≡◌, refl, arith, sym, ◌∙◌, List, [], ◌∷◌, ◌++◌, append_assoc, append-nil, All,
  All-append, ◌&&◌, leb, true, inl, inr, Bool-cases, if◌then◌else◌, length, length-append,
}
use releveldb.Slice.{Slice}
use releveldb.Logging.{escape_byte, append_escape_string_to, escape_string}

abbrev pub IsPrintable : ℕ → Type 0
IsPrintable c = (32 ≤ c) × (c ≤ 126)

-- each byte as it is escaped
pub escaped : Slice → List ℕ
escaped [] = []
escaped (c ∷ s) = (if leb b' ' c && leb c b'~' then c ∷ [] else escape_byte c) ++ escaped s

append_escape_string_to-escaped :
    (target : List ℕ) (s : Slice) → append_escape_string_to target s ≡ target ++ escaped s
unfolding append_escape_string_to escaped
append_escape_string_to-escaped target [] = sym (append-nil target)
append_escape_string_to-escaped target (c ∷ s) = elim (Bool-cases (leb b' ' c && leb c b'~')) [
  | inl e ↦
      rw (e, append_escape_string_to-escaped (target ++ (c ∷ [])) s)
        (append_assoc target (c ∷ []) (escaped s))
  | inr e ↦
      rw (e, append_escape_string_to-escaped (target ++ escape_byte c) s)
        (append_assoc target (escape_byte c) (escaped s))
]

byte-IsPrintable : (c : ℕ) → All IsPrintable (escape_byte c)
unfolding escape_byte
byte-IsPrintable c = ground arith

head-IsPrintable :
    (c : ℕ) → All IsPrintable (if leb b' ' c && leb c b'~' then c ∷ [] else escape_byte c)
head-IsPrintable c = elim (Bool-cases (leb b' ' c && leb c b'~')) [
  | inl e ↦ rw e (ground arith)
  | inr e ↦ rw e (byte-IsPrintable c)
]

length-head :
    (c : ℕ)
    → (1 ≤ length (if leb b' ' c && leb c b'~' then c ∷ [] else escape_byte c))
      × (length (if leb b' ' c && leb c b'~' then c ∷ [] else escape_byte c) ≤ 4)
unfolding escape_byte
length-head c = ground arith

length-escaped : (s : Slice) → (length s ≤ length (escaped s)) × (length (escaped s) ≤ 4 * length s)
unfolding escaped
length-escaped [] = (omega arith, omega arith)
length-escaped (c ∷ s) =
    rw (length-append (if leb b' ' c && leb c b'~' then c ∷ [] else escape_byte c) (escaped s)) (
      omega (arith, length-head c, length-escaped s),
      omega (arith, length-head c, length-escaped s),
    )

printable_head : (c : ℕ) → IsPrintable c → (leb b' ' c && leb c b'~') ≡ true
printable_head c h = ground arith

escaped-printable : (s : Slice) → All IsPrintable s → escaped s ≡ s
unfolding escaped
escaped-printable [] h = refl
escaped-printable (c ∷ s) (p, h) = rw (printable_head c p, escaped-printable s h)

escaped-IsPrintable : (s : Slice) → All IsPrintable (escaped s)
unfolding escaped
escaped-IsPrintable [] = tt
escaped-IsPrintable (c ∷ s) =
    All-append IsPrintable _ _ (head-IsPrintable c) (escaped-IsPrintable s)

-- Every byte of `EscapeString`'s result is a printable character, from 32 to 126, whatever bytes
-- the argument holds.
pub escape_string-IsPrintable : (s : Slice) → All IsPrintable (escape_string s)
unfolding escape_string
escape_string-IsPrintable s = rw (append_escape_string_to-escaped [] s) (escaped-IsPrintable s)

-- The result is never shorter than the argument and at most four times as long.
length-escape_string :
    (s : Slice) → (length s ≤ length (escape_string s)) × (length (escape_string s) ≤ 4 * length s)
unfolding escape_string
length-escape_string s = rw (append_escape_string_to-escaped [] s) (length-escaped s)

-- A string whose bytes are all printable is returned as it is.
pub escape_string-printable : (s : Slice) → All IsPrintable s → escape_string s ≡ s
unfolding escape_string
escape_string-printable s h = append_escape_string_to-escaped [] s ∙ escaped-printable s h
