-- ===== src/Coding/Varint.antt =====
-- Variable-length integers: the fast path, round trips, failures, and what is consumed.
use mathlib.Core.Option.{none-ne-some}
use releveldb.Base.{
  sym, length-append, ℕ, zero, suc, ◌+◌, ◌*◌, ◌/◌, ◌%◌, ◌^◌, ◌≤◌, ◌<◌, ◌≡◌, refl, arith, List, [],
  ◌∷◌, ◌++◌,
}
use releveldb.Base.{
  bit_and, bit_or, Bool, true, false, Option, none, some, length, All, ap, ◌∙◌, ◌↔◌, ltb, leb, ◌==◌,
  if◌then◌else◌, Bool-cases, inl, inr, leb→le, not, ◌||◌,
}
use releveldb.Base.Bits.{bit_and-ones, bit_or-add_low, bit_and-top, bit_or-lt}
use native.Mathlib.Nat.{pow-suc, mod-lt, mod-eq_of_lt, one-le-pow}
use native.Mathlib.Numerals.{towards_suc}
use releveldb.Slice.{IsByte}
use releveldb.Coding.{varint_loop, get_varint32_ptr_fallback, get_varint32_ptr, get_varint64_ptr}

one_byte :
    (b : ℕ) (p : List ℕ) → b < 2 ^ 32 → get_varint32_ptr (b ∷ p) ≡ get_varint32_ptr_fallback (b ∷ p)
unfolding get_varint32_ptr get_varint32_ptr_fallback varint_loop
one_byte b p h = ground (arith, bit_or-add_low 0 b 0)

-- The one-byte fast path of `GetVarint32Ptr` gives what its fallback gives, on all bytes.
pub get_varint32_ptr_fast :
    (p : List ℕ) → All IsByte p → get_varint32_ptr p ≡ get_varint32_ptr_fallback p
get_varint32_ptr_fast [] h = unfold get_varint32_ptr in refl
get_varint32_ptr_fast (b ∷ p) h = one_byte b p (omega arith)

-- The groups of seven bits of `v`, lowest first, all but the last with the top bit set.
unfoldable pub varint_bytes : ℕ → ℕ → List ℕ
varint_bytes zero v = v ∷ []
varint_bytes (suc k) v =
    let rest = varint_bytes k (v / 128) in if ltb v 128 then v ∷ [] else (v % 128 + 128) ∷ rest

shift_seven : (s : ℕ) → 2 ^ (s + 7) ≡ 128 * 2 ^ s
shift_seven s = simp towards_suc (omega arith)

pub get_varint32_ptr_small : (b : ℕ) (p : List ℕ) → b < 128 → get_varint32_ptr (b ∷ p) ≡ some (b, p)
unfolding get_varint32_ptr
get_varint32_ptr_small b p h = ground (arith, bit_and-top b)

-- One round on a last byte `b`, and on the group `g` under a set top bit.
last_byte :
    (last width b shift result : ℕ) (rest : List ℕ)
    → b < 128
    → shift ≤ last
    → result < 2 ^ shift
    → result + b * 2 ^ shift < 2 ^ width
    → varint_loop last width (b ∷ rest) shift result ≡ some (result + b * 2 ^ shift, rest)
unfolding varint_loop
last_byte last width b shift result rest hb hs hr fits =
    ground (arith, bit_and-top b, mod-eq_of_lt fits', bit_or-add_low shift b result hr)
  where
    fits' : b * 2 ^ shift < 2 ^ width
    fits' = omega arith

inner_byte :
    (last width g shift result : ℕ) (rest : List ℕ)
    → g < 128
    → shift ≤ last
    → result < 2 ^ shift
    → result + g * 2 ^ shift < 2 ^ width
    → varint_loop last width ((g + 128) ∷ rest) shift result
      ≡ varint_loop last width rest (shift + 7) (result + g * 2 ^ shift)
unfolding varint_loop
inner_byte last width g shift result rest hg hs hr fits =
    ground (arith, bit_and-top (g + 128), low, fits', bit_or-add_low shift g result hr)
  where
    low : bit_and (g + 128) 127 ≡ g
    low = omega (arith, bit_and-ones 7 (g + 128))

    fits' : bit_and (g + 128) 127 * 2 ^ shift % 2 ^ width ≡ g * 2 ^ shift
    fits' = rw low (mod-eq_of_lt (omega arith))

group_sum : (n k : ℕ) → n / 128 * 2 ^ (k + 7) + n % 128 * 2 ^ k ≡ n * 2 ^ k
group_sum n k =
    let high : n / 128 * 2 ^ (k + 7) ≡ n / 128 * (128 * 2 ^ k) =
      ap (λ x. n / 128 * x) (shift_seven k) in
    let whole : (n / 128 * 128 + n % 128) * 2 ^ k ≡ n * 2 ^ k = ap (λ x. x * 2 ^ k) (omega arith) in
    omega (arith, high, whole)

group_fits : (g s : ℕ) → g < 128 → g * 2 ^ s + 2 ^ s ≤ 2 ^ (s + 7)
group_fits g s h = grind (arith, shift_seven s)

varint_loop-varint_bytes :
    (last width k v shift result : ℕ) (rest : List ℕ)
    → v < 128 ^ suc k
    → shift + 7 * k ≤ last
    → result < 2 ^ shift
    → result + v * 2 ^ shift < 2 ^ width
    → varint_loop last width (varint_bytes k v ++ rest) shift result
      ≡ some (result + v * 2 ^ shift, rest)
unfolding varint_bytes
varint_loop-varint_bytes last width zero v shift result rest hv hs hr fits =
    last_byte last width v shift result rest (omega arith) (omega arith) hr fits
varint_loop-varint_bytes last width (suc k) v shift result rest hv hs hr fits = ground (
  arith,
  last_byte last width v shift result rest,
  group_sum v shift,
  group_fits (v % 128) shift,
  inner_byte last width (v % 128) shift result (varint_bytes k (v / 128) ++ rest),
  varint_loop-varint_bytes last width k (v / 128) (shift + 7) (result + v % 128 * 2 ^ shift) rest
      (omega (arith, pow-suc 128 (suc k))),
)

-- `GetVarint32Ptr` reads back every uint32 from its encoding, and stops where the encoding ends.
pub get_varint32_ptr-varint_bytes :
    (v : ℕ) (rest : List ℕ)
    → v < 2 ^ 32
    → get_varint32_ptr (varint_bytes 4 v ++ rest) ≡ some (v, rest)
get_varint32_ptr-varint_bytes v rest h = fast ∙ slow
  where
    slow : get_varint32_ptr_fallback (varint_bytes 4 v ++ rest) ≡ some (v, rest)
    slow =
        unfold get_varint32_ptr_fallback in
        ground (arith, varint_loop-varint_bytes 28 32 4 v 0 0 rest (omega arith))

    fast :
        get_varint32_ptr (varint_bytes 4 v ++ rest)
        ≡ get_varint32_ptr_fallback (varint_bytes 4 v ++ rest)
    fast = elim (Bool-cases (ltb v 128)) [
      | inl small ↦ unfold varint_bytes in rw small (one_byte v rest (omega arith))
      | inr large ↦ unfold varint_bytes in rw large (one_byte (v % 128 + 128) _ (omega arith))
    ]

-- `GetVarint64Ptr` reads back every uint64 from its encoding, and stops where the encoding ends.
pub get_varint64_ptr-varint_bytes :
    (v : ℕ) (rest : List ℕ)
    → v < 2 ^ 64
    → get_varint64_ptr (varint_bytes 9 v ++ rest) ≡ some (v, rest)
unfolding get_varint64_ptr
get_varint64_ptr-varint_bytes v rest h =
    ground (arith, varint_loop-varint_bytes 63 64 9 v 0 0 rest (omega arith))

-- What a successful loop has taken, after `j` bytes.
abbrev Taken : (last width j : ℕ) → List ℕ → ℕ → List ℕ → Type 0
Taken last width j p v rest =
    (v < 2 ^ width)
    × (front : List ℕ) × (p ≡ front ++ rest)
    × (1 ≤ length front)
    × (7 * (length front + j) ≤ last + 7)

pub varint_loop_takes :
    (last width j : ℕ) (p : List ℕ) (shift result v : ℕ) (rest : List ℕ)
    → shift ≡ 7 * j
    → result < 2 ^ width
    → varint_loop last width p shift result ≡ some (v, rest)
    → Taken last width j p v rest
unfolding varint_loop
varint_loop_takes last width j [] shift result v rest hs hr e = cc
varint_loop_takes last width j (b ∷ p) shift result v rest hs hr e =
    elim (Bool-cases (leb shift last)) [
      | inr past ↦ ground arith
      | inl go ↦ elim (Bool-cases (bit_and b 128 == 0)) [
        | inl done ↦ (
          ground (arith, or_lt b),
          b ∷ [],
          ground arith,
          omega arith,
          omega (arith, leb→le shift last go),
        )
        | inr more ↦ longer (
            varint_loop_takes last width (j + 1) p (shift + 7) acc v rest (omega arith)
              (or_lt (bit_and b 127)) (ground arith))
      ]
    ]
  where
    acc : ℕ
    acc = bit_or result (bit_and b 127 * 2 ^ shift % 2 ^ width)

    or_lt : (g : ℕ) → bit_or result (g * 2 ^ shift % 2 ^ width) < 2 ^ width
    or_lt g = bit_or-lt width result _ hr (mod-lt _ (one-le-pow width 2 (omega arith)))

    longer : Taken last width (j + 1) p v rest → Taken last width j (b ∷ p) v rest
    longer (lt, front, eq, pos, len) = (lt, b ∷ front, ap (◌∷◌ b) eq, omega arith, omega arith)

-- A successful `GetVarint32Ptr` yields a uint32, and has taken one to five bytes from the front.
pub get_varint32_ptr_takes :
    (p : List ℕ) (v : ℕ) (rest : List ℕ)
    → All IsByte p
    → get_varint32_ptr p ≡ some (v, rest)
    → (v < 2 ^ 32)
      × (front : List ℕ) × (p ≡ front ++ rest)
      × (1 ≤ length front)
      × (length front ≤ 5)
get_varint32_ptr_takes p v rest hp e =
    let (lt, front, eq, pos, len) =
      varint_loop_takes 28 32 0 p 0 0 v rest refl (omega arith)
        (unfold get_varint32_ptr_fallback in (rw (get_varint32_ptr_fast p hp) at e)) in
    (lt, front, eq, pos, omega arith)

no_bytes : varint_loop 28 32 [] 0 0 ≡ none
unfolding varint_loop
no_bytes = refl

-- On any list of numbers, bytes or not, something is taken.
pub get_varint32_ptr_shorter :
    (p : List ℕ) (v : ℕ) (rest : List ℕ)
    → get_varint32_ptr p ≡ some (v, rest)
    → length rest < length p
unfolding get_varint32_ptr get_varint32_ptr_fallback
get_varint32_ptr_shorter [] v rest e = absurd (none-ne-some (v, rest) (sym no_bytes ∙ e))
get_varint32_ptr_shorter (b ∷ p) v rest e = elim (Bool-cases (bit_and b 128 == 0)) [
  | inl fast ↦ ground arith
  | inr slow ↦
      let (_, front, same, pos, _) =
        varint_loop_takes 28 32 0 (b ∷ p) 0 0 v rest refl (omega arith) (rw slow at e) in
      omega (arith, ap length same, length-append front rest)
]

-- A successful `GetVarint64Ptr` yields a uint64, and has taken one to ten bytes from the front.
pub get_varint64_ptr_takes :
    (p : List ℕ) (v : ℕ) (rest : List ℕ)
    → get_varint64_ptr p ≡ some (v, rest)
    → (v < 2 ^ 64)
      × (front : List ℕ) × (p ≡ front ++ rest)
      × (1 ≤ length front)
      × (length front ≤ 10)
unfolding get_varint64_ptr
get_varint64_ptr_takes p v rest e =
    let (lt, front, eq, pos, len) = varint_loop_takes 63 64 0 p 0 0 v rest refl (omega arith) e in
    (lt, front, eq, pos, omega arith)

-- One of the first `n` bytes has a clear top bit.
abbrev pub ends_within : ℕ → List ℕ → Bool
ends_within zero p = false
ends_within (suc n) [] = false
ends_within (suc n) (b ∷ p) = ltb b 128 || ends_within n p

abbrev is_none : Option (ℕ × List ℕ) → Bool
is_none none = true
is_none (some _) = false

varint_loop-ends_within :
    (last width n : ℕ) (p : List ℕ) (shift result : ℕ)
    → shift + 7 * n ≡ last + 7
    → All IsByte p
    → is_none (varint_loop last width p shift result) ≡ not (ends_within n p)
unfolding varint_loop
varint_loop-ends_within last width zero [] shift result e h = refl
varint_loop-ends_within last width (suc n) [] shift result e h = refl
varint_loop-ends_within last width zero (b ∷ p) shift result e h = ground arith
varint_loop-ends_within last width (suc n) (b ∷ p) shift result e h = ground (
  arith,
  bit_and-top b,
  varint_loop-ends_within last width n p (shift + 7)
      (bit_or result (bit_and b 127 * 2 ^ shift % 2 ^ width)) (omega arith),
)

none_iff : (o : Option (ℕ × List ℕ)) (b : Bool) → is_none o ≡ not b → (o ≡ none) ↔ (b ≡ false)
none_iff none true h = cc
none_iff none false h = (λ _. refl, λ _. refl)
none_iff (some x) true h = (λ e. cc, λ e. cc)
none_iff (some x) false h = cc

-- `GetVarint32Ptr` returns NULL exactly when none of the first five bytes ends the number.
pub get_varint32_ptr-none :
    (p : List ℕ) → All IsByte p → (get_varint32_ptr p ≡ none) ↔ (ends_within 5 p ≡ false)
get_varint32_ptr-none p h = rw (get_varint32_ptr_fast p h) (
    unfold get_varint32_ptr_fallback in
    none_iff _ _ (varint_loop-ends_within 28 32 5 p 0 0 (omega arith) h))

-- `GetVarint64Ptr` returns NULL exactly when none of the first ten bytes ends the number.
pub get_varint64_ptr-none :
    (p : List ℕ) → All IsByte p → (get_varint64_ptr p ≡ none) ↔ (ends_within 10 p ≡ false)
unfolding get_varint64_ptr
get_varint64_ptr-none p h = none_iff _ _ (varint_loop-ends_within 63 64 10 p 0 0 (omega arith) h)
