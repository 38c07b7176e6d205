-- ===== src/Base/Bits.antt =====
-- Masks and disjoint fields as arithmetic, from the digit recursion that the native
-- operations stand for.
use Prim.Native.Nat.{ℕ, zero, suc, ◌+◌, ◌*◌, ◌/◌, ◌%◌, ◌^◌, ◌≤◌, ◌<◌, min, max}
use Prim.Native.Nat.{bit_and, bit_or, digits, bit_and-bitwise, bit_or-bitwise}
use mathlib.Core.Path.{◌≡◌, refl, ap, ◌∙◌}
use native.Mathlib.Nat.{
  div-div-eq-div-mul, mul_assoc, mul_comm, pow-suc, div-add-mod, mul-add-mod_self_left,
  mod-eq_of_lt, mod-lt,
}
use native.Mathlib.Omega.{arith}

-- Fuel beyond the first argument changes nothing.
digits_enough :
    (z : ℕ → ℕ) (f : ℕ → ℕ → ℕ) (n m a b : ℕ) → a ≤ n → a ≤ m → digits z f n a b ≡ digits z f m a b
digits_enough z f zero zero a b p q = refl
digits_enough z f zero (suc m) zero b p q = refl
digits_enough z f zero (suc m) (suc a) b p q = absurd (omega arith)
digits_enough z f (suc n) zero zero b p q = refl
digits_enough z f (suc n) zero (suc a) b p q = absurd (omega arith)
digits_enough z f (suc n) (suc m) zero b p q = refl
digits_enough z f (suc n) (suc m) (suc a) b p q =
    omega (arith, digits_enough z f n m (suc a / 2) (b / 2) (omega arith) (omega arith))

zero-bit_or : (b : ℕ) → bit_or 0 b ≡ b
zero-bit_or b = bit_or-bitwise 0 b

zero-bit_and : (b : ℕ) → bit_and 0 b ≡ 0
zero-bit_and b = bit_and-bitwise 0 b

-- The lowest digit, and the rest.
bit_or_digit : (a b : ℕ) → bit_or a b ≡ bit_or (a / 2) (b / 2) * 2 + max (a % 2) (b % 2)
bit_or_digit zero b = omega (arith, zero-bit_or b, zero-bit_or (b / 2))
bit_or_digit (suc a) b = omega (
  arith,
  bit_or-bitwise (suc a) b,
  bit_or-bitwise (suc a / 2) (b / 2),
  digits_enough (λ y. y) max a (suc a / 2) (suc a / 2) (b / 2) (omega arith) (omega arith),
)

bit_and_digit : (a b : ℕ) → bit_and a b ≡ bit_and (a / 2) (b / 2) * 2 + min (a % 2) (b % 2)
bit_and_digit zero b = omega (arith, zero-bit_and b, zero-bit_and (b / 2))
bit_and_digit (suc a) b = omega (
  arith,
  bit_and-bitwise (suc a) b,
  bit_and-bitwise (suc a / 2) (b / 2),
  digits_enough (λ y. 0) min a (suc a / 2) (suc a / 2) (b / 2) (omega arith) (omega arith),
)

bit_or-zero_below : (n a : ℕ) → a ≤ n → bit_or a 0 ≡ a
bit_or-zero_below n zero h = refl
bit_or-zero_below zero (suc a) h = absurd (omega arith)
bit_or-zero_below (suc n) (suc a) h =
    omega (arith, bit_or_digit (suc a) 0, bit_or-zero_below n (suc a / 2) (omega arith))

pub bit_or-zero : (a : ℕ) → bit_or a 0 ≡ a
bit_or-zero a = bit_or-zero_below a a (omega arith)

bit_and-zero_below : (n a : ℕ) → a ≤ n → bit_and a 0 ≡ 0
bit_and-zero_below n zero h = refl
bit_and-zero_below zero (suc a) h = absurd (omega arith)
bit_and-zero_below (suc n) (suc a) h =
    omega (arith, bit_and_digit (suc a) 0, bit_and-zero_below n (suc a / 2) (omega arith))

-- The field `r` of `k` bits below the field `q`.
pub bit_or-add : (k q r : ℕ) → r < 2 ^ k → bit_or (q * 2 ^ k) r ≡ q * 2 ^ k + r
bit_or-add zero q r h = let e : r ≡ 0 = omega arith in rw (e, bit_or-zero) (omega arith)
bit_or-add (suc k) q r h =
    let double : q * 2 ^ suc k ≡ 2 * (q * 2 ^ k) =
      omega (arith, ap (λ (t : ℕ). q * t) (pow-suc 2 k)) in
    let half : q * 2 ^ suc k / 2 ≡ q * 2 ^ k = omega arith in
    let digit : bit_or (q * 2 ^ suc k) r
        ≡ bit_or (q * 2 ^ suc k / 2) (r / 2) * 2 + max (q * 2 ^ suc k % 2) (r % 2) =
      bit_or_digit (q * 2 ^ suc k) r in
    let low : r / 2 < 2 ^ k = omega (arith, pow-suc 2 k) in
    omega (arith, rw half at digit, bit_or-add k q (r / 2) low)

bit_or_comm_below : (n a b : ℕ) → a ≤ n → b ≤ n → bit_or a b ≡ bit_or b a
bit_or_comm_below zero a b h k = let e : a ≡ b = omega arith in rw e
bit_or_comm_below (suc n) a b h k = omega (
  arith,
  bit_or_digit a b,
  bit_or_digit b a,
  bit_or_comm_below n (a / 2) (b / 2) (omega arith) (omega arith),
)

pub bit_or_comm : (a b : ℕ) → bit_or a b ≡ bit_or b a
bit_or_comm a b = bit_or_comm_below (a + b) a b (omega arith) (omega arith)

bit_and-one : (a : ℕ) → bit_and a 1 ≡ a % 2
bit_and-one a = omega (arith, bit_and_digit a 1, bit_and-zero_below (a / 2) (a / 2) (omega arith))

-- `2 ^ k - 1`, by its digits
abbrev pub ones : ℕ → ℕ
ones zero = 0
ones (suc k) = 2 * ones k + 1

ones-pow : (k : ℕ) → ones k + 1 ≡ 2 ^ k
ones-pow zero = refl
ones-pow (suc k) = omega (arith, ones-pow k, pow-suc 2 k)

mod-double : (a m : ℕ) → 0 < m → a % (m * 2) ≡ 2 * (a / 2 % m) + a % 2
mod-double a m h =
    let split : a ≡ m * 2 * (a / 2 / m) + (2 * (a / 2 % m) + a % 2) =
      omega (arith, div-add-mod (a / 2) m) in
    ap (λ (t : ℕ). t % (m * 2)) split
    ∙ mul-add-mod_self_left (m * 2) (a / 2 / m) (2 * (a / 2 % m) + a % 2)
    ∙ mod-eq_of_lt (omega (arith, mod-lt (a / 2) h))

pub bit_and-ones : (k a : ℕ) → bit_and a (ones k) ≡ a % 2 ^ k
bit_and-ones zero a = omega (arith, bit_and-zero_below a a (omega arith))
bit_and-ones (suc k) a =
    let digit : bit_and a (ones (suc k))
        ≡ bit_and (a / 2) (ones (suc k) / 2) * 2 + min (a % 2) (ones (suc k) % 2) =
      bit_and_digit a (ones (suc k)) in
    let half : ones (suc k) / 2 ≡ ones k = omega arith in
    rw (pow-suc 2 k) (
      omega (
        arith,
        rw half at digit,
        bit_and-ones k (a / 2),
        mod-double a (2 ^ k) (omega (arith, ones-pow k)),
      ))

-- One bit of a number.
bit_and-pow : (k b : ℕ) → bit_and b (2 ^ k) ≡ b / 2 ^ k % 2 * 2 ^ k
bit_and-pow zero b = omega (arith, bit_and-one b)
bit_and-pow (suc k) b =
    let double : 2 ^ suc k ≡ 2 * 2 ^ k = omega (arith, pow-suc 2 k) in
    let half : 2 ^ suc k / 2 ≡ 2 ^ k = omega (arith, double) in
    let digit : bit_and b (2 ^ suc k)
        ≡ bit_and (b / 2) (2 ^ suc k / 2) * 2 + min (b % 2) (2 ^ suc k % 2) =
      bit_and_digit b (2 ^ suc k) in
    let quotient : b / 2 / 2 ^ k ≡ b / 2 ^ suc k =
      div-div-eq-div-mul b 2 (2 ^ k) ∙ ap (λ (t : ℕ). b / t) (omega (arith, double)) in
    let width : b / 2 ^ suc k % 2 * 2 ^ suc k ≡ b / 2 ^ suc k % 2 * 2 ^ k * 2 = omega (
      arith,
      ap (λ (t : ℕ). b / 2 ^ suc k % 2 * t) double,
      mul_assoc (b / 2 ^ suc k % 2) 2 (2 ^ k),
      mul_comm (b / 2 ^ suc k % 2 * 2 ^ k) 2,
    ) in
    let rest : bit_and (b / 2) (2 ^ k) ≡ b / 2 / 2 ^ k % 2 * 2 ^ k = bit_and-pow k (b / 2) in
    omega (arith, double, rw half at digit, rw quotient at rest, width)

-- The top bit of a byte.
pub bit_and-top : (b : ℕ) → bit_and b 128 ≡ b / 128 % 2 * 128
bit_and-top b = bit_and-pow 7 b

-- Adding the field `r << k` above a value below `2 ^ k`.
pub bit_or-add_low : (k q r : ℕ) → r < 2 ^ k → bit_or r (q * 2 ^ k) ≡ r + q * 2 ^ k
bit_or-add_low k q r h = omega (arith, bit_or_comm r (q * 2 ^ k), bit_or-add k q r h)

-- An or has no bit above both.
pub bit_or-lt : (k a b : ℕ) → a < 2 ^ k → b < 2 ^ k → bit_or a b < 2 ^ k
bit_or-lt zero a b h g =
    let e : a ≡ 0 = omega arith in let e' : b ≡ 0 = omega arith in rw (e, e') (omega arith)
bit_or-lt (suc k) a b h g = omega (
  arith,
  bit_or_digit a b,
  pow-suc 2 k,
  bit_or-lt k (a / 2) (b / 2) (omega (arith, pow-suc 2 k)) (omega (arith, pow-suc 2 k)),
)

-- An or is at least each of its parts.
le-bit_or_below : (n a b : ℕ) → a ≤ n → a ≤ bit_or a b
le-bit_or_below n zero b h = omega arith
le-bit_or_below zero (suc a) b h = absurd (omega arith)
le-bit_or_below (suc n) (suc a) b h =
    omega (arith, bit_or_digit (suc a) b, le-bit_or_below n (suc a / 2) (b / 2) (omega arith))

pub le-bit_or : (a b : ℕ) → (a ≤ bit_or a b) × (b ≤ bit_or a b)
le-bit_or a b = (
  le-bit_or_below a a b (omega arith),
  omega (arith, bit_or_comm a b, le-bit_or_below b b a (omega arith)),
)
