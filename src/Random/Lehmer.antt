-- ===== src/Random/Lehmer.antt =====
-- The generator multiplies by 16807 modulo 2^31 - 1.
use releveldb.Base.{
  ltb, true, some, ℕ, zero, suc, ◌+◌, ◌-◌, ◌*◌, ◌/◌, ◌%◌, ◌^◌, ◌≤◌, ◌<◌, ◌≡◌, refl, arith, bit_and,
  ltb, if◌then◌else◌, ◌∙◌,
}
use releveldb.Base.Bits.{bit_and-ones}
use native.Mathlib.Nat.{mod-lt, pow-suc, one-le-pow}
use releveldb.Random.{Random, m, a, new_random, next, uniform, skewed}

-- the seeds that the class keeps
abbrev pub IsSeed : ℕ → Type 0
IsSeed s = (0 < s) × (s < m)

pow_mono : (i j : ℕ) → i ≤ j → 2 ^ i ≤ 2 ^ j
pow_mono zero j h = one-le-pow j 2 (omega arith)
pow_mono (suc i) zero h = absurd (omega arith)
pow_mono (suc i) (suc j) h = omega (arith, pow_mono i j (omega arith), pow-suc 2 i, pow-suc 2 j)

low_part : (p : ℕ) → bit_and p m ≡ p % 2 ^ 31
low_part p = bit_and-ones 31 p

abbrev reduce : ℕ → ℕ
reduce p =
    let reduced = (p / 2 ^ 31 + p % 2 ^ 31) % 2 ^ 32 in
    if ltb m reduced then reduced - m else reduced

reduce-mod : (p : ℕ) → p < 2 ^ 46 → 0 < p % m → reduce p ≡ p % m
reduce-mod p h pos = ground arith

-- 2^31 - 1 is prime, and does not divide 16807.
product-pos : (s : ℕ) → IsSeed s → 0 < s * a % m
product-pos s h = omega arith

next-reduce : (r : Random) → IsSeed r.seed → (next r).0 ≡ reduce (r.seed * a)
unfolding next
next-reduce r h =
    let small : r.seed * a % 2 ^ 64 ≡ r.seed * a = omega arith in
    rw small (rw (low_part (r.seed * a)) refl)

-- On a proper seed `Next` gives `seed * 16807 mod (2^31 - 1)`, which is a proper seed again and is
-- the new state.
pub next_mod :
    (r : Random)
    → IsSeed r.seed
    → ((next r).0 ≡ r.seed * a % m) × ((next r).1.seed ≡ (next r).0) × IsSeed (next r).0
next_mod r h =
    let e : (next r).0 ≡ r.seed * a % m =
      next-reduce r h ∙ reduce-mod (r.seed * a) (omega arith) (product-pos r.seed h) in
    (e, unfold next in refl, rw e (product-pos r.seed h, omega arith))

-- The constructor makes a proper seed of every number.
pub new_random-IsSeed : (s : ℕ) → IsSeed (new_random s).seed
unfolding new_random
new_random-IsSeed s = ground (arith, bit_and-ones 31 s)

-- The next proper seed determines the one before: no two seeds have the same successor.
pub next_injective :
    (r t : Random) → IsSeed r.seed → IsSeed t.seed → (next r).0 ≡ (next t).0 → r.seed ≡ t.seed
next_injective r t h k e =
    let x : r.seed * a % m ≡ t.seed * a % m = omega (arith, next_mod r h, next_mod t k) in
    omega arith

-- `Uniform(n)` lies below `n`, and keeps the seed proper.
pub uniform-lt :
    (r : Random) (n : ℕ)
    → IsSeed r.seed
    → 0 < n
    → ((uniform r n).0 < n) × IsSeed (uniform r n).1.seed
unfolding uniform
uniform-lt r n h pos = let (e, same, is) = next_mod r h in (mod-lt (next r).0 pos, rw same is)

-- `Skewed(max_log)`, for a `max_log` below 31, lies below `2 ^ max_log`, and keeps the seed proper.
pub skewed-lt :
    (r : Random) (max_log : ℕ)
    → IsSeed r.seed
    → max_log < 31
    → (n : ℕ) × (r' : Random) × (skewed r max_log ≡ some (n, r'))
      × (n < 2 ^ max_log)
      × IsSeed r'.seed
unfolding skewed
skewed-lt r max_log h small =
    let (low, is) = uniform-lt r (max_log + 1) h (omega arith) in
    let base : ℕ = (uniform r (max_log + 1)).0 in
    let (lt, is') =
      uniform-lt (uniform r (max_log + 1)).1 (2 ^ base) is (one-le-pow base 2 (omega arith)) in
    let fits : ltb (uniform r (max_log + 1)).0 31 ≡ true = ground (arith, low, small) in
    (
      (uniform (uniform r (max_log + 1)).1 (2 ^ base)).0,
      (uniform (uniform r (max_log + 1)).1 (2 ^ base)).1,
      rw fits refl,
      omega (arith, lt, pow_mono base max_log (omega arith)),
      is',
    )
