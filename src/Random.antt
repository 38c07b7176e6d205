-- ===== src/Random.antt =====
-- db/random.h. The seed is a uint32_t; `int` arguments are not negative.
pub mod Lehmer
mod Tests
use releveldb.Base.{
  ℕ, ◌+◌, ◌-◌, ◌*◌, ◌/◌, ◌%◌, ◌^◌, Option, none, some, Bool, ◌||◌, bit_and, ltb, ◌==◌,
  if◌then◌else◌,
}

pub record Random : Type 0 where
  pub seed : ℕ

abbrev pub m : ℕ
m = 2147483647

abbrev pub a : ℕ
a = 16807

pub new_random : ℕ → Random
new_random s =
    let seed = bit_and s 0x7fffffff in
    record { seed = if seed == 0 || seed == 2147483647 then 1 else seed }

-- The number that `Next` returns is the new seed.
unfoldable pub next : Random → ℕ × Random
next r =
    let product = r.seed * a % 2 ^ 64 in
    let reduced = (product / 2 ^ 31 + bit_and product m) % 2 ^ 32 in
    let seed = if ltb m reduced then reduced - m else reduced in (seed, record { seed = seed })

pub uniform : Random → ℕ → ℕ × Random
unfolding next
uniform r n = let (x, r') = next r in (x % n, r')

pub one_in : Random → ℕ → Bool × Random
unfolding next
one_in r n = let (x, r') = next r in (x % n == 0, r')

-- `1 << base` is an int: `none` is a shift that goes beyond it.
pub skewed : Random → ℕ → Option (ℕ × Random)
unfolding uniform
skewed r max_log =
    let (base, r') = uniform r (max_log + 1) in
    if ltb base 31 then some (uniform r' (2 ^ base)) else none
