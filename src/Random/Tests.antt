-- ===== src/Random/Tests.antt =====
-- Runs of the generator of db/random.h.
use releveldb.Base.{◌*◌, ◌%◌, ◌<◌, ◌≡◌, refl, arith}
use releveldb.Random.{Random, next, uniform, a, m}
use releveldb.Random.Lehmer.{IsSeed, next_mod, uniform-lt}

abbrev gen : Random
gen = record { seed = 301 }

next_run : (next gen).0 ≡ 5058907
unfolding next
next_run = refl

next_mod_example :
    ((next gen).0 ≡ 301 * a % m) × ((next gen).1.seed ≡ (next gen).0) × IsSeed (next gen).0
next_mod_example = next_mod gen (omega arith)

uniform-lt_example : ((uniform gen 10).0 < 10) × IsSeed (uniform gen 10).1.seed
uniform-lt_example = uniform-lt gen 10 (omega arith) (omega arith)
