-- ===== src/EnvPosix/Tests/Contention.antt =====
-- Two threads in `MmapLimiter::Acquire` of db/Env_posix.cpp.
use releveldb.Base.{ℕ, ◌+◌, ◌≡◌, refl, List, [], ◌∷◌, Option, none, some}
use releveldb.EnvPosix.Contention.{
  Limit, acquire_call, thread_step, Reach, start, next, Reach-count,
}

abbrev Some : Type 0
Some = (s : Limit) × Reach s

stepped :
    (s : Limit)
    → Reach s
    → (t : ℕ) → (o : Option Limit) → thread_step s t acquire_call (s.phase t) ≡ o
    → Some
stepped s reach t none e = (s, reach)
stepped s reach t (some s') e = (s', next s' t acquire_call reach e)

-- the threads take their steps by turns
scheduled : List ℕ → Some → Some
unfolding stepped
scheduled [] run = run
scheduled (t ∷ turns) (s, reach) = scheduled turns (stepped s reach t _ refl)

-- both test, then the first stores while the second waits
abbrev contended : Some
contended = scheduled (0 ∷ 1 ∷ 0 ∷ 1 ∷ 0 ∷ 1 ∷ 0 ∷ 0 ∷ 1 ∷ 1 ∷ []) (_, start)

contended-allowed : contended.0.allowed ≡ 999
unfolding scheduled stepped thread_step
contended-allowed = refl

Reach-count_example : contended.0.allowed + contended.0.acquired ≡ 1000 + contended.0.released
Reach-count_example = Reach-count contended.0 contended.1
