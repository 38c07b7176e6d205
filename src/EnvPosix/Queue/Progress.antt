-- ===== src/EnvPosix/Queue/Progress.antt =====
-- What is in the queue gets run: the background thread, left to itself, empties it.
use releveldb.Base.{
  ℕ, zero, suc, ◌+◌, ◌*◌, ◌≤◌, List, [], ◌∷◌, ◌++◌, length, append-nil, append_assoc, ◌≡◌, refl,
  sym, subst, ap, ◌∙◌, Option, some, arith, ◌>>=◌,
}
use releveldb.Env.{Work}
use releveldb.EnvPosix.Sys.{Posix}
use releveldb.EnvPosix.Queue.{
  Phase, idle, ready, waiting, running, Threads, bg_thread, Run, after, bg_step, Reach, IsSettled,
  IsOrdered,
}
use releveldb.EnvPosix.Queue.Order.{bg_step-moved, Reach-IsConsistent}

module _ {W : Type 0} (p : Posix W) (t : Threads p) where
  -- steps of the background thread alone
  unfoldable pub advance : ℕ → Run W → Option (Run W)
  advance zero r = some r
  advance (suc k) r = bg_step p t r >>= λ r'. advance k r'

  -- It runs all that is scheduled in that many steps.
  abbrev Finishes : Run W → ℕ → Type 0
  Finishes r bound =
      (k : ℕ) × (r' : Run W) × (advance k r ≡ some r') × (r'.done ≡ r.scheduled) × (k ≤ bound)

  advance-step :
      (r r1 : Run W) (bound : ℕ)
      → bg_step p t r ≡ some r1
      → r1.scheduled ≡ r.scheduled
      → Finishes r1 bound
      → Finishes r (suc bound)
  advance-step r r1 bound e same (k, r', ran, done, h) = (
    suc k,
    r',
    unfold advance in ap (λ o. o >>= λ r'. advance k r') e ∙ ran,
    done ∙ same,
    omega (arith, h),
  )

  drain :
      (queue : List Work) (r : Run W)
      → t.phase r.env.os ≡ ready
      → r.env.queue ≡ queue
      → IsOrdered ready queue r.done r.scheduled
      → Finishes r (2 * length queue)
  drain [] r e q ordered =
      (0, r, unfold advance in refl, sym (ordered ∙ append-nil r.done), omega arith)
  drain (front ∷ queue) r e q ordered =
      let r1 : Run W = after p t r (running front, queue, []) in
      let r2 : Run W = after p t r1 (ready, queue, front ∷ []) in
      let rest : Finishes r2 (2 * length queue) =
        drain queue r2 (t.phase-moved _ _) refl (ordered ∙ simp append_assoc) in
      let finished =
        advance-step r r1 (suc (2 * length queue))
          (bg_step-moved p t r ready (front ∷ queue) (running front, queue, []) e q
            (unfold bg_thread in refl))
          refl
          (advance-step r1 r2 (2 * length queue)
            (bg_step-moved p t r1 (running front) queue (ready, queue, front ∷ [])
              (t.phase-moved _ _) refl (unfold bg_thread in refl))
            refl rest) in
      subst (Finishes r) (omega arith) finished

  weaker : (r : Run W) (m n : ℕ) → m ≤ n → Finishes r m → Finishes r n
  weaker r m n h (k, r', ran, done, le) = (k, r', ran, done, omega (arith, h, le))

  at_rest :
      (r : Run W) (n : ℕ) → r.scheduled ≡ r.done ++ r.env.queue → r.env.queue ≡ [] → Finishes r n
  at_rest r n ordered empty = (
    0,
    r,
    unfold advance in refl,
    sym (ordered ∙ ap (λ q. r.done ++ q) empty ∙ append-nil r.done),
    omega arith,
  )

  finish :
      (ph : Phase) (r : Run W)
      → t.phase r.env.os ≡ ph
      → IsSettled ph r.env.started_bgthread r.env.queue
      → IsOrdered ph r.env.queue r.done r.scheduled
      → Finishes r (2 * length r.env.queue + 1)
  finish idle r e (fresh, empty) ordered = at_rest r _ ordered empty
  finish waiting r e (started, empty) ordered = at_rest r _ ordered empty
  finish ready r e settled ordered =
      weaker r (2 * length r.env.queue) _ (omega arith) (drain r.env.queue r e refl ordered)
  finish (running work) r e settled ordered =
      let r1 : Run W = after p t r (ready, r.env.queue, work ∷ []) in
      let rest : Finishes r1 (2 * length r.env.queue) =
        drain r.env.queue r1 (t.phase-moved _ _) refl (ordered ∙ simp append_assoc) in
      weaker r (suc (2 * length r.env.queue)) _ (omega arith) (
        advance-step r r1 (2 * length r.env.queue)
          (bg_step-moved p t r (running work) r.env.queue (ready, r.env.queue, work ∷ []) e refl
            (unfold bg_thread in refl))
          refl rest)

  -- From every state that calls of `Schedule` and the threads can reach, the background thread runs
  -- all that is scheduled without another signal: in at most two steps for each function in the
  -- queue and one for the one at hand. A function that is run is taken to return, in one step.
  pub advance-done :
      {r : Run W}
      → Reach p t r
      → (k : ℕ) × (r' : Run W) × (advance k r ≡ some r')
        × (r'.done ≡ r.scheduled)
        × (k ≤ 2 * length r.env.queue + 1)
  advance-done {r} reach =
      let (ph, e, settled, ordered) = Reach-IsConsistent p t reach in finish ph r e settled ordered
