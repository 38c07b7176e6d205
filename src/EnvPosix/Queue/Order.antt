-- ===== src/EnvPosix/Queue/Order.antt =====
-- The invariant of the queue: what is scheduled is run once, in order, and no wake-up is lost.
use releveldb.Base.{
  List, [], ◌∷◌, ◌++◌, append_assoc, ◌≡◌, refl, sym, subst, ap, ap₂, ◌∙◌, ◌⊎◌, inl, inr, Option,
  none, some, true,
}
use mathlib.Core.Option.{some-injective, none-ne-some}
use releveldb.Env.{Work}
use releveldb.EnvPosix.Sys.{Posix, State}
use releveldb.EnvPosix.Operations.{schedule, new_posix_env}
use releveldb.EnvPosix.Queue.{
  Phase, idle, ready, waiting, running, woken, Threads, bg_thread, Run, after, bg_step, Step,
  schedules, thread, spurious, others, Reach, start, next, in_flight, IsSettled, IsOrdered,
}

module _ {W : Type 0} (p : Posix W) (t : Threads p) where
  -- what a call of `Schedule` does where the thread is at `ph`
  abbrev Scheduled : Phase → State W → Work → Type 0
  Scheduled ph st work =
      (st' : State W) × (schedule p work st ≡ some (tt, st'))
      × (st'.queue ≡ st.queue ++ (work ∷ []))
      × (ph' : Phase) × (t.phase st'.os ≡ ph')
      × (in_flight ph' ≡ in_flight ph)
      × IsSettled ph' st'.started_bgthread st'.queue

  -- the thread is awake
  awake :
      (ph : Phase) (st : State W) (work : Work)
      → ((queue : List Work) → IsSettled ph true queue)
      → t.phase st.os ≡ ph
      → woken ph ≡ ph
      → st.started_bgthread ≡ true
      → Scheduled ph st work
  awake ph st work settled e w started = go st.queue refl
    where
      go : (queue : List Work) → st.queue ≡ queue → Scheduled ph st work
      go [] q = (
        record st { os = p.pthread_cond_signal st.os; queue = st.queue ++ (work ∷ []) },
        unfold schedule in rw (started, q) (rw q refl),
        refl,
        ph,
        t.signalled st.os ∙ ap woken e ∙ w,
        refl,
        rw started (settled _),
      )
      go (front ∷ queue) q = (
        record st { queue = st.queue ++ (work ∷ []) },
        unfold schedule in rw (started, q) (rw q refl),
        refl,
        ph,
        e,
        refl,
        rw started (settled _),
      )

  schedule_lem :
      (ph : Phase) (st : State W) (work : Work)
      → t.phase st.os ≡ ph
      → IsSettled ph st.started_bgthread st.queue
      → Scheduled ph st work
  schedule_lem idle st work e (fresh, empty) = (
    record st {
      os = p.pthread_cond_signal (p.pthread_create (record { function = 0; arg = 0 }) st.os);
      started_bgthread = true;
      queue = st.queue ++ (work ∷ []);
    },
    unfold schedule in rw (fresh, empty) (rw empty refl),
    refl,
    ready,
    t.signalled _ ∙ ap woken (t.created st.os e),
    refl,
    refl,
  )
  schedule_lem ready st work e started = awake ready st work (λ queue. refl) e refl started
  schedule_lem waiting st work e (started, empty) = (
    record st { os = p.pthread_cond_signal st.os; queue = st.queue ++ (work ∷ []) },
    unfold schedule in rw (started, empty) (rw empty refl),
    refl,
    ready,
    t.signalled st.os ∙ ap woken e,
    refl,
    started,
  )
  schedule_lem (running w) st work e started =
      awake (running w) st work (λ queue. refl) e refl started

  abbrev pub IsConsistent : Run W → Type 0
  IsConsistent r =
      (ph : Phase) × (t.phase r.env.os ≡ ph)
      × IsSettled ph r.env.started_bgthread r.env.queue
      × IsOrdered ph r.env.queue r.done r.scheduled

  schedules-IsConsistent :
      (r : Run W) (work : Work) (env' : State W)
      → schedule p work r.env ≡ some (tt, env')
      → IsConsistent r
      → IsConsistent (record { env = env'; done = r.done; scheduled = r.scheduled ++ (work ∷ []) })
  schedules-IsConsistent r work env' ran (ph, e, settled, ordered) =
      let (st', ran', q, ph', e', same, settled') = schedule_lem ph r.env work e settled in
      subst
        (λ env.
          IsConsistent
            (record { env = env; done = r.done; scheduled = r.scheduled ++ (work ∷ []) }))
        (ap (λ x. x.1) (some-injective (tt, st') (tt, env') (sym ran' ∙ ran)))
        (ph', e', settled', longer st'.queue (in_flight ph') q same)
    where
      longer :
          (queue flight : List Work)
          → queue ≡ r.env.queue ++ (work ∷ [])
          → flight ≡ in_flight ph
          → r.scheduled ++ (work ∷ []) ≡ r.done ++ (flight ++ queue)
      longer queue flight q same = rw (ordered, q, same) (simp append_assoc)

  abbrev stepped : Run W → Option (Phase × List Work × List Work) → Option (Run W)
  stepped r none = none
  stepped r (some moved) = some (after p t r moved)

  bg_step-stuck :
      (r : Run W) (ph : Phase) (queue : List Work)
      → t.phase r.env.os ≡ ph
      → r.env.queue ≡ queue
      → bg_thread ph queue ≡ none
      → bg_step p t r ≡ none
  unfolding bg_step
  bg_step-stuck r ph queue e q m = ap (stepped r) (ap₂ bg_thread e q ∙ m)

  -- a step that the thread takes
  pub bg_step-moved :
      (r : Run W) (ph : Phase) (queue : List Work) (moved : Phase × List Work × List Work)
      → t.phase r.env.os ≡ ph
      → r.env.queue ≡ queue
      → bg_thread ph queue ≡ some moved
      → bg_step p t r ≡ some (after p t r moved)
  unfolding bg_step
  bg_step-moved r ph queue moved e q m = ap (stepped r) (ap₂ bg_thread e q ∙ m)

  -- The thread stands still, or takes a step and the invariant holds again.
  abbrev pub Moves : Run W → Phase → List Work → Type 0
  Moves r ph queue =
      (bg_thread ph queue ≡ none)
      ⊎ ((moved : Phase × List Work × List Work) × (bg_thread ph queue ≡ some moved)
          × IsConsistent (after p t r moved))

  pub moves :
      (r : Run W) (ph : Phase) (queue : List Work)
      → t.phase r.env.os ≡ ph
      → r.env.queue ≡ queue
      → IsSettled ph r.env.started_bgthread queue
      → IsOrdered ph queue r.done r.scheduled
      → Moves r ph queue
  unfolding bg_thread
  moves r idle queue e q settled ordered = inl refl
  moves r waiting queue e q settled ordered = inl refl
  moves r ready [] e q settled ordered = inr (
    (waiting, [], []),
    refl,
    (waiting, t.phase-moved _ _, (settled, refl), ordered ∙ simp append_assoc),
  )
  moves r ready (front ∷ queue) e q settled ordered = inr (
    (running front, queue, []),
    refl,
    (running front, t.phase-moved _ _, settled, ordered ∙ simp append_assoc),
  )
  moves r (running work) queue e q settled ordered = inr (
    (ready, queue, work ∷ []),
    refl,
    (ready, t.phase-moved _ _, settled, ordered ∙ simp append_assoc),
  )

  thread-IsConsistent : (r r' : Run W) → bg_step p t r ≡ some r' → IsConsistent r → IsConsistent r'
  thread-IsConsistent r r' ran (ph, e, settled, ordered) =
      elim (moves r ph r.env.queue e refl settled ordered) [
        | inl stuck ↦
            absurd (none-ne-some r' (sym (bg_step-stuck r ph r.env.queue e refl stuck) ∙ ran))
        | inr (moved, m, consistent) ↦
            subst IsConsistent
              (some-injective (after p t r moved) r'
                (sym (bg_step-moved r ph r.env.queue moved e refl m) ∙ ran))
              consistent
      ]

  Step-IsConsistent : {r r' : Run W} → Step p t r r' → IsConsistent r → IsConsistent r'
  Step-IsConsistent (schedules r work env' ran) c = schedules-IsConsistent r work env' ran c
  Step-IsConsistent (thread r r' ran) c = thread-IsConsistent r r' ran c
  Step-IsConsistent (spurious r e) (ph, e', settled, ordered) =
      let ((started, empty), in_order) : IsSettled waiting r.env.started_bgthread r.env.queue
          × IsOrdered waiting r.env.queue r.done r.scheduled =
        subst
          (λ x.
            IsSettled x r.env.started_bgthread r.env.queue
            × IsOrdered x r.env.queue r.done r.scheduled)
          (sym e' ∙ e) (settled, ordered) in
      (ready, t.phase-moved ready r.env.os, started, in_order)
  Step-IsConsistent (others r env' same q started) (ph, e, settled, ordered) =
      (ph, same ∙ e, rw (q, started) settled, rw q ordered)

  -- However calls of `Schedule`, steps of the background thread, wake-ups and other operations of
  -- the environment follow each other, what was scheduled is what was run, then what the thread has
  -- in hand, then the queue, in this order and each once. A thread that is not started or waits has
  -- an empty queue.
  pub Reach-IsConsistent :
      {r : Run W}
      → Reach p t r
      → (ph : Phase) × (t.phase r.env.os ≡ ph)
        × IsSettled ph r.env.started_bgthread r.env.queue
        × IsOrdered ph r.env.queue r.done r.scheduled
  unfolding new_posix_env
  Reach-IsConsistent (start os e) = (idle, e, (refl, refl), refl)
  Reach-IsConsistent (next reach step) = Step-IsConsistent step (Reach-IsConsistent reach)
