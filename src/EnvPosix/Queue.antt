-- ===== src/EnvPosix/Queue.antt =====
-- `Schedule` and `BGThread` of `PosixEnv`: the queue between the threads that schedule and the one
-- that runs.
pub mod Order
pub mod Progress
use releveldb.Base.{
  ℕ, List, [], ◌∷◌, ◌++◌, append-nil, append_assoc, ◌≡◌, refl, sym, ap, ◌∙◌, ◌⊎◌, inl, inr, Option,
  none, some, Bool, true, false, if◌then◌else◌, Bool-cases, arith,
}
use releveldb.Act.{Act, ◌>>=◌, ◌>>◌}
use releveldb.Env.{Work}
use releveldb.EnvPosix.Sys.{Posix, State}
use releveldb.EnvPosix.Operations.{schedule, new_posix_env}

-- Where the background thread is: not started, before its test of the queue, in `pthread_cond_wait`,
-- or at a function of the queue with the lock released.
pub data Phase : Type 0 where
  idle : Phase
  ready : Phase
  waiting : Phase
  running : Work → Phase

-- a signal, or a wake-up without one
abbrev pub woken : Phase → Phase
woken idle = idle
woken ready = ready
woken waiting = ready
woken (running work) = running work

-- The threads library, as far as it is about the background thread: a created thread starts, and a
-- signal wakes it if it waits. `moved` is the thread's own step to another phase.
pub record Threads {W : Type 0} (p : Posix W) : Type 0 where
  pub phase : W → Phase
  pub moved : Phase → W → W
  pub phase-moved : (ph : Phase) (w : W) → phase (moved ph w) ≡ ph
  pub created :
      (w : W)
      → phase w ≡ idle
      → phase (p.pthread_create (record { function = 0; arg = 0 }) w) ≡ ready
  pub signalled : (w : W) → phase (p.pthread_cond_signal w) ≡ woken (phase w)

-- `BGThread` up to the next place where it leaves the lock or comes back to it: where it then is,
-- what is left of the queue and what was run. `none` is a thread that cannot go on by itself. A function
-- of the queue that is run is taken to return; its run is the one step from `running`.
unfoldable pub bg_thread : Phase → List Work → Option (Phase × List Work × List Work)
bg_thread idle queue = none
bg_thread waiting queue = none
bg_thread ready [] = some (waiting, [], [])
bg_thread ready (front ∷ queue) = some (running front, queue, [])
bg_thread (running work) queue = some (ready, queue, work ∷ [])

-- The environment, with what was run and what was scheduled so far.
pub record Run (W : Type 0) : Type 0 where
  pub env : State W
  pub done : List Work
  pub scheduled : List Work

module _ {W : Type 0} (p : Posix W) (t : Threads p) where
  abbrev pub after : Run W → Phase × List Work × List Work → Run W
  after r (ph, queue, ran) = record {
    env = record r.env { os = t.moved ph r.env.os; queue = queue };
    done = r.done ++ ran;
    scheduled = r.scheduled;
  }

  unfoldable pub bg_step : Run W → Option (Run W)
  unfolding bg_thread
  bg_step r = elim (bg_thread (t.phase r.env.os) r.env.queue) [
    | none ↦ none
    | some moved ↦ some (after r moved)
  ]

  -- A call of `Schedule`, a step of the background thread, a wake-up without a signal, and whatever
  -- leaves the queue and its thread alone.
  pub data Step : Run W → Run W → Type 0 where
    schedules :
        (r : Run W) (work : Work) (env' : State W)
        → schedule p work r.env ≡ some (tt, env')
        → Step r (record { env = env'; done = r.done; scheduled = r.scheduled ++ (work ∷ []) })
    thread : (r r' : Run W) → bg_step r ≡ some r' → Step r r'
    spurious :
        (r : Run W)
        → t.phase r.env.os ≡ waiting
        → Step r (record r { env = record r.env { os = t.moved ready r.env.os } })
    others :
        (r : Run W) (env' : State W)
        → t.phase env'.os ≡ t.phase r.env.os
        → env'.queue ≡ r.env.queue
        → env'.started_bgthread ≡ r.env.started_bgthread
        → Step r (record r { env = env' })

  pub data Reach : Run W → Type 0 where
    start :
        (os : W)
        → t.phase os ≡ idle
        → Reach (record { env = new_posix_env os; done = []; scheduled = [] })
    next : {r r' : Run W} → Reach r → Step r r' → Reach r'

-- what the thread has taken from the queue and not run yet
abbrev pub in_flight : Phase → List Work
in_flight idle = []
in_flight ready = []
in_flight waiting = []
in_flight (running work) = work ∷ []

-- A thread that is not started or waits has nothing to do, and `started_bgthread_` tells which it is.
abbrev pub IsSettled : Phase → Bool → List Work → Type 0
IsSettled idle started queue = (started ≡ false) × (queue ≡ [])
IsSettled ready started queue = started ≡ true
IsSettled waiting started queue = (started ≡ true) × (queue ≡ [])
IsSettled (running work) started queue = started ≡ true

abbrev pub IsOrdered : Phase → List Work → List Work → List Work → Type 0
IsOrdered ph queue done scheduled = scheduled ≡ done ++ (in_flight ph ++ queue)
