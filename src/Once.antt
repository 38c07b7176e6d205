-- ===== src/Once.antt =====
-- db/port_posix.cpp (`PthreadCall`, `InitOnce`) and the functions that make one object at their first
-- call: `BytewiseComparator()` of db/Comparator.cpp and `Env::Default()` of db/Env_posix.cpp.
mod Tests
use releveldb.Base.{ℕ, ◌≡◌, refl, ap, List, [], ◌∷◌, Option, none, some, ◌==◌, if◌then◌else◌}
use releveldb.Act.{Act, ◌>>=◌, pure}

-- The two static variables beside such a function: the flag, whose type belongs to the threads
-- library, and the pointer to the object, `none` while it is null.
pub record Statics (O A : Type 0) : Type 0 where
  pub once : O
  pub object : Option A

-- `none` is the abort
unfoldable pub pthread_call : ℕ → Option (Unit {0})
pthread_call result = if result == 0 then some tt else none

-- `new`, whose address is the argument `fresh`
unfoldable pub init_module : {A : Type 0} → A → Option A → Option A
init_module fresh bytewise = some fresh

unfoldable pub init_default_env : {A : Type 0} → A → Option A → Option A
init_default_env fresh default_env = some fresh

module _ {O A : Type 0}
    (pthread_once : O → (Option A → Option A) → Option A → ℕ × O × Option A) where
  unfoldable pub init_once : O → (Option A → Option A) → Act (Option A) O
  unfolding pthread_call
  init_once once initializer object =
      let (result, once', object') = pthread_once once initializer object in
      elim (pthread_call result) [ none ↦ none | some done ↦ some (once', object') ]

  unfoldable pub bytewise_comparator_once : A → Act (Statics O A) (Option A)
  unfolding init_once init_module
  bytewise_comparator_once fresh st = elim (init_once st.once (init_module fresh) st.object) [
    | none ↦ none
    | some (once', bytewise) ↦ some (bytewise, record { once = once'; object = bytewise })
  ]

  -- what pthread_once returns is not looked at
  unfoldable pub default : A → Act (Statics O A) (Option A)
  unfolding init_default_env
  default fresh st =
      let (result, once', default_env) = pthread_once st.once (init_default_env fresh) st.object in
      some (default_env, record { once = once'; object = default_env })

  -- What pthread_once promises: with a flag that is new it calls the function, and later it does not.
  pub record IsOnce (new : O) (Done : O → Type 0) : Type 0 where
    pub first :
        (f : Option A → Option A) (object : Option A)
        → (once' : O) × (pthread_once new f object ≡ (0, once', f object)) × Done once'
    pub later :
        (once : O) (f : Option A → Option A) (object : Option A)
        → Done once
        → (once' : O) × (pthread_once once f object ≡ (0, once', object)) × Done once'

-- one call after the other, each with the address that `new` would give it
pub calls : {S A : Type 0} → (A → Act S (Option A)) → List A → Act S (List (Option A))
calls f [] = pure []
calls f (fresh ∷ more) = do a ← f fresh; rest ← calls f more; pure (a ∷ rest)

-- the same answer for each of the calls
pub answers : {A : Type 0} → A → List A → List (Option A)
answers a [] = []
answers a (fresh ∷ more) = some a ∷ answers a more

module _ {O A : Type 0}
    (pthread_once : O → (Option A → Option A) → Option A → ℕ × O × Option A) where
  init_once_lem :
      (once once' : O) (f : Option A → Option A) (object object' : Option A)
      → pthread_once once f object ≡ (0, once', object')
      → init_once pthread_once once f object ≡ some (once', object')
  unfolding init_once pthread_call
  init_once_lem once once' f object object' e =
      let finish : ℕ × O × Option A → Option (O × Option A) =
        λ r. elim (pthread_call r.0) [ none ↦ none | some done ↦ some (r.1, r.2) ] in
      ap finish e

  bytewise_comparator_once_lem :
      (fresh : A) (once once' : O) (object object' : Option A)
      → pthread_once once (init_module fresh) object ≡ (0, once', object')
      → bytewise_comparator_once pthread_once fresh (record { once = once; object = object })
        ≡ some (object', record { once = once'; object = object' })
  unfolding bytewise_comparator_once
  bytewise_comparator_once_lem fresh once once' object object' e =
      let finish : Option (O × Option A) → Option (Option A × Statics O A) = λ r. elim r [
        | none ↦ none
        | some (made, bytewise) ↦ some (bytewise, record { once = made; object = bytewise })
      ] in
      ap finish (init_once_lem once once' (init_module fresh) object object' e)

  default_lem :
      (fresh : A) (once once' : O) (object object' : Option A)
      → pthread_once once (init_default_env fresh) object ≡ (0, once', object')
      → default pthread_once fresh (record { once = once; object = object })
        ≡ some (object', record { once = once'; object = object' })
  unfolding default
  default_lem fresh once once' object object' e =
      let finish : ℕ × O × Option A → Option (Option A × Statics O A) =
        λ r. some (r.2, record { once = r.1; object = r.2 }) in
      ap finish e

-- A function that makes its object at a call with a new flag, and later returns what is there.
module _ {O A : Type 0} (f : A → Act (Statics O A) (Option A)) (new : O) (Done : O → Type 0)
    (first : (fresh : A)
      → (once' : O) × (f fresh (record { once = new; object = none })
          ≡ some (some fresh, record { once = once'; object = some fresh }))
        × Done once')
    (again : (fresh a : A) (once : O)
      → Done once
      → (once' : O) × (f fresh (record { once = once; object = some a })
          ≡ some (some a, record { once = once'; object = some a }))
        × Done once') where
  later_answers :
      (a : A) (later : List A) (once : O)
      → Done once
      → (once' : O) × (calls f later (record { once = once; object = some a })
          ≡ some (answers a later, record { once = once'; object = some a }))
  unfolding calls answers
  later_answers a [] once done = (once, refl)
  later_answers a (fresh ∷ later) once done =
      let (once', ran, done') = again fresh a once done in
      let (last, more) = later_answers a later once' done' in
      (last, rw (calls, ◌>>=◌, ran, more) refl)

  -- Any number of calls all return the object that the first of them makes.
  same_answers :
      (a : A) (later : List A)
      → (once' : O) × (calls f (a ∷ later) (record { once = new; object = none })
          ≡ some (answers a (a ∷ later), record { once = once'; object = some a }))
  unfolding calls answers
  same_answers a later =
      let (once', ran, done) = first a in
      let (last, more) = later_answers a later once' done in
      (last, rw (calls, ◌>>=◌, ran, more) refl)

module _ {O A : Type 0} (pthread_once : O → (Option A → Option A) → Option A → ℕ × O × Option A)
    (new : O) (Done : O → Type 0) (runs_once : IsOnce pthread_once new Done) where
  -- `BytewiseComparator()` makes one comparator and returns it at every call.
  pub bytewise_comparator_once-answers :
      (a : A) (later : List A)
      → (once' : O) × (calls
            (bytewise_comparator_once pthread_once)
            (a ∷ later)
            (record { once = new; object = none })
          ≡ some (answers a (a ∷ later), record { once = once'; object = some a }))
  unfolding init_module
  bytewise_comparator_once-answers =
      same_answers (bytewise_comparator_once pthread_once) new Done
        (λ fresh.
          let (o, e, done) = runs_once.first (init_module fresh) none in
          (o, bytewise_comparator_once_lem pthread_once fresh new o none (some fresh) e, done))
        (λ fresh a once d.
          let (o, e, done) = runs_once.later once (init_module fresh) (some a) d in
          (o, bytewise_comparator_once_lem pthread_once fresh once o (some a) (some a) e, done))

  -- `Env::Default()` makes one environment and returns it at every call.
  pub default-answers :
      (a : A) (later : List A)
      → (once' : O) × (calls
            (default pthread_once)
            (a ∷ later)
            (record { once = new; object = none })
          ≡ some (answers a (a ∷ later), record { once = once'; object = some a }))
  unfolding init_default_env
  default-answers =
      same_answers (default pthread_once) new Done
        (λ fresh.
          let (o, e, done) = runs_once.first (init_default_env fresh) none in
          (o, default_lem pthread_once fresh new o none (some fresh) e, done))
        (λ fresh a once d.
          let (o, e, done) = runs_once.later once (init_default_env fresh) (some a) d in
          (o, default_lem pthread_once fresh once o (some a) (some a) e, done))
