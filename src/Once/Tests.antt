-- ===== src/Once/Tests.antt =====
-- Runs of the functions that make one object.
use releveldb.Base.{ℕ, ◌≡◌, refl, [], ◌∷◌, Option, none, some, Bool, true, false}
use releveldb.Once.{
  Statics, pthread_call, init_module, init_once, init_default_env, bytewise_comparator_once,
  default, IsOnce, calls,
}

-- a flag that says whether the function was called
abbrev run_once : Bool → (Option ℕ → Option ℕ) → Option ℕ → ℕ × Bool × Option ℕ
run_once false f object = (0, true, f object)
run_once true f object = (0, true, object)

abbrev IsDone : Bool → Type 0
IsDone once = once ≡ true

run_once-IsOnce : IsOnce run_once false IsDone
run_once-IsOnce = record {
  first = λ f object. (true, refl, refl);
  later = λ once f object done. (true, rw done refl, refl);
}

abbrev fresh_statics : Statics Bool ℕ
fresh_statics = record { once = false; object = none }

abbrev made_statics : Statics Bool ℕ
made_statics = record { once = true; object = some 16 }

one_comparator :
    calls (bytewise_comparator_once run_once) (16 ∷ 32 ∷ 48 ∷ []) fresh_statics
    ≡ some (some 16 ∷ some 16 ∷ some 16 ∷ [], made_statics)
unfolding calls bytewise_comparator_once init_once init_module pthread_call
one_comparator = refl

one_environment :
    calls (default run_once) (16 ∷ 32 ∷ []) fresh_statics
    ≡ some (some 16 ∷ some 16 ∷ [], made_statics)
unfolding calls default init_default_env
one_environment = refl

-- an error of the threads library aborts in InitOnce, and goes unseen in Env::Default
refuse_once : Bool → (Option ℕ → Option ℕ) → Option ℕ → ℕ × Bool × Option ℕ
refuse_once once f object = (22, once, object)

comparator_aborts : bytewise_comparator_once refuse_once 16 fresh_statics ≡ none
unfolding bytewise_comparator_once init_once init_module pthread_call refuse_once
comparator_aborts = refl

null_environment : default refuse_once 16 fresh_statics ≡ some (none, fresh_statics)
unfolding default init_default_env refuse_once
null_environment = refl
