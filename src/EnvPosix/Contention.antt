-- ===== src/EnvPosix/Contention.antt =====
-- `MmapLimiter` of db/Env_posix.cpp under any number of threads: every access to `allowed_` and to the
-- mutex is a step.
use releveldb.Base.{
  ℕ, ◌+◌, ◌-◌, ◌≡◌, ◌≢◌, ◌⊎◌, inl, inr, refl, arith, ap, sym, subst, ◌∙◌, Option, none, some, ◌==◌,
  ==_iff, if◌then◌else◌, Bool-cases, Option-cases,
}
use mathlib.Core.Option.{some-injective, none-ne-some}

-- Where a thread is: in neither function; in `Acquire` behind its first test, with the mutex, or with
-- the mutex and the number that it read; in `Release` likewise; or before it gives the mutex back.
pub data Phase : Type 0 where
  outside : Phase
  tested : Phase
  acquiring : Phase
  acquiring_with : ℕ → Phase
  releasing : Phase
  releasing_with : ℕ → Phase
  leaving : Phase

pub data Call : Type 0 where
  acquire_call : Call
  release_call : Call

-- `allowed_` and the holder of `mu_`, with how often `Acquire` has stored and `Release` has.
pub record Limit : Type 0 where
  pub allowed : ℕ
  pub owner : Option ℕ
  pub phase : ℕ → Phase
  pub acquired : ℕ
  pub released : ℕ

abbrev moved : Limit → ℕ → Phase → Limit
moved s t ph = record s { phase = λ u. if u == t then ph else s.phase u }

-- `mu_->lock()`, which waits while another thread has the mutex
abbrev locked_when : Limit → ℕ → Phase → Option ℕ → Option Limit
locked_when s t ph none = some (moved (record s { owner = some t }) t ph)
locked_when s t ph (some u) = none

abbrev locked : Limit → ℕ → Phase → Option Limit
locked s t ph = locked_when s t ph s.owner

-- A step of the thread `t`, which makes this call if it is in none; `none` is a wait.
unfoldable pub thread_step : Limit → ℕ → Call → Phase → Option Limit
thread_step s t acquire_call outside = if s.allowed == 0 then some s else some (moved s t tested)
thread_step s t release_call outside = locked s t releasing
thread_step s t call tested = locked s t acquiring
thread_step s t call acquiring = some (moved s t (acquiring_with s.allowed))
thread_step s t call (acquiring_with x) =
    if x == 0
    then some (moved s t leaving)
    else some (moved (record s { allowed = x - 1; acquired = s.acquired + 1 }) t leaving)
thread_step s t call releasing = some (moved s t (releasing_with s.allowed))
thread_step s t call (releasing_with x) =
    some (moved (record s { allowed = x + 1; released = s.released + 1 }) t leaving)
thread_step s t call leaving = some (moved (record s { owner = none }) t outside)

pub data Reach : Limit → Type 0 where
  start :
      Reach
        (record { allowed = 1000; owner = none; phase = λ t. outside; acquired = 0; released = 0 })
  next :
      {s : Limit} (s' : Limit) (t : ℕ) (call : Call)
      → Reach s
      → thread_step s t call (s.phase t) ≡ some s'
      → Reach s'

-- A thread that has the mutex is its owner, and the number that it read is still there.
abbrev Owns : Limit → ℕ → Phase → Type 0
Owns s t outside = Unit
Owns s t tested = Unit
Owns s t acquiring = s.owner ≡ some t
Owns s t (acquiring_with x) = (s.owner ≡ some t) × (x ≡ s.allowed)
Owns s t releasing = s.owner ≡ some t
Owns s t (releasing_with x) = (s.owner ≡ some t) × (x ≡ s.allowed)
Owns s t leaving = s.owner ≡ some t

record IsExact (s : Limit) : Type 0 where
  count : s.allowed + s.acquired ≡ 1000 + s.released
  owns : (t : ℕ) → Owns s t (s.phase t)

-- the claim to the mutex alone
abbrev Claims : Limit → ℕ → Phase → Type 0
Claims s t ph = (Owns s t ph → s.owner ≡ some t) ⊎ ((s' : Limit) → Owns s' t ph)

claims : (s : Limit) (t : ℕ) (ph : Phase) → Claims s t ph
claims s t outside = inr (λ s'. tt)
claims s t tested = inr (λ s'. tt)
claims s t acquiring = inl (λ o. o)
claims s t (acquiring_with x) = inl (λ o. o.0)
claims s t releasing = inl (λ o. o)
claims s t (releasing_with x) = inl (λ o. o.0)
claims s t leaving = inl (λ o. o)

-- A thread other than one that has the mutex, or takes it, has no claim.
apart : (s s' : Limit) (u : ℕ) → (s.owner ≢ some u) → Owns s u (s.phase u) → Owns s' u (s.phase u)
apart s s' u other owns = elim (claims s u (s.phase u)) [
  | inl claim ↦ absurd (other (claim owns))
  | inr free ↦ free s'
]

-- A thread keeps its claim while the mutex and the number stay.
Owns-kept :
    (s s' : Limit) (u : ℕ) (ph : Phase)
    → s'.owner ≡ s.owner
    → s'.allowed ≡ s.allowed
    → Owns s u ph
    → Owns s' u ph
Owns-kept s s' u outside o a owns = tt
Owns-kept s s' u tested o a owns = tt
Owns-kept s s' u acquiring o a owns = o ∙ owns
Owns-kept s s' u (acquiring_with x) o a owns = (o ∙ owns.0, owns.1 ∙ sym a)
Owns-kept s s' u releasing o a owns = o ∙ owns
Owns-kept s s' u (releasing_with x) o a owns = (o ∙ owns.0, owns.1 ∙ sym a)
Owns-kept s s' u leaving o a owns = o ∙ owns

moved-IsExact :
    (s : Limit) (t : ℕ) (ph : Phase)
    → s.allowed + s.acquired ≡ 1000 + s.released
    → Owns (moved s t ph) t ph
    → ((u : ℕ) → u ≢ t → Owns s u (s.phase u))
    → IsExact (moved s t ph)
moved-IsExact s t ph count own others = record {
  count = count;
  owns = λ u. elim (Bool-cases (u == t)) [
    | inl same ↦ let e : u ≡ t = (==_iff u t).0 same in rw (same, e) own
    | inr other ↦ rw other (
        Owns-kept s (moved s t ph) u (s.phase u) refl refl
          (others u (λ e. ground (arith, e, other))))
  ];
}

module _ (s : Limit) (t : ℕ) (exact : IsExact s) where
  -- the thread has the mutex
  held_by : s.owner ≡ some t → (s' : Limit) (u : ℕ) → u ≢ t → Owns s' u (s.phase u)
  held_by mine s' u other =
      apart s s' u (λ e. other (some-injective _ _ (sym e ∙ mine))) (exact.owns u)

  -- nobody has it
  free : s.owner ≡ none → (s' : Limit) (u : ℕ) → Owns s' u (s.phase u)
  free nobody s' u = apart s s' u (λ e. none-ne-some u (sym nobody ∙ e)) (exact.owns u)

  locked-IsExact :
      (ph : Phase) (s' : Limit)
      → ((s' : Limit) → s'.owner ≡ some t → Owns s' t ph)
      → locked s t ph ≡ some s'
      → IsExact s'
  locked-IsExact ph s' takes e = elim (Option-cases s.owner) [
    | inl nobody ↦ subst IsExact (some-injective _ _ (sym (ap (locked_when s t ph) nobody) ∙ e)) (
        moved-IsExact (record s { owner = some t }) t ph exact.count
          (takes (moved (record s { owner = some t }) t ph) refl)
          (λ u other. free nobody (record s { owner = some t }) u))
    | inr (u, theirs) ↦ absurd (none-ne-some s' (sym (ap (locked_when s t ph) theirs) ∙ e))
  ]

  thread_step-IsExact :
      (call : Call) (ph : Phase) (s' : Limit)
      → s.phase t ≡ ph
      → thread_step s t call ph ≡ some s'
      → IsExact s'
  unfolding thread_step
  thread_step-IsExact acquire_call outside s' at e = elim (Bool-cases (s.allowed == 0)) [
    | inl empty ↦ subst IsExact (some-injective _ _ (rw empty at e)) exact
    | inr some_left ↦
        subst IsExact (some-injective _ _ (rw some_left at e))
          (moved-IsExact s t tested exact.count tt (λ u other. exact.owns u))
  ]
  thread_step-IsExact release_call outside s' at e = locked-IsExact releasing s' (λ s' o. o) e
  thread_step-IsExact call tested s' at e = locked-IsExact acquiring s' (λ s' o. o) e
  thread_step-IsExact call acquiring s' at e =
      let mine : s.owner ≡ some t = rw at at (exact.owns t) in
      subst IsExact (some-injective _ _ e) (
        moved-IsExact s t (acquiring_with s.allowed) exact.count (mine, refl)
          (λ u other. held_by mine s u other))
  thread_step-IsExact call (acquiring_with x) s' at e =
      let mine : (s.owner ≡ some t) × (x ≡ s.allowed) = rw at at (exact.owns t) in
      elim (Bool-cases (x == 0)) [
        | inl empty ↦
            subst IsExact (some-injective _ _ (rw empty at e))
              (moved-IsExact s t leaving exact.count mine.0 (λ u other. held_by mine.0 s u other))
        | inr some_left ↦ subst IsExact (some-injective _ _ (rw some_left at e)) (
            moved-IsExact (record s { allowed = x - 1; acquired = s.acquired + 1 }) t leaving
              (ground (arith, exact.count, mine.1, some_left)) mine.0
              (λ u other.
                held_by mine.0 (record s { allowed = x - 1; acquired = s.acquired + 1 }) u other))
      ]
  thread_step-IsExact call releasing s' at e =
      let mine : s.owner ≡ some t = rw at at (exact.owns t) in
      subst IsExact (some-injective _ _ e) (
        moved-IsExact s t (releasing_with s.allowed) exact.count (mine, refl)
          (λ u other. held_by mine s u other))
  thread_step-IsExact call (releasing_with x) s' at e =
      let mine : (s.owner ≡ some t) × (x ≡ s.allowed) = rw at at (exact.owns t) in
      subst IsExact (some-injective _ _ e) (
        moved-IsExact (record s { allowed = x + 1; released = s.released + 1 }) t leaving
          (omega (arith, exact.count, mine.1)) mine.0
          (λ u other.
            held_by mine.0 (record s { allowed = x + 1; released = s.released + 1 }) u other))
  thread_step-IsExact call leaving s' at e =
      let mine : s.owner ≡ some t = rw at at (exact.owns t) in
      subst IsExact (some-injective _ _ e) (
        moved-IsExact (record s { owner = none }) t outside exact.count tt
          (λ u other. held_by mine (record s { owner = none }) u other))

-- Whatever the order of the steps of any number of threads in `Acquire` and `Release`, `allowed_`
-- is 1000 and the finished releases less the granted acquisitions: no update is lost, and never
-- more than 1000 are granted beside those that were given back.
pub Reach-count : (s : Limit) → Reach s → s.allowed + s.acquired ≡ 1000 + s.released
Reach-count s reach = (exact s reach).count
  where
    exact : (s : Limit) → Reach s → IsExact s
    exact _ start = record { count = refl; owns = λ t. tt }
    exact _ (next s' t call reach e) = thread_step-IsExact _ t (exact _ reach) call _ s' refl e
