-- ===== src/Act.antt =====
-- Steps on a state that may fail: the shape of the models of code that works on the outside world.
-- `none` is a fault, such as a call through a null pointer.
use releveldb.Base.{Option, none, some, ◌≡◌}

abbrev pub Act : Type 0 → Type 0 → Type 0
Act W A = W → Option (A × W)

infixl 5 ◌>>=◌ ◌>>◌
abbrev pub ◌>>=◌ : {W A B : Type 0} → Act W A → (A → Act W B) → Act W B
◌>>=◌ m f w = elim (m w) [ none ↦ none | some (a, w') ↦ f a w' ]

abbrev pub ◌>>◌ : {W A B : Type 0} → Act W A → Act W B → Act W B
m >> k = m >>= λ _. k

abbrev pub pure : {W A : Type 0} → A → Act W A
pure a w = some (a, w)

-- a step that does not touch the state
abbrev pub lift : {W A : Type 0} → Option A → Act W A
lift none w = none
lift (some a) w = some (a, w)

-- One step of a chain, where its result is known.
pub then_step :
    {W A B : Type 0} (m : Act W A) (f : A → Act W B) (w w' : W) (a : A)
    → m w ≡ some (a, w')
    → (m >>= f) w ≡ f a w'
then_step m f w w' a e = rw (e, ◌>>=◌)
