-- ===== src/Status/Memory.antt =====
-- The buffers of db/Status.h and db/Status.cpp in memory: `new char[]` gives an address that is not in
-- use, the argument `fresh`, and `delete[]` fails on one that is not.
use releveldb.Base.{
  ℕ, ◌+◌, ◌^◌, ◌≤◌, ◌<◌, ◌≡◌, ◌≢◌, inl, inr, refl, arith, sym, ◌∙◌, List, [], Option, none, some,
  ◌>>=◌, false, ◌==◌, if◌then◌else◌, Bool-cases, subst, ==_iff,
}
use mathlib.Core.Option.{some-injective}
use releveldb.Slice.{Slice, size}
use releveldb.Status.{Status, StatusCode, new_status, copy}
use releveldb.Status.Message.{to_string-new_status}

-- the arrays that were made and not deleted
abbrev pub Memory : Type 0
Memory = ℕ → Option (List ℕ)

-- A `Status` object: where its buffer is, or `none` for a null pointer.
pub record Object : Type 0 where
  pub status : Option ℕ

abbrev stored : Memory → ℕ → List ℕ → Memory
stored mem a buffer q = if q == a then some buffer else mem q

abbrev erased : Memory → ℕ → Memory
erased mem a q = if q == a then none else mem q

-- What an object says: `none` is a read of an array that is gone.
unfoldable pub view : Memory → Object → Option Status
view mem object = elim object.status [
  | none ↦ some (record { status = none })
  | some a ↦ (do buffer ← mem a; some (record { status = some buffer }))
]

-- A status with a buffer is kept in a new array.
unfoldable pub keep : ℕ → Memory → Status → Object × Memory
keep fresh mem s = elim s.status [
  | none ↦ (record { status = none }, mem)
  | some buffer ↦ (record { status = some fresh }, stored mem fresh buffer)
]

pub construct : ℕ → Memory → StatusCode → Slice → Slice → Option (Object × Memory)
unfolding keep
construct fresh mem code msg msg2 = do s ← new_status code msg msg2; some (keep fresh mem s)

-- `status_ = (status.Code() == KOK) ? nullptr : CopyState(...)`: the copy constructor, and all that
-- `operator=` does, whatever the object pointed to before
unfoldable pub copy_object : ℕ → Memory → Object → Option (Object × Memory)
unfolding view keep
copy_object fresh mem source = do s ← view mem source; s' ← copy s; some (keep fresh mem s')

unfoldable pub assign : ℕ → Memory → Object → Object → Option (Object × Memory)
unfolding copy_object
assign fresh mem target source = copy_object fresh mem source

-- the destructor
unfoldable pub destroy : Memory → Object → Option Memory
destroy mem object = elim object.status [
  | none ↦ some mem
  | some a ↦ (do buffer ← mem a; some (erased mem a))
]

abbrev pub at_address : ℕ → Object
at_address a = record { status = some a }

-- The object at `a` was made from a code from 1 to 5 and two messages; `fresh` is not in use.
module _ (fresh a : ℕ) (mem : Memory) (code : StatusCode) (msg msg2 : Slice) (buffer : List ℕ)
    (lo : 1 ≤ code) (hi : code ≤ 5) (short : size msg + size msg2 + 7 < 2 ^ 32)
    (made : new_status code msg msg2 ≡ some (record { status = some buffer }))
    (there : mem a ≡ some buffer) (unused : mem fresh ≡ none) where
  copies : copy (record { status = some buffer }) ≡ some (record { status = some buffer })
  copies =
      let (s, made', _, _, _, same) = to_string-new_status (λ c. []) code msg msg2 lo hi short in
      subst (λ x. copy x ≡ some x) (some-injective _ _ (sym made' ∙ made)) same

  copied : copy_object fresh mem (at_address a) ≡ some (at_address fresh, stored mem fresh buffer)
  unfolding copy_object view keep
  copied = rw (there, ◌>>=◌) (rw (copies, ◌>>=◌) refl)

  a-ne-fresh : (a == fresh) ≡ false
  a-ne-fresh = ground (arith, there, unused)

  -- A copy of a status with a message says the same and has an array of its own: when it is
  -- destroyed, the first one still says what it said, and every array is as it was before.
  pub copy_object-destroy :
      (mem' after : Memory) × (copy_object fresh mem (at_address a) ≡ some (at_address fresh, mem'))
      × (view mem' (at_address fresh) ≡ view mem (at_address a))
      × (view mem' (at_address a) ≡ view mem (at_address a))
      × (destroy mem' (at_address fresh) ≡ some after)
      × ((q : ℕ) → after q ≡ mem q)
  unfolding view destroy
  copy_object-destroy = (
    stored mem fresh buffer,
    erased (stored mem fresh buffer) fresh,
    copied,
    ground (arith, there),
    ground (arith, there, a-ne-fresh),
    ground arith,
    λ q. elim (Bool-cases (q == fresh)) [
      | inl same ↦ let e : q ≡ fresh = (==_iff q fresh).0 same in rw same (sym (rw e unused))
      | inr other ↦ rw other refl
    ],
  )

  -- Assigning a status that was made with a code and a message, to another one that has a buffer
  -- at another address, leaves the other's buffer behind: it is still allocated when both objects
  -- are destroyed.
  pub assign-destroy :
      (b : ℕ) (old : List ℕ)
      → mem b ≡ some old
      → b ≢ a
      → (mem' between after : Memory) × (assign fresh mem (at_address b) (at_address a)
          ≡ some (at_address fresh, mem'))
        × (destroy mem' (at_address fresh) ≡ some between)
        × (destroy between (at_address a) ≡ some after)
        × (after b ≡ some old)
  unfolding assign destroy
  assign-destroy b old there' apart = (
    stored mem fresh buffer,
    erased (stored mem fresh buffer) fresh,
    erased (erased (stored mem fresh buffer) fresh) a,
    copied,
    ground arith,
    ground (arith, there, a-ne-fresh),
    ground (arith, there', unused, apart),
  )
