-- ===== src/Iterator.antt =====
-- db/Iterator.h and db/Iterator.cpp: the clean-up list, and `EmptyIterator`. A clean-up function is
-- known by what stands for its pointer, of any type `F`, and its arguments by theirs.
pub mod Order
mod Tests
use releveldb.Base.{
  ℕ, ◌≡◌, refl, ◌∙◌, ap, append_assoc, List, [], ◌∷◌, ◌++◌, Option, none, some, Bool, false,
}
use releveldb.Slice.{Slice}
use releveldb.Status.{Status, ok_status}

pub record Cleanup (F : Type 0) : Type 0 where
  pub function : F
  pub arg1 : ℕ
  pub arg2 : ℕ

-- `cleanup_`, where `none` is a null function, and the list behind `cleanup_.next`
pub record Iterator (F : Type 0) : Type 0 where
  pub cleanup : Option (Cleanup F)
  pub following : List (Cleanup F)

module _ {F : Type 0} where
  pub new_iterator : Iterator F
  new_iterator = record { cleanup = none; following = [] }

  pub register_cleanup : Iterator F → Cleanup F → Iterator F
  register_cleanup it c = elim it.cleanup [
    | none ↦ record it { cleanup = some c }
    | some _ ↦ record it { following = c ∷ it.following }
  ]

  -- what the destructor calls, in its order
  pub destroy : Iterator F → List (Cleanup F)
  destroy it = elim it.cleanup [ none ↦ [] | some c ↦ c ∷ it.following ]

-- `EmptyIterator`: `none` is its `assert(false)`.
pub record EmptyIterator : Type 0 where
  pub status : Status

pub empty_valid : EmptyIterator → Bool
empty_valid it = false

pub empty_seek : EmptyIterator → Slice → EmptyIterator
empty_seek it key = it

pub empty_next : EmptyIterator → Option EmptyIterator
empty_next it = none

pub empty_key : EmptyIterator → Option Slice
empty_key it = none

pub new_empty_iterator : EmptyIterator
new_empty_iterator = record { status = ok_status }

pub new_error_iterator : Status → EmptyIterator
new_error_iterator status = record { status = status }
