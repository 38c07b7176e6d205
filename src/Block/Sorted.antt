-- ===== src/Block/Sorted.antt =====
-- Blocks of sorted entries with restart points among them.
use releveldb.Base.{ℕ, ◌<◌, ◌≡◌, refl, arith, ap, List, [], ◌∷◌, ◌++◌, some, Bool, true, Ordering}
use releveldb.Slice.{Slice, is_lt}
use releveldb.Comparator.{Comparator}
use releveldb.Comparator.Laws.{Orders}
use releveldb.Block.Iter.{Iter, get_restart_point}
use releveldb.Block.Layout.{KeyValue, AllKeys, AllKeys-append, Holds}
use releveldb.Block.Scan.{IsBelow, AllBelow}

-- A restart point: the entries from its offset on, whose first one shares nothing with those before.
pub record PointAt (little : Bool) (it : Iter) (entries : List KeyValue) (i : ℕ) : Type 0 where
  pub offset : ℕ
  pub point : get_restart_point little it i ≡ some offset
  pub pre : List KeyValue
  pub post : List KeyValue
  pub split : entries ≡ pre ++ post
  pub holds : Holds it.contents it.restarts offset [] post
  pub first : i ≡ 0 → pre ≡ []
  pub inhabited : 0 < i → (e : KeyValue) × (es : List KeyValue) × (post ≡ e ∷ es)

module _ (ord : Slice → Slice → Ordering) where
  abbrev pub AllAbove : KeyValue → List KeyValue → Type 0
  AllAbove e [] = Unit
  AllAbove e (x ∷ xs) = (ord e.key x.key ≡ Ordering.lt) × AllAbove e xs

  abbrev pub IsSorted : List KeyValue → Type 0
  IsSorted [] = Unit
  IsSorted (e ∷ es) = AllAbove e es × IsSorted es

  AllAbove-append :
      (e x : KeyValue) (pre post : List KeyValue)
      → AllAbove e (pre ++ (x ∷ post))
      → ord e.key x.key ≡ Ordering.lt
  AllAbove-append e x [] post h = h.0
  AllAbove-append e x (y ∷ pre) post h = AllAbove-append e x pre post h.1

  pub above-AllKeys :
      (f : KeyValue) (es : List KeyValue)
      → AllAbove f es
      → AllKeys (λ k. ord f.key k ≡ Ordering.lt) es
  above-AllKeys f [] all = tt
  above-AllKeys f (e ∷ es) (a, all) = (a, above-AllKeys f es all)

  pub sorted_behind :
      (pre : List KeyValue) (f : KeyValue) (post : List KeyValue)
      → IsSorted (pre ++ (f ∷ post))
      → AllAbove f post
  sorted_behind [] f post (above, sorted) = above
  sorted_behind (e ∷ pre) f post (above, sorted) = sorted_behind pre f post sorted

  pub below-AllKeys :
      (target : Slice) (es : List KeyValue)
      → AllBelow ord target es
      → AllKeys (λ k. is_lt (ord k target) ≡ true) es
  below-AllKeys target [] all = tt
  below-AllKeys target (e ∷ es) (b, all) = (b, below-AllKeys target es all)

is_lt-lt : (o : Ordering) → is_lt o ≡ true → o ≡ Ordering.lt
is_lt-lt Ordering.lt h = refl
is_lt-lt Ordering.eq h = absurd (ground arith)
is_lt-lt Ordering.gt h = absurd (ground arith)

module _ (comparator : Comparator) (P : Slice → Type 0) (ord : Slice → Slice → Ordering)
    (law : Orders comparator P ord) (target : Slice) (P_target : P target) where
  -- In sorted entries, those before one that is below the target are below it too.
  pub before-AllBelow :
      (pre : List KeyValue) (e : KeyValue) (post : List KeyValue)
      → IsSorted ord (pre ++ (e ∷ post))
      → AllKeys P (pre ++ (e ∷ post))
      → IsBelow ord target e
      → AllBelow ord target pre
  before-AllBelow [] e post sorted keys b = tt
  before-AllBelow (x ∷ pre) e post (above, sorted) (keyed, keys) b =
      let less : ord x.key target ≡ Ordering.lt =
        law.lt_trans x.key e.key target keyed (AllKeys-append P pre (e ∷ post) keys).1.0 P_target
          (AllAbove-append ord x e pre post above) (is_lt-lt (ord e.key target) b) in
      (ap is_lt less, before-AllBelow pre e post sorted keys b)
