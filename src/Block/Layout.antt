-- ===== src/Block/Layout.antt =====
-- What a block of db/Block.cpp holds: entries from an offset up to the restart array.
use releveldb.Base.{ℕ, ◌+◌, ◌^◌, ◌≤◌, ◌<◌, ◌≡◌, List, [], ◌∷◌, ◌++◌, length, take}
use releveldb.Slice.{Slice}
use releveldb.Block.Decode.{lengths_bytes}

pub record KeyValue : Type 0 where
  pub key : List ℕ
  pub value : List ℕ

abbrev pub AllKeys : (Slice → Type 0) → List KeyValue → Type 0
AllKeys P [] = Unit
AllKeys P (e ∷ es) = P e.key × AllKeys P es

pub AllKeys-append :
    (P : Slice → Type 0) (pre post : List KeyValue)
    → AllKeys P (pre ++ post)
    → AllKeys P pre × AllKeys P post
AllKeys-append P [] post h = (tt, h)
AllKeys-append P (e ∷ pre) post (k, h) = let (a, b) = AllKeys-append P pre post h in ((k, a), b)

pub map-AllKeys :
    {P Q R : Slice → Type 0} (es : List KeyValue)
    → ((k : Slice) → P k → Q k → R k)
    → AllKeys P es
    → AllKeys Q es
    → AllKeys R es
map-AllKeys [] f p q = tt
map-AllKeys (e ∷ es) f (p, ps) (q, qs) = (f e.key p q, map-AllKeys es f ps qs)

pub join-AllKeys :
    (P : Slice → Type 0) (pre post : List KeyValue)
    → AllKeys P pre
    → AllKeys P post
    → AllKeys P (pre ++ post)
join-AllKeys P [] post a b = b
join-AllKeys P (e ∷ pre) post (k, a) b = (k, join-AllKeys P pre post a b)

-- The entry's bytes stand at the offset, where `before` is the key of the entry before it.
pub record EntryAt (contents : List ℕ) (restarts offset : ℕ) (before : List ℕ) (e : KeyValue)
    : Type 0 where
  pub shared : ℕ
  pub delta : List ℕ
  pub front : List ℕ
  pub back : List ℕ
  pub at : length front ≡ offset
  pub bytes :
      contents
      ≡ front
        ++ (lengths_bytes shared (length delta) (length e.value) ++ (delta ++ (e.value ++ back)))
  pub inside :
      length front
        + (length (lengths_bytes shared (length delta) (length e.value))
            + (length delta + length e.value))
      ≤ restarts
  pub shares : shared ≤ length before
  pub short : shared < 2 ^ 32
  pub spells : e.key ≡ take shared before ++ delta

abbrev pub end_of :
    {contents : List ℕ} {restarts offset : ℕ} {before : List ℕ} {e : KeyValue}
    → EntryAt contents restarts offset before e
    → ℕ
end_of {e = e} entry =
    length entry.front
    + length (lengths_bytes entry.shared (length entry.delta) (length e.value))
    + length entry.delta
    + length e.value

-- the entries from the offset on
abbrev pub Holds : List ℕ → ℕ → ℕ → List ℕ → List KeyValue → Type 0
Holds contents restarts offset before [] = offset ≡ restarts
Holds contents restarts offset before (e ∷ es) =
    (entry : EntryAt contents restarts offset before e) × Holds contents restarts (end_of entry)
      e.key es
