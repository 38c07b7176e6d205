-- ===== src/DbFormat/Order.antt =====
-- The order of internal keys: user key up, then sequence number down, then type down.
use releveldb.Base.{
  ℕ, ◌+◌, ◌-◌, ◌*◌, ◌^◌, ◌≤◌, ◌<◌, ◌≡◌, arith, ap, ◌∙◌, subst, Bool, Ordering, some, compare, [],
}
use releveldb.Base.{take}
use releveldb.Slice.{Slice, size}
use releveldb.Slice.Order.{flip}
use releveldb.Comparator.{Comparator}
use releveldb.Comparator.Laws.{IsLawful}
use releveldb.DbFormat.{
  ParsedInternalKey, internal_compare, extract_user_key, trailer, append_internal_key,
  k_max_sequence_number,
}
use releveldb.DbFormat.Encoding.{
  encoded, extract_user_key-encoded, trailer-encoded, long_trailer, append_internal_key-encoded,
}

abbrev pub then_by : Ordering → Ordering → Ordering
then_by Ordering.eq o = o
then_by Ordering.lt o = Ordering.lt
then_by Ordering.gt o = Ordering.gt

-- A slice that is long enough to be an internal key, with its two parts.
pub record IsKey (little : Bool) (s u : Slice) (n : ℕ) : Type 0 where
  pub user : extract_user_key s ≡ some u
  pub number : trailer little s ≡ some n

pub encoded-IsKey :
    (writer little : Bool) (u : Slice) (n : ℕ) → n < 2 ^ 64 → IsKey little (encoded writer u n) u n
encoded-IsKey writer little u n h = record {
  user = extract_user_key-encoded writer u n h;
  number = trailer-encoded writer u n h little;
}

pub long-IsKey :
    (little : Bool) (s : Slice) → 8 ≤ size s → (n : ℕ) × IsKey little s (take (size s - 8) s) n
long-IsKey little s h =
    let (n, e) = long_trailer little s h in
    (n, record { user = unfold extract_user_key in ground arith; number = e })

pub append-IsKey :
    (writer little : Bool) (x : ParsedInternalKey) (a : Slice)
    → x.sequence ≤ k_max_sequence_number
    → x.value_type ≤ 1
    → append_internal_key writer [] x ≡ some a
    → IsKey little a x.user_key (x.sequence * 2 ^ 8 + x.value_type)
append-IsKey writer little x a hs ht e =
    let n : ℕ = x.sequence * 2 ^ 8 + x.value_type in
    let same : encoded writer x.user_key n ≡ a =
      cc (append_internal_key-encoded writer [] x hs ht) in
    subst (λ s. IsKey little s x.user_key n) same
      (encoded-IsKey writer little x.user_key n (omega arith))

module _ (little : Bool) (c : Comparator) (ord : Slice → Slice → Ordering)
    (law : IsLawful c ord) where
  pub internal_compare-IsKey :
      {a b u v : Slice} {n m : ℕ}
      → IsKey little a u n
      → IsKey little b v m
      → internal_compare little c a b ≡ some (then_by (ord u v) (compare m n))
  unfolding internal_compare
  internal_compare-IsKey {u} {v} ka kb =
      rw (ka.user, kb.user) (rw (law.compare_ord u v) (ground (arith, ka.number, kb.number)))

  -- Two encoded keys compare by increasing user key, then decreasing sequence number, then
  -- decreasing type.
  pub internal_compare-append :
      (x y : ParsedInternalKey) (a b : Slice)
      → x.sequence ≤ k_max_sequence_number
      → x.value_type ≤ 1
      → y.sequence ≤ k_max_sequence_number
      → y.value_type ≤ 1
      → append_internal_key little [] x ≡ some a
      → append_internal_key little [] y ≡ some b
      → internal_compare little c a b
        ≡ some (
            then_by
              (ord x.user_key y.user_key)
              (then_by (compare y.sequence x.sequence) (compare y.value_type x.value_type)))
  internal_compare-append x y a b hs ht hs' ht' ea eb =
      internal_compare-IsKey (append-IsKey little little x a hs ht ea)
        (append-IsKey little little y b hs' ht' eb)
      ∙ ap (λ o. some (then_by (ord x.user_key y.user_key) o)) (ground arith)

  -- The comparator of internal keys answers on all slices of eight bytes or more, and the
  -- exchanged arguments give the opposite sign.
  pub internal_compare-flip :
      (a b : Slice)
      → 8 ≤ size a
      → 8 ≤ size b
      → (o : Ordering) × (internal_compare little c a b ≡ some o)
        × (internal_compare little c b a ≡ some (flip o))
  internal_compare-flip a b ha hb =
      let (n, ka) = long-IsKey little a ha in
      let (m, kb) = long-IsKey little b hb in
      let u : Slice = take (size a - 8) a in
      let v : Slice = take (size b - 8) b in
      (
        then_by (ord u v) (compare m n),
        internal_compare-IsKey ka kb,
        internal_compare-IsKey kb ka ∙ ground (arith, law.ord_flip u v),
      )

  -- "Less" on internal keys is transitive.
  pub internal_compare_trans :
      (a b d : Slice)
      → 8 ≤ size a
      → 8 ≤ size b
      → 8 ≤ size d
      → internal_compare little c a b ≡ some Ordering.lt
      → internal_compare little c b d ≡ some Ordering.lt
      → internal_compare little c a d ≡ some Ordering.lt
  internal_compare_trans a b d ha hb hd h k =
      let (n, ka) = long-IsKey little a ha in
      let (m, kb) = long-IsKey little b hb in
      let (l, kd) = long-IsKey little d hd in
      let u : Slice = take (size a - 8) a in
      let v : Slice = take (size b - 8) b in
      let w : Slice = take (size d - 8) d in
      internal_compare-IsKey ka kd
      ∙ ground (
        arith,
        internal_compare-IsKey ka kb,
        internal_compare-IsKey kb kd,
        law.lt_trans u v w,
        law.eq_left u v w,
        law.ord_flip v w,
        law.ord_flip u w,
        law.ord_flip u v,
        law.eq_left w v u,
      )
