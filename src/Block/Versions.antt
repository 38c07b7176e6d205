-- ===== src/Block/Versions.antt =====
-- Internal keys of db/DBFormat.h as the keys of a block: what `InternalKeyComparator` orders them by.
use releveldb.Base.{
  ℕ, ◌+◌, ◌*◌, ◌^◌, ◌≤◌, ◌≡◌, refl, ap, sym, ◌∙◌, [], Option, none, some, Bool, Ordering, compare,
}
use mathlib.Core.Option.{some-injective}
use releveldb.Slice.{Slice, size}
use releveldb.Comparator.{Comparator}
use releveldb.Comparator.Laws.{IsLawful, Orders}
use releveldb.DbFormat.{
  ParsedInternalKey, append_internal_key, parse_internal_key, extract_user_key, trailer,
  internal_compare, internal_key_comparator, k_max_sequence_number,
}
use releveldb.DbFormat.Encoding.{parse-append_internal_key, parse_internal_key_iff}
use releveldb.DbFormat.Order.{
  then_by, IsKey, append-IsKey, internal_compare-IsKey, internal_compare_trans,
}

-- A key that `AppendInternalKey` makes of a version.
pub record IsVersion (little : Bool) (s : Slice) : Type 0 where
  pub version : ParsedInternalKey
  pub in_range : version.sequence ≤ k_max_sequence_number
  pub typed : version.value_type ≤ 1
  pub made : append_internal_key little [] version ≡ some s

module _ (little : Bool) where
  abbrev pub number : ParsedInternalKey → ℕ
  number x = x.sequence * 2 ^ 8 + x.value_type

  pub IsVersion-IsKey :
      {s : Slice} (v : IsVersion little s) → IsKey little s v.version.user_key (number v.version)
  IsVersion-IsKey {s} v = append-IsKey little little v.version s v.in_range v.typed v.made

  pub IsVersion-parse :
      {s : Slice} (v : IsVersion little s) → parse_internal_key little s ≡ some v.version
  IsVersion-parse {s} v =
      let (enc, made, _, parsed, _, _) =
        parse-append_internal_key little little [] v.version v.in_range v.typed in
      cc (made, parsed, v.made)

  abbrev or_zero : Option ℕ → ℕ
  or_zero none = 0
  or_zero (some n) = n

  abbrev or_nil : Option Slice → Slice
  or_nil none = []
  or_nil (some s) = s

  module _ (ord : Slice → Slice → Ordering) where
    -- user key up, then the number of sequence and type down
    abbrev pub internal_order : Slice → Slice → Ordering
    internal_order s t =
        then_by (ord (or_nil (extract_user_key s)) (or_nil (extract_user_key t)))
          (compare (or_zero (trailer little t)) (or_zero (trailer little s)))

    pub internal_order-IsKey :
        {s t u v : Slice} {n m : ℕ}
        → IsKey little s u n
        → IsKey little t v m
        → internal_order s t ≡ then_by (ord u v) (compare m n)
    internal_order-IsKey ka kb = rw (ka.user, kb.user, ka.number, kb.number) refl

    module _ (c : Comparator) (law : IsLawful c ord) where
      internal_compare-order :
          {s t : Slice}
          → IsVersion little s
          → IsVersion little t
          → internal_compare little c s t ≡ some (internal_order s t)
      internal_compare-order vs vt =
          let ks = IsVersion-IsKey vs in
          let kt = IsVersion-IsKey vt in
          internal_compare-IsKey little c ord law ks kt ∙ ap some (sym (internal_order-IsKey ks kt))

      version_size : {s : Slice} → IsVersion little s → 8 ≤ size s
      version_size v = (parse_internal_key_iff little _).0 (v.version, IsVersion-parse v)

      -- The comparator of internal keys orders versions.
      pub internal-Orders :
          Orders (internal_key_comparator little c) (IsVersion little) internal_order
      unfolding internal_key_comparator
      internal-Orders = record {
        compare_ord = λ a b va vb. internal_compare-order va vb;
        lt_trans = λ a b d va vb vd h k. some-injective _ _ (
            sym (internal_compare-order va vd)
            ∙ internal_compare_trans little c ord law a b d (version_size va) (version_size vb)
                (version_size vd) (internal_compare-order va vb ∙ ap some h)
                (internal_compare-order vb vd ∙ ap some k));
      }
