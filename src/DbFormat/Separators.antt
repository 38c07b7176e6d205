-- ===== src/DbFormat/Separators.antt =====
-- The shortened internal keys of `FindShortestSeparator` and `FindShortSuccessor`.
use releveldb.Base.{
  ℕ, ◌+◌, ◌-◌, ◌*◌, ◌^◌, ◌≤◌, ◌<◌, ◌≡◌, ◌≢◌, refl, arith, ◌∙◌, Bool, Bool-cases, Ordering, some,
}
use releveldb.Base.{take, ltb, inl, inr, ◌⊎◌, length-take, ltb→lt}
use releveldb.Slice.{Slice, size}
use releveldb.Comparator.{Comparator}
use releveldb.Comparator.Laws.{IsLawful}
use releveldb.DbFormat.{
  internal_compare, internal_separator, internal_successor, pack_sequence_and_type,
  k_max_sequence_number,
}
use releveldb.DbFormat.Encoding.{
  encoded, size-encoded, pack_sequence_and_type_lem, put_fixed64-encoded,
}
use releveldb.DbFormat.Order.{IsKey, encoded-IsKey, long-IsKey, internal_compare-IsKey}

-- the number of `kMaxSequenceNumber` and `kValueTypeForSeek`
abbrev seek_number : ℕ
seek_number = k_max_sequence_number * 2 ^ 8 + 1

pack_seek : pack_sequence_and_type k_max_sequence_number 1 ≡ some seek_number
pack_seek = pack_sequence_and_type_lem k_max_sequence_number 1 (omega arith) (omega arith)

length_user : (s : Slice) → 8 ≤ size s → size (take (size s - 8) s) + 8 ≡ size s
length_user s h = omega (arith, length-take (size s - 8) s)

shorter_and_above :
    (a b : ℕ) (o : Ordering) → ((a < b) × (o ≡ Ordering.lt)) ⊎ ((b ≤ a) ⊎ (o ≢ Ordering.lt))
shorter_and_above a b Ordering.eq = inr (inr (λ h. cc))
shorter_and_above a b Ordering.gt = inr (inr (λ h. cc))
shorter_and_above a b Ordering.lt = elim (Bool-cases (ltb a b)) [
  | inl h ↦ inl (ltb→lt a b h, refl)
  | inr h ↦ inr (inl (ground arith))
]

-- What `r` has to be to separate two keys, and to succeed one.
pub record Separates (little : Bool) (c : Comparator) (start limit r : Slice) : Type 0 where
  pub found : internal_separator little c start limit ≡ some r
  pub above : internal_compare little c start r ≢ some Ordering.gt
  pub below : internal_compare little c r limit ≡ some Ordering.lt
  pub shorter : size r ≤ size start

pub record Succeeds (little : Bool) (c : Comparator) (key r : Slice) : Type 0 where
  pub found : internal_successor little c key ≡ some r
  pub above : internal_compare little c key r ≢ some Ordering.gt
  pub shorter : size r ≤ size key

module _ (little : Bool) (c : Comparator) (ord : Slice → Slice → Ordering)
    (law : IsLawful c ord) where
  seek-IsKey : (tmp : Slice) → IsKey little (encoded little tmp seek_number) tmp seek_number
  seek-IsKey tmp = encoded-IsKey little little tmp seek_number (omega arith)

  size_seek : (tmp : Slice) → size (encoded little tmp seek_number) ≡ size tmp + 8
  size_seek tmp = size-encoded little tmp seek_number (omega arith)

  separator_shortened :
      {start limit u v tmp : Slice} {n m : ℕ}
      → IsKey little start u n
      → IsKey little limit v m
      → size u + 8 ≡ size start
      → c.find_shortest_separator u v ≡ some tmp
      → size tmp < size u
      → ord u tmp ≡ Ordering.lt
      → ord tmp v ≡ Ordering.lt
      → Separates little c start limit (encoded little tmp seek_number)
  unfolding internal_separator
  separator_shortened {start} {limit} {u} {v} {tmp} ks kl hu e short up down =
      let low : internal_compare little c start (encoded little tmp seek_number)
          ≡ some Ordering.lt =
        internal_compare-IsKey little c ord law ks (seek-IsKey tmp) ∙ rw up in
      let high : internal_compare little c (encoded little tmp seek_number) limit
          ≡ some Ordering.lt =
        internal_compare-IsKey little c ord law (seek-IsKey tmp) kl ∙ rw down in
      record {
        found =
            rw (ks.user, kl.user)
              (rw e (
                ground (
                  arith,
                  law.compare_ord u tmp,
                  pack_seek,
                  put_fixed64-encoded little tmp seek_number,
                  low,
                  high,
                )));
        above = λ e. cc;
        below = high;
        shorter = omega (arith, size_seek tmp);
      }

  separator_kept :
      {start limit u v tmp : Slice} {n m : ℕ}
      → IsKey little start u n
      → IsKey little limit v m
      → c.find_shortest_separator u v ≡ some tmp
      → (size u ≤ size tmp) ⊎ (ord u tmp ≢ Ordering.lt)
      → internal_compare little c start limit ≡ some Ordering.lt
      → Separates little c start limit start
  unfolding internal_separator
  separator_kept {start} {limit} {u} {v} {tmp} ks kl e why lt = record {
    found = rw (ks.user, kl.user) (rw e (ground (arith, law.compare_ord u tmp)));
    above = λ e. ground (arith, internal_compare-IsKey little c ord law ks ks, law.ord_refl u);
    below = lt;
    shorter = omega arith;
  }

  -- On internal keys in order, `FindShortestSeparator` fails no assertion and gives a key that is
  -- not below `start`, is below `limit`, and is not longer than `start`.
  pub internal_separator-Separates :
      (start limit : Slice)
      → 8 ≤ size start
      → 8 ≤ size limit
      → internal_compare little c start limit ≡ some Ordering.lt
      → (r : Slice) × Separates little c start limit r
  internal_separator-Separates start limit hs hl lt =
      let (n, ks) = long-IsKey little start hs in
      let (m, kl) = long-IsKey little limit hl in by_order (ord u v) refl ks kl
    where
      u : Slice
      u = take (size start - 8) start

      v : Slice
      v = take (size limit - 8) limit

      by_order :
          (o : Ordering)
          → ord u v ≡ o
          → {n m : ℕ} → IsKey little start u n
          → IsKey little limit v m
          → (r : Slice) × Separates little c start limit r
      by_order Ordering.lt e ks kl =
          let (tmp, sep, up, down) = law.separator u v e in
          elim (shorter_and_above (size tmp) (size u) (ord u tmp)) [
            | inl (short, above) ↦ (
              encoded little tmp seek_number,
              separator_shortened ks kl (length_user start hs) sep short above down,
            )
            | inr why ↦ (start, separator_kept ks kl sep why lt)
          ]
      by_order Ordering.eq e ks kl = (
        start,
        separator_kept ks kl (law.separator_unordered u v (λ h. cc)) (inl (omega arith)) lt,
      )
      by_order Ordering.gt e ks kl =
          absurd (ground (arith, internal_compare-IsKey little c ord law ks kl))

  successor_shortened :
      {key u tmp : Slice} {n : ℕ}
      → IsKey little key u n
      → size u + 8 ≡ size key
      → c.find_short_successor u ≡ some tmp
      → size tmp < size u
      → ord u tmp ≡ Ordering.lt
      → Succeeds little c key (encoded little tmp seek_number)
  unfolding internal_successor
  successor_shortened {key} {u} {tmp} ks hu e short up =
      let low : internal_compare little c key (encoded little tmp seek_number) ≡ some Ordering.lt =
        internal_compare-IsKey little c ord law ks (seek-IsKey tmp) ∙ rw up in
      record {
        found = rw ks.user (
            rw e (
              ground (
                arith,
                law.compare_ord u tmp,
                pack_seek,
                put_fixed64-encoded little tmp seek_number,
                low,
              )));
        above = λ e. cc;
        shorter = omega (arith, size_seek tmp);
      }

  successor_kept :
      {key u tmp : Slice} {n : ℕ}
      → IsKey little key u n
      → c.find_short_successor u ≡ some tmp
      → (size u ≤ size tmp) ⊎ (ord u tmp ≢ Ordering.lt)
      → Succeeds little c key key
  unfolding internal_successor
  successor_kept {key} {u} {tmp} ks e why = record {
    found = rw ks.user (rw e (ground (arith, law.compare_ord u tmp)));
    above = λ e. ground (arith, internal_compare-IsKey little c ord law ks ks, law.ord_refl u);
    shorter = omega arith;
  }

  -- On an internal key `FindShortSuccessor` fails no assertion and gives a key that is not below it
  -- and not longer.
  pub internal_successor-Succeeds :
      (key : Slice) → 8 ≤ size key → (r : Slice) × Succeeds little c key r
  internal_successor-Succeeds key h =
      let (n, k) = long-IsKey little key h in
      let u : Slice = take (size key - 8) key in
      let (tmp, suc', up) = law.successor u in
      elim (shorter_and_above (size tmp) (size u) (ord u tmp)) [
        | inl (short, above) ↦ (
          encoded little tmp seek_number,
          successor_shortened k (length_user key h) suc' short above,
        )
        | inr why ↦ (key, successor_kept k suc' why)
      ]
