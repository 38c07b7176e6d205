-- ===== src/Block/Scan.antt =====
-- The linear search of `Block::Iter::Seek`.
use releveldb.Base.{
  ℕ, zero, suc, ◌<◌, ◌≡◌, ◌⊎◌, inl, inr, refl, arith, ap, sym, subst, ◌∙◌, List, [], ◌∷◌, ◌++◌,
  some, Bool, true, false, leb, Bool-cases, length, Ordering,
}
use releveldb.Slice.{Slice, is_lt}
use releveldb.Comparator.{Comparator}
use releveldb.Comparator.Laws.{Orders}
use releveldb.Block.Iter.{
  Iter, next_entry_offset, parse_next_key, scan_loop, valid, key_of, value_of,
}
use releveldb.Block.Parse.{HasEntry, HasRestarts, parse_next_key-step}
use releveldb.Block.Layout.{KeyValue, AllKeys, end_of, Holds}

module _ (ord : Slice → Slice → Ordering) (target : Slice) where
  abbrev pub IsBelow : KeyValue → Type 0
  IsBelow e = is_lt (ord e.key target) ≡ true

  abbrev pub AllBelow : List KeyValue → Type 0
  AllBelow [] = Unit
  AllBelow (e ∷ es) = IsBelow e × AllBelow es

  -- The iterator stands at the first entry that is not below the target, or behind the last one.
  abbrev pub IsFirst : List KeyValue → Iter → Type 0
  IsFirst es it =
      ((valid it ≡ false) × AllBelow es)
      ⊎ ((pre : List KeyValue) × (e : KeyValue) × (post : List KeyValue) × (es ≡ pre ++ (e ∷ post))
          × AllBelow pre
          × (is_lt (ord e.key target) ≡ false)
          × (key_of it ≡ some e.key)
          × (value_of it ≡ some e.value))

  pub IsFirst-cons :
      (e : KeyValue) (es : List KeyValue) (it : Iter)
      → IsBelow e
      → IsFirst es it
      → IsFirst (e ∷ es) it
  IsFirst-cons e es it b (inl (v, all)) = inl (v, (b, all))
  IsFirst-cons e es it b (inr (pre, x, post, same, all, not_below, key, value)) =
      inr (e ∷ pre, x, post, ap (◌∷◌ e) same, (b, all), not_below, key, value)

Holds-moved :
    (contents contents' : List ℕ) (restarts restarts' offset : ℕ) (key key' : List ℕ)
    (es : List KeyValue)
    → contents ≡ contents'
    → restarts ≡ restarts'
    → key ≡ key'
    → Holds contents' restarts' offset key' es
    → Holds contents restarts offset key es
Holds-moved contents contents' restarts restarts' offset key key' es c r k holds =
    rw (c, r, k) holds

module _ (little : Bool) (comparator : Comparator) (P : Slice → Type 0)
    (ord : Slice → Slice → Ordering) (law : Orders comparator P ord) (target : Slice)
    (P_target : P target) where
  -- a round that goes on
  scan_on :
      (fuel : ℕ) (it it' : Iter)
      → P it'.key
      → parse_next_key little it ≡ some (true, it')
      → is_lt (ord it'.key target) ≡ true
      → scan_loop little comparator (suc fuel) it target
        ≡ scan_loop little comparator fuel it' target
  unfolding scan_loop
  scan_on fuel it it' k e b = rw (e, law.compare_ord it'.key target k P_target, b) refl

  -- the round that finds the entry
  scan_here :
      (fuel : ℕ) (it it' : Iter)
      → P it'.key
      → parse_next_key little it ≡ some (true, it')
      → is_lt (ord it'.key target) ≡ false
      → scan_loop little comparator (suc fuel) it target ≡ some it'
  unfolding scan_loop
  scan_here fuel it it' k e b = rw (e, law.compare_ord it'.key target k P_target, b) refl

  at_end :
      (it : Iter)
      → next_entry_offset it ≡ some it.restarts
      → parse_next_key little it
        ≡ some (false, record it { current = it.restarts; restart_index = it.num_restarts })
  unfolding parse_next_key
  at_end it at =
      let past : leb it.restarts it.restarts ≡ true = ground arith in rw at (rw past refl)

  -- With a round for each entry and one more the linear search ends at the first entry that is not
  -- below the target.
  pub scan_loop-IsFirst :
      (es : List KeyValue) (it : Iter) (offset fuel : ℕ)
      → next_entry_offset it ≡ some offset
      → HasRestarts it
      → Holds it.contents it.restarts offset it.key es
      → AllKeys P es
      → length es < fuel
      → (it' : Iter) × (scan_loop little comparator fuel it target ≡ some it')
        × (it'.status ≡ it.status)
        × IsFirst ord target es it'
  scan_loop-IsFirst es it offset zero at whole holds keys enough = absurd (omega arith)
  scan_loop-IsFirst [] it offset (suc fuel) at whole holds keys enough = (
    record it { current = it.restarts; restart_index = it.num_restarts },
    unfold scan_loop in rw (at_end it (at ∙ ap some holds)) refl,
    refl,
    inl (unfold valid in ground arith, tt),
  )
  scan_loop-IsFirst (e ∷ es) it offset (suc fuel) at whole (entry, holds) (keyed, keys) enough =
      let (it', ran, k, key, value, next, status, same, limit, whole') =
        parse_next_key-step little it entry.front entry.shared entry.delta e.value entry.back has
          whole in
      let spelled : it'.key ≡ e.key = k ∙ sym entry.spells in
      elim (Bool-cases (is_lt (ord it'.key target))) [
        | inl below ↦
            let (it2, rest, status', first) =
              scan_loop-IsFirst es it' (end_of entry) fuel next whole'
                (Holds-moved it'.contents it.contents it'.restarts it.restarts (end_of entry)
                  it'.key e.key es same limit spelled holds)
                keys (omega (arith, enough)) in
            (
              it2,
              scan_on fuel it it' (subst P (sym spelled) keyed) ran below ∙ rest,
              status' ∙ status,
              IsFirst-cons ord target e es it2
                  (ap (λ x. is_lt (ord x target)) (sym spelled) ∙ below) first,
            )
        | inr not_below ↦ (
          it',
          scan_here fuel it it' (subst P (sym spelled) keyed) ran not_below,
          status,
          inr (
            [],
            e,
            es,
            refl,
            tt,
            ap (λ x. is_lt (ord x target)) (sym spelled) ∙ not_below,
            key ∙ ap some (sym entry.spells),
            value,
          ),
        )
      ]
    where
      has : HasEntry it entry.front entry.shared entry.delta e.value entry.back
      has = record {
        at = at ∙ ap some (sym entry.at);
        bytes = entry.bytes;
        inside = entry.inside;
        shares = entry.shares;
        short = entry.short;
      }
