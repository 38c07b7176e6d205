-- ===== src/Block/Stops.antt =====
-- The linear search of `Block::Iter::Seek` on arbitrary bytes.
use releveldb.Base.{
  ℕ, zero, suc, ◌-◌, ◌≤◌, ◌<◌, ◌≡◌, ◌⊎◌, inl, inr, refl, arith, ◌∙◌, List, some, ◌>>=◌, Bool, true,
  false, Bool-cases, Ordering,
}
use releveldb.Slice.{Slice, is_lt}
use releveldb.Comparator.{Comparator}
use releveldb.Status.{k_corruption, is_code}
use releveldb.Block.Iter.{
  Iter, next_entry_offset, parse_next_key, scan_loop, valid, key_of, value_of,
}
use releveldb.Block.Parse.{HasRestarts}
use releveldb.Block.Corrupt.{IsNoEntry, Wraps, parse_next_key_total}

module _ (little : Bool) (comparator : Comparator) (target : Slice) where
  -- `ParseNextKey` again and again, over entries whose keys are below the target
  pub data Passes : Iter → Iter → Type 0 where
    here : (it : Iter) → Passes it it
    on :
        (it it' last : Iter) (o : Ordering)
        → parse_next_key little it ≡ some (true, it')
        → comparator.compare it'.key target ≡ some o
        → is_lt o ≡ true
        → Passes it' last
        → Passes it last

  -- Where a linear search from `it` stops: behind all entries, which leaves the status; at the first
  -- bytes that are no entry, which gives a corruption status; or at an entry whose key is not below
  -- the target. Before that it passes entries whose keys are below the target.
  abbrev pub HasStopped : Iter → Iter → Type 0
  HasStopped it it' =
      (last : Iter) × (offset : ℕ) × Passes it last
      × (next_entry_offset last ≡ some offset)
      × (((last.restarts ≤ offset) × (valid it' ≡ false) × (it'.status ≡ it.status))
          ⊎ (((offset < last.restarts)
                × IsNoEntry little last offset
                × (valid it' ≡ false)
                × (is_code k_corruption it'.status ≡ some true))
              ⊎ ((parse_next_key little last ≡ some (true, it'))
                  × (it'.status ≡ it.status)
                  × ((key value : List ℕ) × (key_of it' ≡ some key)
                      × (value_of it' ≡ some value)
                      × ((o : Ordering) × (comparator.compare key target ≡ some o)
                          × (is_lt o ≡ false))))))

-- an entry somewhere before the restart array whose lengths wrap
abbrev pub WrapsSomewhere : Bool → Iter → Type 0
WrapsSomewhere little it = (offset : ℕ) × Wraps little it offset

module _ (little : Bool) (comparator : Comparator) (target : Slice)
    (total : (a b : Slice) → (o : Ordering) × (comparator.compare a b ≡ some o)) where
  HasStopped-passed :
      (it it' last : Iter) (o : Ordering)
      → parse_next_key little it ≡ some (true, it')
      → comparator.compare it'.key target ≡ some o
      → is_lt o ≡ true
      → it'.status ≡ it.status
      → HasStopped little comparator target it' last
      → HasStopped little comparator target it last
  HasStopped-passed it it' last o ran ordered below st (before, offset, passes, at, ends) = (
    before,
    offset,
    on it it' before o ran ordered below passes,
    at,
    elim ends [
      | inl (past, invalid, same) ↦ inl (past, invalid, same ∙ st)
      | inr (inl corrupt) ↦ inr (inl corrupt)
      | inr (inr (found, same, what)) ↦ inr (inr (found, same ∙ st, what))
    ],
  )

  -- On any bytes before a restart array that lies in a block of less than 2^32 bytes, the linear
  -- search with a comparator that always answers ends, with a round for each byte and one more,
  -- unless there is an entry among the bytes whose lengths wrap.
  pub scan_loop_total :
      (fuel : ℕ) (it : Iter) (offset : ℕ)
      → next_entry_offset it ≡ some offset
      → HasRestarts it
      → it.restarts - offset < fuel
      → ((it' : Iter) × (scan_loop little comparator fuel it target ≡ some it')
          × HasStopped little comparator target it it')
        ⊎ WrapsSomewhere little it
  unfolding scan_loop
  scan_loop_total zero it offset at whole enough = absurd (omega arith)
  scan_loop_total (suc fuel) it offset at whole enough =
      elim (parse_next_key_total little it offset at whole) [
        | inl (it', ran, past, invalid, same) ↦
            inl (it', rw (ran, ◌>>=◌) refl, (it, offset, here it, at, inl (past, invalid, same)))
        | inr (inl (it', ran, inside, bad, invalid, code)) ↦ inl (
          it',
          rw (ran, ◌>>=◌) refl,
          (it, offset, here it, at, inr (inl (inside, bad, invalid, code))),
        )
        | inr (inr (inr wraps)) ↦ inr (offset, wraps)
        | inr (inr (inl (it', value, ran, k, v, (n, next, further, inside), whole', r, c, st))) ↦
            let (o, ordered) = total it'.key target in
            elim (Bool-cases (is_lt o)) [
              | inr found ↦ inl (
                it',
                rw (ran, ◌>>=◌) (rw (ordered, ◌>>=◌) (rw found refl)),
                (
                  it,
                  offset,
                  here it,
                  at,
                  inr (inr (ran, st, (it'.key, value, k, v, (o, ordered, found)))),
                ),
              )
              | inl below ↦
                  elim (scan_loop_total fuel it' n next whole'
                    (omega (arith, enough, further, inside, r))) [
                      | inl (last, more, stopped) ↦ inl (
                        last,
                        rw (ran, ◌>>=◌) (rw (ordered, ◌>>=◌) (rw below more)),
                        HasStopped-passed it it' last o ran ordered below st stopped,
                      )
                      | inr (somewhere, (e, decoded, big)) ↦
                          inr (somewhere, (e, (rw (r, c) at decoded), big))
                    ]
            ]
      ]
