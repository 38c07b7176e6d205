-- ===== src/EnvPosix/Limiter.antt =====
-- `MmapLimiter` and `NewRandomAccessFile`: what is taken for a mapping is given back.
use releveldb.Base.{
  ℕ, ◌+◌, ◌-◌, ◌≡◌, ◌⊎◌, inl, inr, refl, arith, ap, ◌∙◌, Option, Option-cases, none, some, Bool,
  true, false, ◌==◌, Bool-cases,
}
use releveldb.Act.{◌>>=◌}
use releveldb.Status.{Status, ok, ok_status}
use releveldb.Env.{Name, RandomAccessFile}
use releveldb.EnvPosix.Sys.{Posix, State, c_str, acquire, release}
use releveldb.EnvPosix.Files.{posix_mmap_readable_file, posix_random_access_file}
use releveldb.EnvPosix.Opening.{get_file_size, map_file, new_random_access_file}
use releveldb.EnvPosix.Errors.{IsShort, HasShortErrors, io_error_now_lem}

module _ {W : Type 0} where
  -- Deleting the file adds to the allowance exactly what opening it took.
  abbrev pub IsBalanced : Option (RandomAccessFile (State W)) → State W → State W → Type 0
  IsBalanced none st st' = st'.allowed ≡ st.allowed
  IsBalanced (some file) st st' =
      (now : State W)
      → (later : State W) × (file.delete now ≡ some (tt, later))
        × (later.allowed + st'.allowed ≡ now.allowed + st.allowed)

  abbrev pub is_open : Option (RandomAccessFile (State W)) → Bool
  is_open none = false
  is_open (some file) = true

module _ {W : Type 0} (p : Posix W) (short : HasShortErrors p) (name : Name)
    (name_short : IsShort name) where
  get_file_size_lem :
      (st : State W)
      → (s : Status) × (size : ℕ) × (w : W) × (get_file_size p name st
          ≡ some ((s, size), record st { os = w }))
  get_file_size_lem st = elim (Option-cases (p.stat (c_str name) st.os).0) [
    | inl e ↦
        let w : W = (p.stat (c_str name) st.os).1 in
        let (s, made, _) = io_error_now_lem p short name (record st { os = w }) (omega arith) in
        (s, 0, w, unfold get_file_size in rw e (rw (made, ◌>>=◌) refl))
    | inr (size, e) ↦
        (ok_status, size, (p.stat (c_str name) st.os).1, unfold get_file_size in rw e refl)
  ]

  -- what `map_file` gives
  abbrev Maps : Status → Option (RandomAccessFile (State W)) → Type 0
  Maps s file =
      ((ok s ≡ true)
        × (base : ℕ) × (size : ℕ) × (file ≡ some (posix_mmap_readable_file p name base size)))
      ⊎ ((ok s ≡ false) × (file ≡ none))

  map_file_lem :
      (fd : ℕ) (st : State W)
      → (s : Status) × (file : Option (RandomAccessFile (State W))) × (w : W) × (map_file p name fd
            st
          ≡ some ((s, file), record st { os = w }))
        × Maps s file
  map_file_lem fd st =
      let (s, size, w, e) = get_file_size_lem st in
      elim (Bool-cases (ok s)) [
        | inr bad ↦ (s, none, w, unfold map_file in rw (e, ◌>>=◌) (rw bad refl), inr (bad, refl))
        | inl good ↦ mapping s size w e good (Option-cases (p.mmap size fd w).0)
      ]
    where
      mapping :
          (s : Status) (size : ℕ) (w : W)
          → get_file_size p name st ≡ some ((s, size), record st { os = w })
          → ok s ≡ true
          → ((p.mmap size fd w).0 ≡ none) ⊎ ((base : ℕ) × ((p.mmap size fd w).0 ≡ some base))
          → (s : Status) × (file : Option (RandomAccessFile (State W))) × (w : W) × (map_file p name
                fd st
              ≡ some ((s, file), record st { os = w }))
            × Maps s file
      mapping s size w e good (inl m) =
          let (s', made, bad) =
            io_error_now_lem p short name (record st { os = (p.mmap size fd w).1 }) (omega arith) in
          (
            s',
            none,
            (p.mmap size fd w).1,
            unfold map_file in rw (e, ◌>>=◌) (rw good (rw m (rw (made, ◌>>=◌) refl))),
            inr (bad, refl),
          )
      mapping s size w e good (inr (base, m)) = (
        s,
        some (posix_mmap_readable_file p name base size),
        (p.mmap size fd w).1,
        unfold map_file in rw (e, ◌>>=◌) (rw good (rw m refl)),
        inl (good, base, size, refl),
      )

  abbrev Outcome : State W → Type 0
  Outcome st =
      (s : Status) × (file : Option (RandomAccessFile (State W))) × (st' : State W)
      × (new_random_access_file p name st ≡ some ((s, file), st'))
      × (ok s ≡ is_open file)
      × IsBalanced file st st'

  -- the branch without a mapping
  plain :
      (st : State W) (fd : ℕ)
      → (p.open_rdonly (c_str name) st.os).0 ≡ some fd
      → st.allowed ≡ 0
      → Outcome st
  plain st fd e zero_left = (
    ok_status,
    some (posix_random_access_file p name fd),
    record st { os = (p.open_rdonly (c_str name) st.os).1 },
    unfold new_random_access_file acquire in rw e (rw zero_left refl),
    unfold ok ok_status in refl,
    λ now. (
      record now { os = p.close fd now.os },
      unfold posix_random_access_file in refl,
      omega arith,
    ),
  )

  acquire_lem :
      (st : State W)
      → (st.allowed == 0) ≡ false
      → acquire st ≡ some (true, record st { allowed = st.allowed - 1 })
  unfolding acquire
  acquire_lem st h = ground arith

  -- the branch with one, for the status that it ends in
  abbrev at_fd : State W → State W
  at_fd st = record st { os = (p.open_rdonly (c_str name) st.os).1 }

  abbrev taken : State W → State W
  taken st = record st { os = (p.open_rdonly (c_str name) st.os).1; allowed = st.allowed - 1 }

  kept_run :
      (st : State W) (fd : ℕ) (s : Status) (file : Option (RandomAccessFile (State W))) (w : W)
      → (p.open_rdonly (c_str name) st.os).0 ≡ some fd
      → acquire (at_fd st) ≡ some (true, taken st)
      → map_file p name fd (taken st) ≡ some ((s, file), record (taken st) { os = w })
      → ok s ≡ true
      → new_random_access_file p name st ≡ some ((s, file), record (taken st) { os = p.close fd w })
  unfolding new_random_access_file
  kept_run st fd s file w e got run good = rw e (rw (got, ◌>>=◌) (rw (run, ◌>>=◌) (rw good refl)))

  released_run :
      (st : State W) (fd : ℕ) (s : Status) (file : Option (RandomAccessFile (State W))) (w : W)
      → (p.open_rdonly (c_str name) st.os).0 ≡ some fd
      → acquire (at_fd st) ≡ some (true, taken st)
      → map_file p name fd (taken st) ≡ some ((s, file), record (taken st) { os = w })
      → ok s ≡ false
      → new_random_access_file p name st
        ≡ some ((s, file), record (taken st) { os = p.close fd w; allowed = st.allowed - 1 + 1 })
  unfolding new_random_access_file release
  released_run st fd s file w e got run bad = rw e (rw (got, ◌>>=◌) (rw (run, ◌>>=◌) (rw bad refl)))

  mapped :
      (st : State W) (fd : ℕ)
      → (p.open_rdonly (c_str name) st.os).0 ≡ some fd
      → (st.allowed == 0) ≡ false
      → Outcome st
  mapped st fd e some_left =
      let (s, file, w, run, maps) = map_file_lem fd (taken st) in
      let got : acquire (at_fd st) ≡ some (true, taken st) = acquire_lem (at_fd st) some_left in
      finish s file w run got maps
    where
      finish :
          (s : Status) (file : Option (RandomAccessFile (State W))) (w : W)
          → map_file p name fd (taken st) ≡ some ((s, file), record (taken st) { os = w })
          → acquire (at_fd st) ≡ some (true, taken st)
          → Maps s file
          → Outcome st
      finish s file w run got (inl (good, base, size, is)) = (
        s,
        some (posix_mmap_readable_file p name base size),
        record (taken st) { os = p.close fd w },
        kept_run st fd s file w e got run good
            ∙ ap (λ f. some ((s, f), record (taken st) { os = p.close fd w })) is,
        good,
        λ now. (
          record now { os = p.munmap base size now.os; allowed = now.allowed + 1 },
          unfold posix_mmap_readable_file release in refl,
          ground arith,
        ),
      )
      finish s file w run got (inr (bad, is)) = (
        s,
        none,
        record (taken st) { os = p.close fd w; allowed = st.allowed - 1 + 1 },
        released_run st fd s file w e got run bad
            ∙ ap
                (λ f.
                  some
                    ((s, f), record (taken st) { os = p.close fd w; allowed = st.allowed - 1 + 1 }))
                is,
        bad,
        ground arith,
      )

  -- Where the name and the system's messages are below 2^16 bytes, `NewRandomAccessFile` returns on
  -- every answer of the system, with an ok status exactly if with a file. What it takes of the allowance of mappings, the deletion of the file gives back; without a
  -- file the allowance is as it was.
  pub new_random_access_file-IsBalanced :
      (st : State W)
      → (s : Status) × (file : Option (RandomAccessFile (State W))) × (st' : State W)
        × (new_random_access_file p name st ≡ some ((s, file), st'))
        × (ok s ≡ is_open file)
        × IsBalanced file st st'
  new_random_access_file-IsBalanced st = elim (Option-cases (p.open_rdonly (c_str name) st.os).0) [
    | inl e ↦
        let st0 : State W = record st { os = (p.open_rdonly (c_str name) st.os).1 } in
        let (s, made, bad) = io_error_now_lem p short name st0 (omega arith) in
        (s, none, st0, unfold new_random_access_file in rw e (rw (made, ◌>>=◌) refl), bad, refl)
    | inr (fd, e) ↦ elim (Bool-cases (st.allowed == 0)) [
      | inl h ↦ plain st fd e (ground arith)
      | inr h ↦ mapped st fd e h
    ]
  ]
