-- ===== src/EnvPosix/Locks.antt =====
-- `PosixLockTable`, `LockFile` and `UnlockFile`: a file is locked once at a time.
use releveldb.Base.{
  ℕ, ◌^◌, ◌<◌, ◌≡◌, inl, inr, refl, sym, subst, arith, ap, ap₂, ◌∙◌, Option, Option-cases, none,
  some, Bool, true, false, Bool-cases, List, ◌∷◌, ◌++◌, length, codes,
}
use mathlib.Core.Option.{some-injective}
use releveldb.Act.{Act, ◌>>=◌}
use releveldb.Slice.{◌==s◌}
use releveldb.Status.{Status, ok, ok_status}
use releveldb.Status.Message.{io_error_lem}
use releveldb.Env.{Name}
use releveldb.EnvPosix.Sys.{Posix, State, c_str, held, erased, insert_lock, remove_lock}
use releveldb.EnvPosix.Operations.{PosixFileLock, lock_or_unlock, lock_open, lock_file, unlock_file}
use releveldb.EnvPosix.Errors.{IsShort, HasShortErrors, io_error_now_lem, status_if_lem}
use releveldb.EnvPosix.LockTable.{but, erased-insert, held-erased}

abbrev pub is_lock : Option PosixFileLock → Bool
is_lock none = false
is_lock (some lock) = true

-- A lock is given on a name that was not in the table and is now; else the table is as it was.
abbrev pub IsGranted : Name → Option PosixFileLock → List Name → List Name → Type 0
IsGranted name none before after = after ≡ before
IsGranted name (some lock) before after =
    (lock.name ≡ name) × (held name before ≡ false) × (after ≡ name ∷ before)

module _ {W : Type 0} where
  refused_lem :
      (name : Name) (st : State W)
      → held name st.locked_files ≡ true
      → insert_lock name st ≡ some (false, st)
  unfolding insert_lock
  refused_lem name st h = rw h refl

  inserted_lem :
      (name : Name) (st : State W)
      → held name st.locked_files ≡ false
      → insert_lock name st ≡ some (true, record st { locked_files = name ∷ st.locked_files })
  unfolding insert_lock
  inserted_lem name st h = rw h refl

module _ {W : Type 0} (p : Posix W) where
  abbrev answer : ℕ → ℕ → State W → Bool × W
  answer fd type st =
      p.fcntl fd (record { l_type = type; l_whence = p.seek_set; l_start = 0; l_len = 0 })
        (p.clear_errno st.os)

module _ {W : Type 0} (p : Posix W) (short : HasShortErrors p) where
  -- `UnlockFile` returns on every answer of the system, takes the lock's name from the table and
  -- leaves the other names there.
  pub unlock_file-erases :
      (lock : PosixFileLock) (st : State W)
      → (s : Status) × (st' : State W) × (unlock_file p lock st ≡ some (s, st'))
        × ((other : Name)
            → held other st'.locked_files ≡ but (lock.name ==s other) (held other st.locked_files))
  unlock_file-erases lock st =
      let (failed, w) = answer p lock.fd p.f_unlck st in
      let (s, made, _) =
        status_if_lem p short failed (codes "unlock") (record st { os = w }) (omega arith) in
      (
        s,
        record st { os = p.close lock.fd w; locked_files = erased lock.name st.locked_files },
        unfold unlock_file lock_or_unlock remove_lock in rw (made, ◌>>=◌) refl,
        λ other. held-erased lock.name other st.locked_files,
      )

module _ {W : Type 0} (p : Posix W) (short : HasShortErrors p) (name : Name)
    (name_short : IsShort name) where
  abbrev LockOutcome : Act (State W) (Status × Option PosixFileLock) → State W → List Name → Type 0
  LockOutcome act st before =
      (s : Status) × (lock : Option PosixFileLock) × (st' : State W) × (act st
        ≡ some ((s, lock), st'))
      × (ok s ≡ is_lock lock)
      × IsGranted name lock before st'.locked_files

  context_short : length (codes "lock " ++ name) < 2 ^ 17
  context_short = omega (arith, name_short)

  lock_open_lem :
      (fd : ℕ) (st : State W) (before : List Name)
      → st.locked_files ≡ name ∷ before
      → held name before ≡ false
      → LockOutcome (lock_open p name fd) st before
  lock_open_lem fd st before e free =
      let w : W = (answer p fd p.f_wrlck st).1 in
      elim (Bool-cases (answer p fd p.f_wrlck st).0) [
        | inl failed ↦
            let (s, made, bad) =
              io_error_now_lem p short (codes "lock " ++ name) (record st { os = w })
                context_short in
            (
              s,
              none,
              record st { os = p.close fd w; locked_files = erased name st.locked_files },
              unfold lock_open lock_or_unlock remove_lock in rw failed (rw (made, ◌>>=◌) refl),
              bad,
              ap (erased name) e ∙ erased-insert name before free,
            )
        | inr done ↦ (
          ok_status,
          some (record { fd = fd; name = name }),
          record st { os = w },
          unfold lock_open lock_or_unlock in rw done refl,
          unfold ok ok_status in refl,
          (refl, free, e),
        )
      ]

  abbrev at : State W → State W
  at st = record st { os = (p.open_rdwr_creat (c_str name) st.os).1 }

  -- `LockFile` with the file open
  opened_lem :
      (fd : ℕ) (st : State W)
      → (p.open_rdwr_creat (c_str name) st.os).0 ≡ some fd
      → LockOutcome (lock_file p name) st st.locked_files
  opened_lem fd st e = elim (Bool-cases (held name st.locked_files)) [
    | inl h ↦
        let (s, made, bad) =
          io_error_lem (codes "lock " ++ name) (codes "already held by process")
            (omega (arith, name_short)) in
        (
          s,
          none,
          record st { os = p.close fd (p.open_rdwr_creat (c_str name) st.os).1 },
          unfold lock_file in rw e (rw (refused_lem name (at st) h, ◌>>=◌) (rw (made, ◌>>=◌) refl)),
          bad,
          refl,
        )
    | inr h ↦
        let (s, lock, st', ran, same, granted) =
          lock_open_lem fd (record (at st) { locked_files = name ∷ st.locked_files })
            st.locked_files refl h in
        (
          s,
          lock,
          st',
          unfold lock_file in rw e (rw (inserted_lem name (at st) h, ◌>>=◌) ran),
          same,
          granted,
        )
  ]

  -- Where the name and the system's messages are below 2^16 bytes, `LockFile` returns on every
  -- answer of the system, with an ok status exactly if with a lock. It gives a lock only on a name
  -- that this process has not locked, and then has it in its table; in every other case the table
  -- is as it was.
  pub lock_file-IsGranted :
      (st : State W)
      → (s : Status) × (lock : Option PosixFileLock) × (st' : State W) × (lock_file p name st
          ≡ some ((s, lock), st'))
        × (ok s ≡ is_lock lock)
        × IsGranted name lock st.locked_files st'.locked_files
  lock_file-IsGranted st = elim (Option-cases (p.open_rdwr_creat (c_str name) st.os).0) [
    | inl e ↦
        let st0 : State W = record st { os = (p.open_rdwr_creat (c_str name) st.os).1 } in
        let (s, made, bad) = io_error_now_lem p short name st0 (omega arith) in
        (s, none, st0, unfold lock_file in rw e (rw (made, ◌>>=◌) refl), bad, refl)
    | inr (fd, e) ↦ opened_lem fd st e
  ]

  -- Where the name and the system's messages are below 2^16 bytes, `UnlockFile` returns on a lock
  -- that `LockFile` gave, and the table of locks is then as it was before the two, if in between it
  -- was left alone.
  pub unlock_file-lock_file :
      (st st' now : State W) (s : Status) (lock : PosixFileLock)
      → lock_file p name st ≡ some ((s, some lock), st')
      → now.locked_files ≡ st'.locked_files
      → (s' : Status) × (after : State W) × (unlock_file p lock now ≡ some (s', after))
        × (after.locked_files ≡ st.locked_files)
  unlock_file-lock_file st st' now s lock locked same =
      let (name_eq, free, in_table) = granted in
      let (failed, w) = answer p lock.fd p.f_unlck now in
      let (s', made, _) =
        status_if_lem p short failed (codes "unlock") (record now { os = w }) (omega arith) in
      (
        s',
        record now { os = p.close lock.fd w; locked_files = erased lock.name now.locked_files },
        unfold unlock_file lock_or_unlock remove_lock in rw (made, ◌>>=◌) refl,
        ap₂ erased name_eq (same ∙ in_table) ∙ erased-insert name st.locked_files free,
      )
    where
      granted : IsGranted name (some lock) st.locked_files st'.locked_files
      granted =
          let (s0, lock0, st0, ran, _, given) = lock_file-IsGranted st in
          let e = some-injective ((s0, lock0), st0) ((s, some lock), st') (sym ran ∙ locked) in
          subst (λ r. IsGranted name r.0.1 st.locked_files r.1.locked_files) e given
