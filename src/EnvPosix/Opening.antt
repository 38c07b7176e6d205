-- ===== src/EnvPosix/Opening.antt =====
-- The operations of `PosixEnv` in db/Env_posix.cpp that open files, and its logger.
use releveldb.Base.{
  ℕ, List, [], ◌∷◌, ◌++◌, Option, none, some, true, false, not, if◌then◌else◌, length, codes,
}
use releveldb.Act.{Act, ◌>>=◌, ◌>>◌, pure, lift}
use releveldb.Status.{Status, ok, ok_status}
use releveldb.PosixLogger.{round, small_size, large_size}
use releveldb.Env.{Name, SequentialFile, RandomAccessFile, WritableFile, Logger}
use releveldb.EnvPosix.Sys.{Posix, State, c_str, call, run, io_error_now, acquire, release}
use releveldb.EnvPosix.Files.{
  posix_sequential_file, posix_random_access_file, posix_mmap_readable_file, posix_writable_file,
}

module _ {W : Type 0} (p : Posix W) where
  -- `PosixLogger`, whose two rounds ask for the time anew
  unfoldable pub posix_logv : ℕ → List ℕ → Act (State W) (Unit {0})
  unfolding round
  posix_logv file message = do
    first ← call p.log_header
    line ← elim (round true small_size first message) [
      | some l ↦ pure l
      | none ↦ (do second ← call p.log_header; lift (round false large_size second message))
    ]
    call (p.fwrite line file)
    call (p.fflush file)
    pure tt

  -- The destructor closes the file.
  unfoldable pub posix_logger : ℕ → Logger (State W)
  unfolding posix_logv
  posix_logger file = record { logv = posix_logv file; delete = (do call (p.fclose file); pure tt) }

  unfoldable pub new_sequential_file :
      Name → Act (State W) (Status × Option (SequentialFile (State W)))
  unfolding io_error_now posix_sequential_file
  new_sequential_file name = do
    f ← call (p.fopen (c_str name) (codes "r"))
    elim f [
      | none ↦ (do s ← io_error_now p name; pure (s, none))
      | some file ↦ pure (ok_status, some (posix_sequential_file p name file))
    ]

  unfoldable pub get_file_size : Name → Act (State W) (Status × ℕ)
  unfolding io_error_now
  get_file_size name = do
    buf ← call (p.stat (c_str name))
    elim buf [
      | none ↦ (do s ← io_error_now p name; pure (s, 0))
      | some size ↦ pure (ok_status, size)
    ]

  -- the branch of `NewRandomAccessFile` that maps the file
  unfoldable pub map_file : Name → ℕ → Act (State W) (Status × Option (RandomAccessFile (State W)))
  unfolding get_file_size io_error_now posix_mmap_readable_file
  map_file name fd = do
    (s, size) ← get_file_size name
    if not (ok s) then pure (s, none) else (do
      base ← call (p.mmap size fd)
      elim base [
        | none ↦ (do s' ← io_error_now p name; pure (s', none))
        | some address ↦ pure (s, some (posix_mmap_readable_file p name address size))
      ])

  unfoldable pub new_random_access_file :
      Name → Act (State W) (Status × Option (RandomAccessFile (State W)))
  unfolding io_error_now map_file acquire release posix_random_access_file
  new_random_access_file name = do
    opened ← call (p.open_rdonly (c_str name))
    elim opened [
      | none ↦ (do s ← io_error_now p name; pure (s, none))
      | some fd ↦ (do
        acquired ← acquire
        if acquired
            then (do
              (s, ret) ← map_file name fd
              run (p.close fd)
              if not (ok s) then release else pure tt
              pure (s, ret))
            else pure (ok_status, some (posix_random_access_file p name fd)))
    ]

  -- `NewWritableFile` and `NewAppendableFile`, for their modes
  unfoldable pub new_file : List ℕ → Name → Act (State W) (Status × Option (WritableFile (State W)))
  unfolding io_error_now posix_writable_file
  new_file mode fname = do
    f ← call (p.fopen (c_str fname) mode)
    elim f [
      | none ↦ (do s ← io_error_now p fname; pure (s, none))
      | some file ↦ λ st. some (
        (ok_status, some (posix_writable_file p fname (length st.files))),
        record st { files = st.files ++ (some file ∷ []) },
      )
    ]

  unfoldable pub new_writable_file : Name → Act (State W) (Status × Option (WritableFile (State W)))
  unfolding new_file
  new_writable_file fname = new_file (codes "w") fname

  unfoldable pub new_appendable_file :
      Name → Act (State W) (Status × Option (WritableFile (State W)))
  unfolding new_file
  new_appendable_file fname = new_file (codes "a") fname

  unfoldable pub new_logger : Name → Act (State W) (Status × Option (Logger (State W)))
  unfolding io_error_now posix_logger
  new_logger fname = do
    f ← call (p.fopen (c_str fname) (codes "w"))
    elim f [
      | none ↦ (do s ← io_error_now p fname; pure (s, none))
      | some file ↦ pure (ok_status, some (posix_logger file))
    ]
