-- ===== src/EnvPosix/Files.antt =====
-- The file classes of db/Env_posix.cpp.
use releveldb.Base.{
  ℕ, ◌+◌, ◌%◌, ◌^◌, List, [], ◌∷◌, Option, none, some, not, ltb, leb, ◌==◌, if◌then◌else◌,
  get_elem?, length, set, take, drop, codes,
}
use releveldb.Act.{Act, ◌>>=◌, ◌>>◌, pure, lift}
use releveldb.Slice.{Slice, starts_with}
use releveldb.Status.{Status, ok, ok_status}
use releveldb.Env.{Name, SequentialFile, RandomAccessFile, WritableFile}
use releveldb.EnvPosix.Sys.{
  to_long, Posix, State, c_str, call, run, ask, io_error_of, io_error_now, status_if, release,
}

-- `strrchr(f, '/')`: what stands before and behind the last slash
unfoldable pub last_slash : List ℕ → Option (List ℕ × List ℕ)
last_slash [] = none
last_slash (c ∷ s) = elim (last_slash s) [
  | none ↦ if c == b'/' then some ([], s) else none
  | some (dir, base) ↦ some (c ∷ dir, base)
]

module _ {W : Type 0} (p : Posix W) where
  -- `PosixSequentialFile`
  unfoldable pub sequential_read : Name → ℕ → ℕ → Act (State W) (Status × Slice)
  unfolding io_error_now
  sequential_read filename file n = do
    bytes ← call (p.fread file n)
    eof ← ask (p.feof file)
    s ←
        (if ltb (length bytes) n
          then if eof then pure ok_status else io_error_now p filename
          else pure ok_status)
    pure (s, bytes)

  unfoldable pub posix_sequential_file : Name → ℕ → SequentialFile (State W)
  unfolding sequential_read status_if to_long
  posix_sequential_file filename file = record {
    read = sequential_read filename file;
    skip = λ n. do
      failed ← call (p.fseek file (to_long n))
      status_if p failed filename;
    delete = do
      call (p.fclose file)
      pure tt;
  }

  -- `PosixRandomAccessFile`
  unfoldable pub random_access_read : Name → ℕ → ℕ → ℕ → Act (State W) (Status × Slice)
  unfolding io_error_now
  random_access_read filename fd offset n = do
    bytes ← call (p.pread fd n (offset % 2 ^ 64))
    elim bytes [
      | none ↦ (do s ← io_error_now p filename; pure (s, []))
      | some read ↦ pure (ok_status, read)
    ]

  unfoldable pub posix_random_access_file : Name → ℕ → RandomAccessFile (State W)
  unfolding random_access_read
  posix_random_access_file filename fd = record {
    read = random_access_read filename fd;
    delete = run (p.close fd);
  }

  -- `PosixMmapReadableFile`; `offset + n` is a sum of 64-bit numbers. `none` is a slice that is not
  -- inside the mapped memory.
  unfoldable pub mmap_read : Name → ℕ → ℕ → ℕ → ℕ → Act (State W) (Status × Slice)
  unfolding io_error_of
  mmap_read filename base size offset n =
      if ltb size ((offset + n) % 2 ^ 64)
      then (do s ← io_error_of p filename p.einval; pure (s, []))
      else (do
        region ← ask (p.mapped base)
        if leb (offset + n) (length region)
            then pure (ok_status, take n (drop offset region))
            else lift none)

  unfoldable pub posix_mmap_readable_file : Name → ℕ → ℕ → RandomAccessFile (State W)
  unfolding mmap_read release
  posix_mmap_readable_file filename base size = record {
    read = mmap_read filename base size;
    delete = do
      run (p.munmap base size)
      release;
  }

  -- `file_` of a `PosixWritableFile`; a null one cannot be used.
  unfoldable pub file_of : ℕ → Act (State W) ℕ
  file_of id st = elim (get_elem? st.files id) [
    | none ↦ none
    | some none ↦ none
    | some (some file) ↦ some (file, st)
  ]

  unfoldable pub writable_append : Name → ℕ → Slice → Act (State W) Status
  unfolding file_of status_if
  writable_append filename id bytes = do
    file ← file_of id
    r ← call (p.fwrite bytes file)
    status_if p (not (r == length bytes)) filename

  unfoldable pub writable_close : Name → ℕ → Act (State W) Status
  unfolding file_of status_if
  writable_close filename id = do
    file ← file_of id
    failed ← call (p.fclose file)
    result ← status_if p failed filename
    λ st. some (result, record st { files = set st.files id none })

  unfoldable pub writable_flush : Name → ℕ → Act (State W) Status
  unfolding file_of status_if
  writable_flush filename id = do
    file ← file_of id
    failed ← call (p.fflush file)
    status_if p failed filename

  -- the part that opens and syncs the directory
  unfoldable pub sync_dir : Name → Act (State W) Status
  unfolding io_error_now status_if
  sync_dir dir = do
    opened ← call (p.open_rdonly (c_str dir))
    elim opened [
      | none ↦ io_error_now p dir
      | some fd ↦ (do
        failed ← call (p.fsync fd)
        s ← status_if p failed dir
        run (p.close fd)
        pure s)
    ]

  abbrev pub dir_and_base : Name → Name × Slice
  dir_and_base f = elim (last_slash f) [ none ↦ (codes ".", f) | some parts ↦ parts ]

  unfoldable pub sync_dir_if_manifest : Name → Act (State W) Status
  unfolding last_slash sync_dir
  sync_dir_if_manifest filename =
      let (dir, basename) = dir_and_base (c_str filename) in
      if starts_with basename (codes "MANIFEST") then sync_dir dir else pure ok_status

  unfoldable pub writable_sync : Name → ℕ → Act (State W) Status
  unfolding sync_dir_if_manifest file_of io_error_now
  writable_sync filename id = do
    s ← sync_dir_if_manifest filename
    if not (ok s) then pure s else (do
      file ← file_of id
      unflushed ← call (p.fflush file)
      if unflushed then io_error_now p filename else (do
        fd ← ask (p.fileno file)
        unsynced ← call (p.fsync fd)
        if unsynced then io_error_now p filename else pure s))

  -- the destructor
  unfoldable pub writable_delete : ℕ → Act (State W) (Unit {0})
  writable_delete id st = elim (get_elem? st.files id) [
    | none ↦ none
    | some none ↦ some (tt, st)
    | some (some file) ↦ (do call (p.fclose file); pure tt) st
  ]

  unfoldable pub posix_writable_file : Name → ℕ → WritableFile (State W)
  unfolding writable_append writable_close writable_flush writable_sync writable_delete
  posix_writable_file filename id = record {
    append = writable_append filename id;
    close = writable_close filename id;
    flush = writable_flush filename id;
    sync = writable_sync filename id;
    delete = writable_delete id;
  }
