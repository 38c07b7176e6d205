-- ===== src/EnvPosix/Operations.antt =====
-- `PosixEnv` of db/Env_posix.cpp. A call of the threads library that fails ends the process, so
-- its success is taken for granted.
use releveldb.EnvPosix.Opening.{
  new_sequential_file, get_file_size, new_random_access_file, new_writable_file,
  new_appendable_file, new_logger,
}
use releveldb.Base.{
  ℕ, zero, suc, ◌+◌, ◌*◌, ◌%◌, ◌^◌, List, [], ◌∷◌, ◌++◌, Option, none, some, Bool, true, false, not,
  if◌then◌else◌, take, codes,
}
use releveldb.Act.{Act, ◌>>=◌, ◌>>◌, pure, lift}
use releveldb.Slice.{empty}
use releveldb.Status.{Status, ok_status, io_error}
use releveldb.Env.{Name, Work, Env}
use releveldb.EnvPosix.Sys.{
  Posix, State, c_str, call, run, ask, io_error_now, status_if, insert_lock, remove_lock,
}

pub record PosixFileLock : Type 0 where
  pub fd : ℕ
  pub name : Name

-- the constructor, with `MmapLimiter`'s for pointers of 8 bytes
unfoldable pub new_posix_env : {W : Type 0} → W → State W
new_posix_env os = record {
  os = os;
  locked_files = [];
  allowed = 1000;
  files = [];
  started_bgthread = false;
  queue = [];
}

module _ {W : Type 0} (p : Posix W) where
  pub file_exists : Name → Act (State W) Bool
  file_exists fname = do failed ← call (p.access (c_str fname)); pure (not failed)

  -- the while loop over the entries of a directory
  unfoldable pub readdir_loop : ℕ → ℕ → List Name → Act (State W) (List Name)
  readdir_loop zero d result = lift none
  readdir_loop (suc fuel) d result = do
    entry ← call (p.readdir d)
    elim entry [ none ↦ pure result | some d_name ↦ readdir_loop fuel d (result ++ (d_name ∷ [])) ]

  unfoldable pub get_children : ℕ → Name → Act (State W) (Status × List Name)
  unfolding io_error_now readdir_loop
  get_children fuel dir = do
    d ← call (p.opendir (c_str dir))
    elim d [
      | none ↦ (do s ← io_error_now p dir; pure (s, []))
      | some opened ↦ (do
        result ← readdir_loop fuel opened []
        run (p.closedir opened)
        pure (ok_status, result))
    ]

  unfoldable pub delete_file : Name → Act (State W) Status
  unfolding status_if
  delete_file fname = do failed ← call (p.unlink (c_str fname)); status_if p failed fname

  pub create_dir : Name → Act (State W) Status
  unfolding status_if
  create_dir name = do failed ← call (p.mkdir (c_str name)); status_if p failed name

  pub delete_dir : Name → Act (State W) Status
  unfolding status_if
  delete_dir name = do failed ← call (p.rmdir (c_str name)); status_if p failed name

  pub rename_file : Name → Name → Act (State W) Status
  unfolding status_if
  rename_file src target = do
    failed ← call (p.rename (c_str src) (c_str target))
    status_if p failed src

  unfoldable pub lock_or_unlock : ℕ → Bool → Act (State W) Bool
  lock_or_unlock fd lock = do
    run p.clear_errno
    call (
        p.fcntl fd (record {
          l_type = if lock then p.f_wrlck else p.f_unlck;
          l_whence = p.seek_set;
          l_start = 0;
          l_len = 0;
        }))

  -- `LockFile` with the file open and its name in the table
  unfoldable pub lock_open : Name → ℕ → Act (State W) (Status × Option PosixFileLock)
  unfolding lock_or_unlock io_error_now remove_lock
  lock_open fname fd = do
    failed ← lock_or_unlock fd true
    if failed
        then (do
          s ← io_error_now p (codes "lock " ++ fname)
          run (p.close fd)
          remove_lock fname
          pure (s, none))
        else pure (ok_status, some (record { fd = fd; name = fname }))

  unfoldable pub lock_file : Name → Act (State W) (Status × Option PosixFileLock)
  unfolding io_error_now insert_lock lock_open
  lock_file fname = do
    opened ← call (p.open_rdwr_creat (c_str fname))
    elim opened [
      | none ↦ (do s ← io_error_now p fname; pure (s, none))
      | some fd ↦ (do
        inserted ← insert_lock fname
        if inserted then lock_open fname fd else (do
          run (p.close fd)
          s ← lift (io_error (codes "lock " ++ fname) (codes "already held by process"))
          pure (s, none)))
    ]

  unfoldable pub unlock_file : PosixFileLock → Act (State W) Status
  unfolding lock_or_unlock status_if remove_lock
  unlock_file lock = do
    failed ← lock_or_unlock lock.fd false
    result ← status_if p failed (codes "unlock")
    remove_lock lock.name
    run (p.close lock.fd)
    pure result

  -- `snprintf` cuts the text off at 99 bytes.
  pub get_test_directory : Act (State W) (Status × Name)
  unfolding create_dir empty
  get_test_directory = do
    env ← ask (p.getenv (codes "TEST_TMPDIR"))
    printed ← ask p.print_test_dir
    let fallback = take 99 printed
    let result : Name = elim env [
      | none ↦ fallback
      | some dir ↦ if empty dir then fallback else dir
    ]
    create_dir result
    pure (ok_status, result)

  pub now_micros : Act (State W) ℕ
  now_micros = do (sec, usec) ← call p.gettimeofday; pure ((sec * 1000000 + usec) % 2 ^ 64)

  -- `Schedule`, with the work of the background thread as number 0 of its functions
  unfoldable pub schedule : Work → Act (State W) (Unit {0})
  schedule work = do
    (λ st.
        if st.started_bgthread
        then some (tt, st)
        else some (
          tt,
          record st {
            os = p.pthread_create (record { function = 0; arg = 0 }) st.os;
            started_bgthread = true;
          },
        ))
    (λ st. elim st.queue [
      | [] ↦ some (tt, record st { os = p.pthread_cond_signal st.os })
      | _ ↦ some (tt, st)
    ])
    λ st. some (tt, record st { queue = st.queue ++ (work ∷ []) })

  unfoldable pub start_thread : Work → Act (State W) (Unit {0})
  start_thread work = run (p.pthread_create work)

  unfoldable pub posix_env : ℕ → Env (State W) PosixFileLock
  unfolding new_sequential_file new_random_access_file new_writable_file new_appendable_file
      file_exists get_children delete_file create_dir delete_dir get_file_size rename_file lock_file
      unlock_file schedule start_thread get_test_directory new_logger now_micros
  posix_env fuel = record {
    new_sequential_file = new_sequential_file p;
    new_random_access_file = new_random_access_file p;
    new_writable_file = new_writable_file p;
    new_appendable_file = new_appendable_file p;
    file_exists = file_exists;
    get_children = get_children fuel;
    delete_file = delete_file;
    create_dir = create_dir;
    delete_dir = delete_dir;
    get_file_size = get_file_size p;
    rename_file = rename_file;
    lock_file = lock_file;
    unlock_file = unlock_file;
    schedule = schedule;
    start_thread = start_thread;
    get_test_directory = get_test_directory;
    new_logger = new_logger p;
    now_micros = now_micros;
    sleep_for_microseconds = λ micros. run (p.usleep micros);
  }
