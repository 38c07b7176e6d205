-- ===== src/EnvPosix/Tests.antt =====
-- Runs of `PosixEnv` on a small system: the background thread, and the bytes of the one file that
-- are still to read.
mod Disk
mod Contention
use releveldb.Base.{
  ℕ, ◌+◌, ◌-◌, ◌*◌, ◌^◌, ◌≤◌, ◌<◌, ◌≡◌, ◌⊎◌, refl, arith, List, [], ◌∷◌, codes, Option, none, some,
  true, false, length, length-take, length-drop, take, drop,
}
use releveldb.Slice.{Slice, empty, ◌==s◌}
use releveldb.Status.{Status, ok, ok_status}
use releveldb.Env.{Name, Work, RandomAccessFile, read_file_to_string}
use releveldb.EnvPosix.Sys.{Posix, State, held, insert_lock, pos, negsuc, to_long}
use releveldb.EnvPosix.Files.{mmap_read}
use releveldb.EnvPosix.Operations.{
  PosixFileLock, new_posix_env, lock_file, lock_open, lock_or_unlock, unlock_file, schedule,
  posix_env,
}
use releveldb.EnvPosix.Opening.{new_random_access_file}
use releveldb.EnvPosix.Errors.{HasShortErrors}
use releveldb.EnvPosix.Mapped.{mmap_read_bounds, mmap_read_wraps}
use releveldb.EnvPosix.Limiter.{IsBalanced, is_open, new_random_access_file-IsBalanced}
use releveldb.EnvPosix.Locks.{IsGranted, is_lock, lock_file-IsGranted, unlock_file-lock_file}
use releveldb.EnvPosix.LockTable.{but}
use releveldb.EnvPosix.Queue.{
  Phase, idle, ready, woken, Threads, Run, Reach, start, next, schedules, IsSettled, IsOrdered,
}
use releveldb.EnvPosix.Queue.Order.{Reach-IsConsistent}
use releveldb.EnvPosix.Queue.Progress.{advance, advance-done}
use releveldb.EnvPosix.Whole.{IsStream, read_file_to_string-posix_env}

abbrev World : Type 0
World = Phase × List ℕ

abbrev system : Posix World
system = record {
  errno = λ w. 2;
  clear_errno = λ w. w;
  strerror = λ e. codes "error";
  einval = 22;
  f_wrlck = 1;
  f_unlck = 2;
  seek_set = 0;
  fopen = λ name mode w. (some 3, w);
  fread = λ file n w. (take n w.1, (w.0, drop n w.1));
  feof = λ file w. empty w.1;
  fseek = λ file n w. elim n [ pos k ↦ (false, (w.0, drop k w.1)) | negsuc k ↦ (true, w) ];
  fwrite = λ bytes file w. (length bytes, w);
  fflush = λ file w. (false, w);
  fclose = λ file w. (false, w);
  fileno = λ file w. 4;
  fsync = λ fd w. (false, w);
  open_rdonly = λ name w. (some 5, w);
  open_rdwr_creat = λ name w. (some 6, w);
  close = λ fd w. w;
  pread = λ fd n offset w. (some (take n (drop offset w.1)), w);
  mmap = λ size fd w. (some 7, w);
  munmap = λ base size w. w;
  mapped = λ base w. w.1;
  access = λ name w. (false, w);
  unlink = λ name w. (false, w);
  mkdir = λ name w. (false, w);
  rmdir = λ name w. (false, w);
  rename = λ src target w. (false, w);
  stat = λ name w. (some (length w.1), w);
  opendir = λ name w. (none, w);
  readdir = λ d w. (none, w);
  closedir = λ d w. w;
  fcntl = λ fd lock w. (false, w);
  getenv = λ name w. none;
  print_test_dir = λ w. codes "/tmp";
  usleep = λ micros w. w;
  log_header = λ w. (codes "now ", w);
  gettimeofday = λ w. ((1, 2), w);
  pthread_create = λ work w. (ready, w.1);
  pthread_cond_signal = λ w. (woken w.0, w.1);
}

abbrev threads : Threads system
threads = record {
  phase = λ w. w.0;
  moved = λ ph w. (ph, w.1);
  phase-moved = λ ph w. refl;
  created = λ w e. refl;
  signalled = λ w. refl;
}

short : HasShortErrors system
short e = omega arith

abbrev at_start : State World
at_start = record {
  os = (idle, codes "abc");
  locked_files = [];
  allowed = 1000;
  files = [];
  started_bgthread = false;
  queue = [];
}

mmap_read_wraps_example : mmap_read system (codes "f") 7 3 2 (2 ^ 64 - 1) at_start ≡ none
mmap_read_wraps_example =
    mmap_read_wraps system short (codes "f") 7 3 at_start refl 2 (2 ^ 64 - 1) (omega arith)
      (omega arith) (omega arith) (omega arith) (omega arith)

new_random_access_file-IsBalanced_example :
    (s : Status) × (file : Option (RandomAccessFile (State World))) × (st' : State World)
    × (new_random_access_file system (codes "f") at_start ≡ some ((s, file), st'))
    × (ok s ≡ is_open file)
    × IsBalanced file at_start st'
new_random_access_file-IsBalanced_example =
    new_random_access_file-IsBalanced system short (codes "f") (omega arith) at_start

lock_file-IsGranted_example :
    (s : Status) × (lock : Option PosixFileLock) × (st' : State World) × (lock_file system
        (codes "f")
        at_start
      ≡ some ((s, lock), st'))
    × (ok s ≡ is_lock lock)
    × IsGranted (codes "f") lock [] st'.locked_files
lock_file-IsGranted_example = lock_file-IsGranted system short (codes "f") (omega arith) at_start

abbrev a_lock : PosixFileLock
a_lock = record { fd = 6; name = codes "f" }

abbrev locked : State World
locked = record at_start { locked_files = codes "f" ∷ [] }

locks : lock_file system (codes "f") at_start ≡ some ((ok_status, some a_lock), locked)
unfolding lock_file insert_lock held lock_open lock_or_unlock
locks = refl

unlock_file-lock_file_example :
    (s' : Status) × (after : State World) × (unlock_file system a_lock locked ≡ some (s', after))
    × (after.locked_files ≡ [])
unlock_file-lock_file_example =
    unlock_file-lock_file system short (codes "f") (omega arith) at_start locked locked ok_status
      a_lock locks refl

abbrev some_work : Work
some_work = record { function = 1; arg = 2 }

-- after one call of `Schedule`
abbrev scheduled_one : Run World
scheduled_one = record {
  env = record at_start {
    os = (ready, codes "abc");
    started_bgthread = true;
    queue = some_work ∷ [];
  };
  done = [];
  scheduled = some_work ∷ [];
}

schedule_one : schedule system some_work at_start ≡ some (tt, scheduled_one.env)
unfolding schedule
schedule_one = refl

fresh : Reach system threads (record { env = at_start; done = []; scheduled = [] })
unfolding new_posix_env
fresh = start (idle, codes "abc") refl

reach_one : Reach system threads scheduled_one
reach_one = next fresh (schedules _ some_work scheduled_one.env schedule_one)

Reach-IsConsistent_example :
    (ph : Phase) × (ready ≡ ph)
    × IsSettled ph true (some_work ∷ [])
    × IsOrdered ph (some_work ∷ []) [] (some_work ∷ [])
Reach-IsConsistent_example = Reach-IsConsistent system threads reach_one

advance-done_example :
    (k : ℕ) × (r' : Run World) × (advance system threads k scheduled_one ≡ some r')
    × (r'.done ≡ some_work ∷ [])
    × (k ≤ 2 * 1 + 1)
advance-done_example = advance-done system threads reach_one

none_left : (xs : List ℕ) → length xs ≡ 0 → empty xs ≡ true
unfolding empty
none_left [] h = refl
none_left (x ∷ xs) h = absurd (omega arith)

stream : (file : ℕ) → IsStream system (λ w. w.1) file
stream file = record {
  gives = λ n w. refl;
  leaves = λ n w. refl;
  ends = λ n w h. none_left (drop n w.1) (ground (arith, length-drop n w.1, length-take n w.1));
}

abbrev opens : Option ℕ
opens = some 3

read_file_to_string-posix_env_example :
    (s : Status) × (text : List ℕ) × (st' : State World) × (read_file_to_string 2
        (posix_env system 1)
        (codes "f")
        at_start
      ≡ some ((s, text), st'))
    × ((opens ≡ none) × (ok s ≡ false) × (text ≡ [])
        ⊎ ((file : ℕ) × (opens ≡ some file) × (ok s ≡ true) × (text ≡ codes "abc")))
read_file_to_string-posix_env_example =
    read_file_to_string-posix_env system short (codes "f") (omega arith) (λ file w. w.1) 2 1
      at_start stream (λ file e. omega arith)

-- what `Skip` makes of 2^64 - 3: three bytes back
to_long_run : to_long (2 ^ 64 - 3) ≡ negsuc 2
unfolding to_long
to_long_run = refl
