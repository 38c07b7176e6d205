-- ===== src/EnvPosix/Tests/Disk.antt =====
-- A string written to a file on a small system and read back.
use releveldb.Base.{
  ℕ, List, [], ◌∷◌, ◌++◌, codes, Option, none, some, true, false, ◌==◌, if◌then◌else◌, length, take,
  drop,
}
use releveldb.Slice.{empty}
use releveldb.Status.{Status}
use releveldb.Env.{Name}
use releveldb.EnvPosix.Sys.{Posix, State}

-- The one file's name and contents, and what is left to read of it.
record Disk : Type 0 where
  named : Name
  stored : Option (List ℕ)
  left : List ℕ

abbrev joined : Option (List ℕ) → List ℕ → Option (List ℕ)
joined none bytes = none
joined (some old) bytes = some (old ++ bytes)

abbrev bytes_of : Option (List ℕ) → List ℕ
bytes_of none = []
bytes_of (some bytes) = bytes

abbrev opens_in : List ℕ → Name → Disk → Disk
opens_in [] name w = w
opens_in (c ∷ mode) name w =
    if c == b'w'
    then record { named = name; stored = some []; left = [] }
    else record w { left = bytes_of w.stored }

abbrev one_file : Posix Disk
one_file = record {
  errno = λ w. 2;
  clear_errno = λ w. w;
  strerror = λ e. codes "error";
  einval = 22;
  f_wrlck = 1;
  f_unlck = 2;
  seek_set = 0;
  fopen = λ name mode w. (some 3, opens_in mode name w);
  fread = λ file n w. (take n w.left, record w { left = drop n w.left });
  feof = λ file w. empty w.left;
  fseek = λ file n w. (true, w);
  fwrite = λ bytes file w. (length bytes, record w { stored = joined w.stored bytes });
  fflush = λ file w. (false, w);
  fclose = λ file w. (false, w);
  fileno = λ file w. 4;
  fsync = λ fd w. (false, w);
  open_rdonly = λ name w. (none, w);
  open_rdwr_creat = λ name w. (none, w);
  close = λ fd w. w;
  pread = λ fd n offset w. (none, w);
  mmap = λ size fd w. (none, w);
  munmap = λ base size w. w;
  mapped = λ base w. [];
  access = λ name w. (false, w);
  unlink = λ name w. (false, record w { stored = none });
  mkdir = λ name w. (true, w);
  rmdir = λ name w. (true, w);
  rename = λ src target w. (true, w);
  stat = λ name w. (none, w);
  opendir = λ name w. (none, w);
  readdir = λ d w. (none, w);
  closedir = λ d w. w;
  fcntl = λ fd lock w. (true, w);
  getenv = λ name w. none;
  print_test_dir = λ w. codes "/tmp";
  usleep = λ micros w. w;
  log_header = λ w. (codes "now ", w);
  gettimeofday = λ w. ((1, 2), w);
  pthread_create = λ work w. w;
  pthread_cond_signal = λ w. w;
}

abbrev on_disk : Disk → Name → Option (List ℕ)
on_disk w name = w.stored

abbrev written_by : Disk → ℕ → Option Name
written_by w file = some w.named

abbrev to_read : ℕ → Disk → List ℕ
to_read file w = w.left

abbrev at_start : State Disk
at_start = record {
  os = record { named = []; stored = none; left = [] };
  locked_files = [];
  allowed = 1000;
  files = [];
  started_bgthread = false;
  queue = [];
}
