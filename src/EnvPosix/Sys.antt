-- ===== src/EnvPosix/Sys.antt =====
-- What db/Env_posix.cpp takes from the system, and the state that `PosixEnv` keeps.
use releveldb.Base.{
  ℕ, ◌+◌, ◌-◌, ◌^◌, ltb, List, [], ◌∷◌, Option, some, Bool, true, false, ◌==◌, if◌then◌else◌,
}
use releveldb.Act.{Act, ◌>>=◌, pure, lift}
use releveldb.Slice.{Slice, from_c_string, ◌==s◌}
use releveldb.Status.{Status, ok_status, io_error}
use releveldb.Env.{Name, Work}

-- a signed long
pub data ℤ : Type 0 where
  pos : ℕ → ℤ
  negsuc : ℕ → ℤ

-- a uint64_t as the long of 64 bits that it converts to
unfoldable pub to_long : ℕ → ℤ
to_long n = if ltb n (2 ^ 63) then pos n else negsuc (2 ^ 64 - 1 - n)

-- `struct flock`
pub record Flock : Type 0 where
  pub l_type : ℕ
  pub l_whence : ℕ
  pub l_start : ℕ
  pub l_len : ℕ

-- The calls on a state `W` of the system. A pointer or a descriptor is a number; the answer NULL,
-- MAP_FAILED or a negative one is `none`, and the answer of a call that only tells whether it
-- failed is true if it did.
pub record Posix (W : Type 0) : Type 0 where
  pub errno : W → ℕ
  pub clear_errno : W → W
  pub strerror : ℕ → List ℕ
  pub einval : ℕ
  pub f_wrlck : ℕ
  pub f_unlck : ℕ
  pub seek_set : ℕ
  pub fopen : Name → List ℕ → W → Option ℕ × W
  pub fread : ℕ → ℕ → W → List ℕ × W
  pub feof : ℕ → W → Bool
  pub fseek : ℕ → ℤ → W → Bool × W
  pub fwrite : Slice → ℕ → W → ℕ × W
  pub fflush : ℕ → W → Bool × W
  pub fclose : ℕ → W → Bool × W
  pub fileno : ℕ → W → ℕ
  pub fsync : ℕ → W → Bool × W
  pub open_rdonly : Name → W → Option ℕ × W
  pub open_rdwr_creat : Name → W → Option ℕ × W
  pub close : ℕ → W → W
  pub pread : ℕ → ℕ → ℕ → W → Option (List ℕ) × W
  pub mmap : ℕ → ℕ → W → Option ℕ × W
  pub munmap : ℕ → ℕ → W → W
  pub mapped : ℕ → W → List ℕ
  pub access : Name → W → Bool × W
  pub unlink : Name → W → Bool × W
  pub mkdir : Name → W → Bool × W
  pub rmdir : Name → W → Bool × W
  pub rename : Name → Name → W → Bool × W
  pub stat : Name → W → Option ℕ × W
  pub opendir : Name → W → Option ℕ × W
  pub readdir : ℕ → W → Option Name × W
  pub closedir : ℕ → W → W
  pub fcntl : ℕ → Flock → W → Bool × W
  pub getenv : List ℕ → W → Option (List ℕ)
  pub print_test_dir : W → List ℕ
  pub usleep : ℕ → W → W
  pub log_header : W → List ℕ × W
  pub gettimeofday : W → (ℕ × ℕ) × W
  pub pthread_create : Work → W → W
  pub pthread_cond_signal : W → W

-- `PosixEnv`'s members, with the system. `files` has the `file_` of each `PosixWritableFile` made
-- so far, which is NULL, `none`, once it is closed.
pub record State (W : Type 0) : Type 0 where
  pub os : W
  pub locked_files : List Name
  pub allowed : ℕ
  pub files : List (Option ℕ)
  pub started_bgthread : Bool
  pub queue : List Work

-- `c_str()`, as far as a C function reads it
abbrev pub c_str : Name → List ℕ
c_str = from_c_string

-- `PosixLockTable`, whose set is the list of its elements
unfoldable pub held : Name → List Name → Bool
held name [] = false
held name (n ∷ ns) = elim (n ==s name) [ true ↦ true | false ↦ held name ns ]

unfoldable pub erased : Name → List Name → List Name
erased name [] = []
erased name (n ∷ ns) = let rest = erased name ns in if n ==s name then rest else n ∷ rest

module _ {W : Type 0} where
  abbrev pub call : {A : Type 0} → (W → A × W) → Act (State W) A
  call f st = let (a, w) = f st.os in some (a, record st { os = w })

  abbrev pub run : (W → W) → Act (State W) (Unit {0})
  run f st = some (tt, record st { os = f st.os })

  abbrev pub ask : {A : Type 0} → (W → A) → Act (State W) A
  ask f st = some (f st.os, st)

  module _ (p : Posix W) where
    -- `IOError(context, errno)`, and with another error number
    unfoldable pub io_error_of : List ℕ → ℕ → Act (State W) Status
    io_error_of context err_number = lift (io_error context (p.strerror err_number))

    unfoldable pub io_error_now : List ℕ → Act (State W) Status
    unfolding io_error_of
    io_error_now context = do err_number ← ask p.errno; io_error_of context err_number

    -- the status of a call that tells whether it failed
    unfoldable pub status_if : Bool → List ℕ → Act (State W) Status
    unfolding io_error_now
    status_if failed context = if failed then io_error_now context else pure ok_status

  -- `MmapLimiter`; the two tests of `Acquire` stand before and behind the lock.
  unfoldable pub acquire : Act (State W) Bool
  acquire st =
      if st.allowed == 0
      then some (false, st)
      else let x = st.allowed in
        if x == 0 then some (false, st) else some (true, record st { allowed = x - 1 })

  unfoldable pub release : Act (State W) (Unit {0})
  release st = some (tt, record st { allowed = st.allowed + 1 })

  unfoldable pub insert_lock : Name → Act (State W) Bool
  unfolding held
  insert_lock name st =
      if held name st.locked_files
      then some (false, st)
      else some (true, record st { locked_files = name ∷ st.locked_files })

  unfoldable pub remove_lock : Name → Act (State W) (Unit {0})
  unfolding erased
  remove_lock name st = some (tt, record st { locked_files = erased name st.locked_files })
