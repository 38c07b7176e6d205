-- ===== src/EnvPosix/RoundTrip.antt =====
-- `WriteStringToFile` and then `ReadFileToString` on `PosixEnv`.
use releveldb.Base.{ℕ, ◌≡◌, List, codes, Option, some, true}
use releveldb.Slice.{Slice}
use releveldb.Status.{Status, ok}
use releveldb.Env.{Name, read_file_to_string}
use releveldb.EnvPosix.Sys.{Posix, State}
use releveldb.EnvPosix.Operations.{posix_env}
use releveldb.EnvPosix.Errors.{IsShort, HasShortErrors}
use releveldb.EnvPosix.Writer.{IsFileSystem}
use releveldb.EnvPosix.Whole.{IsStream}

-- A file opened for reading has its contents on disk to read.
abbrev pub ReadsDisk :
    {W : Type 0} → Posix W → (W → Name → Option (List ℕ)) → (ℕ → W → List ℕ) → Type 0
ReadsDisk {W} p disk rest =
    (name : Name) (w : W) (file : ℕ) (bytes : List ℕ)
    → disk w name ≡ some bytes
    → (p.fopen name (codes "r") w).0 ≡ some file
    → rest file (p.fopen name (codes "r") w).1 ≡ bytes

module _ {W : Type 0} (p : Posix W) (short : HasShortErrors p) (disk : W → Name → Option (List ℕ))
    (stream : W → ℕ → Option Name) (rest : ℕ → W → List ℕ) (fs : IsFileSystem p disk stream)
    (streams : (file : ℕ) → IsStream p (rest file) file) (reads : ReadsDisk p disk rest)
    (name : Name) (name_short : IsShort name) where
  -- what reading gives after the bytes were written
  Reads : ℕ → ℕ → Slice → State W → Type 0
  Reads fuel children bytes st =
      (s : Status) × (text : List ℕ) × (st' : State W) × (read_file_to_string fuel
          (posix_env p children) name st
        ≡ some ((s, text), st'))
      × (ok s ≡ true → text ≡ bytes)
