-- ===== src/EnvPosix/Errors.antt =====
-- The statuses that the operations of `PosixEnv` make of a system error.
use releveldb.Base.{ℕ, ◌^◌, ◌<◌, ◌≡◌, refl, arith, some, Bool, true, false, not, List, length}
use releveldb.Status.{Status, ok, ok_status}
use releveldb.Status.Message.{io_error_lem}
use releveldb.EnvPosix.Sys.{Posix, State, io_error_of, io_error_now, status_if}

-- The system's messages are short, and so is a name.
abbrev pub IsShort : List ℕ → Type 0
IsShort text = length text < 2 ^ 16

abbrev pub HasShortErrors : {W : Type 0} → Posix W → Type 0
HasShortErrors p = (e : ℕ) → IsShort (p.strerror e)

module _ {W : Type 0} (p : Posix W) (short : HasShortErrors p) where
  pub io_error_of_lem :
      (context : List ℕ) (e : ℕ) (st : State W)
      → length context < 2 ^ 17
      → (s : Status) × (io_error_of p context e st ≡ some (s, st)) × (ok s ≡ false)
  unfolding io_error_of
  io_error_of_lem context e st h =
      let (s, made, bad) = io_error_lem context (p.strerror e) (omega (arith, short e)) in
      (s, rw made refl, bad)

  pub io_error_now_lem :
      (context : List ℕ) (st : State W)
      → length context < 2 ^ 17
      → (s : Status) × (io_error_now p context st ≡ some (s, st)) × (ok s ≡ false)
  io_error_now_lem context st h =
      unfold io_error_now in io_error_of_lem context (p.errno st.os) st h

  pub status_if_lem :
      (failed : Bool) (context : List ℕ) (st : State W)
      → length context < 2 ^ 17
      → (s : Status) × (status_if p failed context st ≡ some (s, st)) × (ok s ≡ not failed)
  status_if_lem true context st h = unfold status_if in io_error_now_lem context st h
  status_if_lem false context st h =
      (ok_status, unfold status_if in refl, unfold ok ok_status in refl)
