-- ===== src/EnvPosix/Whole.antt =====
-- `ReadFileToString` of db/Env.cpp on the files of `PosixEnv`.
use releveldb.Base.{
  ℕ, ◌+◌, ◌*◌, ◌≤◌, ◌≡◌, refl, ◌⊎◌, inl, inr, arith, List, [], codes, Option, Option-cases, none,
  some, true, false, Bool-cases, ltb, length, take, drop,
}
use releveldb.Act.{◌>>=◌}
use releveldb.Status.{Status, ok, ok_status}
use releveldb.Env.{Name, k_buffer_size, read_file_to_string}
use releveldb.Env.ReadAll.{ReadsFrom, read_file_to_string_all}
use releveldb.EnvPosix.Sys.{Posix, State, c_str}
use releveldb.EnvPosix.Files.{sequential_read, posix_sequential_file}
use releveldb.EnvPosix.Operations.{posix_env}
use releveldb.EnvPosix.Opening.{new_sequential_file}
use releveldb.EnvPosix.Errors.{IsShort, HasShortErrors, io_error_now_lem}

-- A stream that is read without an error: `fread` gives what is left, up to the number asked for,
-- and has met the end of the file if it gives less.
pub record IsStream {W : Type 0} (p : Posix W) (rest : W → List ℕ) (file : ℕ) : Type 0 where
  pub gives : (n : ℕ) (w : W) → (p.fread file n w).0 ≡ take n (rest w)
  pub leaves : (n : ℕ) (w : W) → rest (p.fread file n w).1 ≡ drop n (rest w)
  pub ends :
      (n : ℕ) (w : W)
      → ltb (length (p.fread file n w).0) n ≡ true
      → p.feof file (p.fread file n w).1 ≡ true

module _ {W : Type 0} (p : Posix W) (name : Name) where
  sequential_read_lem :
      (rest : W → List ℕ) (file n : ℕ) (st : State W)
      → IsStream p rest file
      → sequential_read p name file n st
        ≡ some ((ok_status, take n (rest st.os)), record st { os = (p.fread file n st.os).1 })
  sequential_read_lem rest file n st law =
      elim (Bool-cases (ltb (length (p.fread file n st.os).0) n)) [
        | inl less ↦
            unfold sequential_read in rw (less, law.ends n st.os less, law.gives n st.os) refl
        | inr all ↦ unfold sequential_read in rw (all, law.gives n st.os) refl
      ]

  posix_sequential_file-ReadsFrom :
      (rest : W → List ℕ) (file : ℕ)
      → IsStream p rest file
      → ReadsFrom (posix_sequential_file p name file) (λ st. rest st.os)
  posix_sequential_file-ReadsFrom rest file law = record {
    reads = λ n st h. (
      ok_status,
      record st { os = (p.fread file n st.os).1 },
      unfold posix_sequential_file in sequential_read_lem rest file n st law,
      unfold ok ok_status in refl,
      law.leaves n st.os,
    );
    deletes =
        λ st. (record st { os = (p.fclose file st.os).1 }, unfold posix_sequential_file in refl);
  }

module _ {W : Type 0} (p : Posix W) (short : HasShortErrors p) (name : Name)
    (name_short : IsShort name) where
  abbrev pub opened : State W → Option ℕ × W
  opened st = p.fopen (c_str name) (codes "r") st.os

  refused :
      (fuel children : ℕ) (st : State W)
      → (opened st).0 ≡ none
      → (s : Status) × (st' : State W) × (read_file_to_string fuel (posix_env p children) name st
          ≡ some ((s, []), st'))
        × (ok s ≡ false)
  refused fuel children st e =
      let st1 : State W = record st { os = (opened st).1 } in
      let (s, made, bad) = io_error_now_lem p short name st1 (omega arith) in
      (
        s,
        st1,
        unfold read_file_to_string posix_env new_sequential_file in
            rw e (rw (made, ◌>>=◌) (rw bad refl)),
        bad,
      )

  -- With a stream that is read without an error for each open file, a name and messages below 2^16
  -- bytes, and a round for each 8192 bytes and one more, `ReadFileToString` on `PosixEnv` returns:
  -- the whole contents and ok if the file opens, and no text and an error if it does not.
  pub read_file_to_string-posix_env :
      (rest : ℕ → W → List ℕ) (fuel children : ℕ) (st : State W)
      → ((file : ℕ) → IsStream p (rest file) file)
      → ((file : ℕ)
          → (opened st).0 ≡ some file
          → length (rest file (opened st).1) + k_buffer_size ≤ k_buffer_size * fuel)
      → (s : Status) × (text : List ℕ) × (st' : State W) × (read_file_to_string fuel
            (posix_env p children)
            name
            st
          ≡ some ((s, text), st'))
        × (((opened st).0 ≡ none) × (ok s ≡ false) × (text ≡ [])
            ⊎ ((file : ℕ) × ((opened st).0 ≡ some file)
                × (ok s ≡ true)
                × (text ≡ rest file (opened st).1)))
  read_file_to_string-posix_env rest fuel children st law enough =
      elim (Option-cases (opened st).0) [
        | inl e ↦
            let (s, st', ran, bad) = refused fuel children st e in
            (s, [], st', ran, inl (e, bad, refl))
        | inr (file, e) ↦
            let st1 : State W = record st { os = (opened st).1 } in
            let (s, st', ran, good) =
              read_file_to_string_all (posix_env p children) name
                (posix_sequential_file p name file) (λ now. rest file now.os) ok_status st st1 fuel
                (posix_sequential_file-ReadsFrom p name (rest file) file (law file))
                (unfold posix_env new_sequential_file in rw e refl) (unfold ok ok_status in refl)
                (enough file e) in
            (s, rest file (opened st).1, st', ran, inr (file, e, good, refl))
      ]
