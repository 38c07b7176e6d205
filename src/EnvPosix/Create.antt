-- ===== src/EnvPosix/Create.antt =====
-- `WriteStringToFile` on `PosixEnv`.
use releveldb.Base.{
  ℕ, ◌≡◌, refl, sym, ◌∙◌, ◌⊎◌, inl, inr, arith, List, [], ◌∷◌, ◌++◌, codes, Option, Option-cases,
  none, some, Bool, true, false, not, length,
}
use releveldb.Act.{◌>>=◌}
use releveldb.Slice.{Slice}
use releveldb.Status.{Status, ok, ok_status}
use releveldb.Env.{Name, WritableFile, do_write_string_to_file}
use releveldb.Env.Write.{IsWriter, WritesTo, do_write_string_to_file_lem}
use releveldb.EnvPosix.Sys.{Posix, State, c_str}
use releveldb.EnvPosix.Files.{posix_writable_file}
use releveldb.EnvPosix.Operations.{delete_file, posix_env}
use releveldb.EnvPosix.Opening.{new_file, new_writable_file}
use releveldb.EnvPosix.Errors.{IsShort, HasShortErrors, io_error_now_lem, status_if_lem}
use releveldb.EnvPosix.Writer.{IsFileSystem, get_elem?-append_end}
use releveldb.EnvPosix.Store.{content, IsOpen, IsShut, IsLive, posix_writable_file-IsWriter}

module _ {W : Type 0} (p : Posix W) (short : HasShortErrors p) (disk : W → Name → Option (List ℕ))
    (stream : W → ℕ → Option Name) (fs : IsFileSystem p disk stream) where
  -- `NewWritableFile` of `PosixEnv`
  opened_file :
      (name : Name) (name_short : IsShort name) (st : State W)
      → (s : Status) × (file : Option (WritableFile (State W))) × (st' : State W)
        × (new_writable_file p name st ≡ some ((s, file), st'))
        × (ok s ≡ true
            → (f : WritableFile (State W)) × (IsOpen : State W → Type 0) × (IsShut : State W
                → Type 0)
              × (IsLive : State W → Type 0) × (file ≡ some f)
              × (content p short disk stream fs st' name ≡ some [])
              × IsOpen st'
              × IsWriter (content p short disk stream fs) IsOpen IsShut IsLive name f)
  opened_file name name_short st =
      let w : W = (p.fopen (c_str name) (codes "w") st.os).1 in
      elim (Option-cases (p.fopen (c_str name) (codes "w") st.os).0) [
        | inl e ↦
            let (s, made, bad) =
              io_error_now_lem p short name (record st { os = w }) (omega (arith, name_short)) in
            (
              s,
              none,
              record st { os = w },
              unfold new_writable_file new_file in rw e (rw (made, ◌>>=◌) refl),
              λ h. absurd (ground (arith, sym bad ∙ h)),
            )
        | inr (file, e) ↦
            let (str, empty) = fs.creates (c_str name) st.os file e in
            let id : ℕ = length st.files in
            (
              ok_status,
              some (posix_writable_file p name id),
              record st { os = w; files = st.files ++ (some file ∷ []) },
              unfold new_writable_file new_file in rw e refl,
              λ h. (
                posix_writable_file p name id,
                IsOpen p short disk stream fs name name_short id,
                IsShut p short disk stream fs name name_short id,
                IsLive p short disk stream fs name name_short id,
                refl,
                empty,
                (file, get_elem?-append_end st.files (some file), str),
                posix_writable_file-IsWriter p short disk stream fs name name_short id,
              ),
            )
      ]

  removed_file :
      (name : Name) (name_short : IsShort name) (st : State W)
      → (s : Status) × (st' : State W) × (delete_file p name st ≡ some (s, st'))
        × (ok s ≡ true → content p short disk stream fs st' name ≡ none)
  removed_file name name_short st =
      let w : W = (p.unlink (c_str name) st.os).1 in
      let (s, made, good) =
        status_if_lem p short (p.unlink (c_str name) st.os).0 name (record st { os = w })
          (omega (arith, name_short)) in
      (
        s,
        record st { os = w },
        unfold delete_file in made,
        λ h.
            fs.unlinks (c_str name) st.os (answered (p.unlink (c_str name) st.os).0 (sym good ∙ h)),
      )
    where
      answered : (b : Bool) → not b ≡ true → b ≡ false
      answered b h = ground arith

  posix_env-WritesTo :
      (children : ℕ) (name : Name)
      → IsShort name
      → WritesTo (content p short disk stream fs) (posix_env p children) name
  unfolding posix_env
  posix_env-WritesTo children name name_short = record {
    creates = opened_file name name_short;
    removes = removed_file name name_short;
  }

  -- On `PosixEnv`, whatever the system answers, writing a string to a file returns, with or without
  -- `Sync`. If the status is ok the file holds exactly the string; if it is not, either the file was
  -- not opened or the last call was to delete it.
  pub do_write_string_to_file-posix_env :
      (children : ℕ) (bytes : Slice) (name : Name) (name_short : IsShort name) (should_sync : Bool)
      (st : State W)
      → (s : Status) × (st' : State W) × (do_write_string_to_file
            (posix_env p children)
            bytes
            name
            should_sync
            st
          ≡ some (s, st'))
        × (ok s ≡ true → disk st'.os (c_str name) ≡ some bytes)
        × (ok s ≡ false
            → ((file : Option (WritableFile (State W))) × (new_writable_file p name st
                  ≡ some ((s, file), st')))
              ⊎ ((before : State W) × (d : Status) × (delete_file p name before ≡ some (d, st'))
                  × (ok d ≡ true → disk st'.os (c_str name) ≡ none)))
  unfolding posix_env
  do_write_string_to_file-posix_env children bytes name name_short should_sync st =
      do_write_string_to_file_lem (content p short disk stream fs) (posix_env p children) name
        (posix_env-WritesTo children name name_short) bytes should_sync st
