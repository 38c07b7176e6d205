-- ===== src/EnvPosix/Store.antt =====
-- `PosixWritableFile` is a writer with the laws of Env/Write.
use releveldb.Base.{
  ℕ, zero, suc, ◌<◌, ◌≡◌, refl, sym, ap, ◌∙◌, inl, inr, arith, List, [], ◌∷◌, ◌++◌, Option, none,
  some, Bool, true, false, not, ◌==◌, Bool-cases, length, set, get_elem?, get_elem?-set_self,
}
use releveldb.Act.{◌>>=◌}
use releveldb.Status.{Status, ok}
use releveldb.Env.{Name}
use releveldb.Env.Write.{Takes, IsWriter}
use releveldb.EnvPosix.Sys.{Posix, State, c_str}
use releveldb.EnvPosix.Files.{
  file_of, writable_append, writable_close, sync_dir_if_manifest, writable_sync, writable_delete,
  posix_writable_file,
}
use releveldb.EnvPosix.Errors.{IsShort, HasShortErrors, io_error_now_lem, status_if_lem}
use releveldb.EnvPosix.Writer.{IsFileSystem, sync_dir_if_manifest_lem}

module _ {W : Type 0} (p : Posix W) (short : HasShortErrors p) (disk : W → Name → Option (List ℕ))
    (stream : W → ℕ → Option Name) (fs : IsFileSystem p disk stream) where
  abbrev pub content : State W → Name → Option (List ℕ)
  content st name = disk st.os (c_str name)

  module _ (name : Name) (name_short : IsShort name) (id : ℕ) where
    abbrev pub IsOpen : State W → Type 0
    IsOpen st =
        (file : ℕ) × (get_elem? st.files id ≡ some (some file))
        × (stream st.os file ≡ some (c_str name))

    abbrev pub IsShut : State W → Type 0
    IsShut st = get_elem? st.files id ≡ some none

    abbrev pub IsLive : State W → Type 0
    IsLive st = (x : Option ℕ) × (get_elem? st.files id ≡ some x)

    abbrev Has : List ℕ → State W → Type 0
    Has c st = content st name ≡ some c

    abbrev found : State W → Option (Option ℕ) → Option (ℕ × State W)
    found st none = none
    found st (some none) = none
    found st (some (some file)) = some (file, st)

    file_of_lem :
        (st : State W) (file : ℕ)
        → get_elem? st.files id ≡ some (some file)
        → file_of p id st ≡ some (file, st)
    unfolding file_of
    file_of_lem st file e = ap (found st) e

    appended :
        (old new : List ℕ) (st : State W)
        → IsOpen st
        → Has old st
        → (s : Status) × (st' : State W) × (writable_append p name id new st ≡ some (s, st'))
          × IsOpen st'
          × (ok s ≡ true → Has (old ++ new) st')
    appended old new st (file, e, str) has =
        let w : W = (p.fwrite new file st.os).1 in
        let r : ℕ = (p.fwrite new file st.os).0 in
        let (s, made, good) =
          status_if_lem p short (not (r == length new)) name (record st { os = w })
            (omega (arith, name_short)) in
        let (str', grown) = fs.writes (c_str name) old new file st.os str has in
        (
          s,
          record st { os = w },
          unfold writable_append in rw (file_of_lem st file e, ◌>>=◌) made,
          (file, e, str'),
          λ h. grown (all_written r (length new) (sym good ∙ h)),
        )
      where
        all_written : (r n : ℕ) → not (not (r == n)) ≡ true → r ≡ n
        all_written r n h = ground arith

    closed :
        (c : List ℕ)
        → Takes IsOpen IsLive (Has c) (λ st. IsShut st × Has c st) (writable_close p name id)
    closed c st (file, e, str) has =
        let w : W = (p.fclose file st.os).1 in
        let (s, made, good) =
          status_if_lem p short (p.fclose file st.os).0 name (record st { os = w })
            (omega (arith, name_short)) in
        let shut : get_elem? (set st.files id none) id ≡ some none =
          get_elem?-set_self st.files id none (in_range st.files id (some file) e) in
        (
          s,
          record st { os = w; files = set st.files id none },
          unfold writable_close in rw (file_of_lem st file e, ◌>>=◌) (rw (made, ◌>>=◌) refl),
          (none, shut),
          λ h. (
            shut,
            fs.closes file st.os (closes_well (p.fclose file st.os).0 (sym good ∙ h)) (c_str name)
                ∙ has,
          ),
        )
      where
        closes_well : (b : Bool) → not b ≡ true → b ≡ false
        closes_well b h = ground arith

        in_range :
            {A : Type 0} (xs : List A) (i : ℕ) (x : A) → get_elem? xs i ≡ some x → i < length xs
        in_range [] i x h = absurd (ground arith)
        in_range (y ∷ xs) zero x h = omega arith
        in_range (y ∷ xs) (suc i) x h = omega (arith, in_range xs i x h)

    -- the destructor, for the entry that it finds
    abbrev deleting : State W → Option (Option ℕ) → Option (Unit {0} × State W)
    deleting st none = none
    deleting st (some none) = some (tt, st)
    deleting st (some (some file)) = some (tt, record st { os = (p.fclose file st.os).1 })

    deleted :
        (st : State W)
        → IsLive st
        → (st' : State W) × (writable_delete p id st ≡ some (tt, st'))
          × (IsShut st → content st' name ≡ content st name)
    deleted st (none, e) = (st, unfold writable_delete in ap (deleting st) e, λ h. refl)
    deleted st (some file, e) = (
      record st { os = (p.fclose file st.os).1 },
      unfold writable_delete in ap (deleting st) e,
      λ h. absurd (ground (arith, sym e ∙ h)),
    )

    -- `Sync` behind the part about the directory
    abbrev Synced : List ℕ → State W → Type 0
    Synced c st =
        (s : Status) × (st' : State W) × (writable_sync p name id st ≡ some (s, st'))
        × IsOpen st'
        × (ok s ≡ true → Has c st')

    synced : (c : List ℕ) → Takes IsOpen IsOpen (Has c) (Has c) (writable_sync p name id)
    synced c st (file, e, str) has =
        let (s, w, ran, same) =
          sync_dir_if_manifest_lem p short disk stream fs name st name_short in
        elim (Bool-cases (ok s)) [
          | inr bad ↦ (
            s,
            record st { os = w },
            unfold writable_sync in rw (ran, ◌>>=◌) (rw bad refl),
            (file, e, same.0 file ∙ str),
            λ h. same.1 (c_str name) ∙ has,
          )
          | inl good ↦ flushed s w ran good (same.0 file ∙ str) (same.1 (c_str name) ∙ has)
        ]
      where
        flushed :
            (s : Status) (w : W)
            → sync_dir_if_manifest p name st ≡ some (s, record st { os = w })
            → ok s ≡ true
            → stream w file ≡ some (c_str name)
            → disk w (c_str name) ≡ some c
            → Synced c st
        flushed s w ran good str' has' =
            let w1 : W = (p.fflush file w).1 in
            let w2 : W = (p.fsync (p.fileno file w1) w1).1 in
            let at : file_of p id (record st { os = w }) ≡ some (file, record st { os = w }) =
              file_of_lem (record st { os = w }) file e in
            elim (Bool-cases (p.fflush file w).0) [
              | inl f ↦
                  let (s', made, bad) =
                    io_error_now_lem p short name (record st { os = w1 })
                      (omega (arith, name_short)) in
                  (
                    s',
                    record st { os = w1 },
                    unfold writable_sync in rw (ran, ◌>>=◌) (rw good (rw (at, ◌>>=◌) (rw f made))),
                    (file, e, (fs.flushes file w).0 file ∙ str'),
                    λ h. absurd (ground (arith, sym bad ∙ h)),
                  )
              | inr f ↦ elim (Bool-cases (p.fsync (p.fileno file w1) w1).0) [
                | inl g ↦
                    let (s', made, bad) =
                      io_error_now_lem p short name (record st { os = w2 })
                        (omega (arith, name_short)) in
                    (
                      s',
                      record st { os = w2 },
                      unfold writable_sync in
                          rw (ran, ◌>>=◌) (rw good (rw (at, ◌>>=◌) (rw f (rw g made)))),
                      (
                        file,
                        e,
                        (fs.syncs (p.fileno file w1) w1).0 file ∙ (fs.flushes file w).0 file ∙ str',
                      ),
                      λ h. absurd (ground (arith, sym bad ∙ h)),
                    )
                | inr g ↦ (
                  s,
                  record st { os = w2 },
                  unfold writable_sync in
                      rw (ran, ◌>>=◌) (rw good (rw (at, ◌>>=◌) (rw f (rw g refl)))),
                  (
                    file,
                    e,
                    (fs.syncs (p.fileno file w1) w1).0 file ∙ (fs.flushes file w).0 file ∙ str',
                  ),
                  λ h.
                      (fs.syncs (p.fileno file w1) w1).1 (c_str name)
                      ∙ (fs.flushes file w).1 f (c_str name)
                      ∙ has',
                )
              ]
            ]

    pub posix_writable_file-IsWriter :
        IsWriter content IsOpen IsShut IsLive name (posix_writable_file p name id)
    unfolding posix_writable_file
    posix_writable_file-IsWriter = record {
      appends = appended;
      syncs = synced;
      closes = closed;
      lives = λ st o. (some o.0, o.1);
      deletes = deleted;
    }
