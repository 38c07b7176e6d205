-- ===== src/EnvPosix/Writer.antt =====
-- `PosixWritableFile` as a writer with the laws of Env/Write, and `WriteStringToFile` on `PosixEnv`.
use releveldb.Base.{
  ℕ, ◌+◌, ◌^◌, ◌≤◌, ◌<◌, ◌≡◌, refl, sym, subst, ap, ◌∙◌, inl, inr, arith, List, [], ◌∷◌, ◌++◌,
  codes, Option, Option-cases, none, some, false, ◌==◌, Bool-cases, length, get_elem?,
}
use releveldb.Act.{◌>>=◌}
use releveldb.Slice.{starts_with, from_c_string}
use releveldb.Status.{Status, ok_status}
use releveldb.Env.{Name}
use releveldb.EnvPosix.Sys.{Posix, State, c_str}
use releveldb.EnvPosix.Files.{last_slash, sync_dir, sync_dir_if_manifest, dir_and_base}
use releveldb.EnvPosix.Errors.{IsShort, HasShortErrors, io_error_now_lem, status_if_lem}

-- The files on disk, with what the streams buffer, and the names that the streams write to.
-- `fopen` for writing empties the file; `fwrite` appends what it says it wrote; flushing, syncing and
-- closing lose nothing if they report success; `unlink` removes the name.
pub record IsFileSystem {W : Type 0} (p : Posix W) (disk : W → Name → Option (List ℕ))
    (stream : W → ℕ → Option Name) : Type 0 where
  pub creates :
      (name : Name) (w : W) (file : ℕ)
      → (p.fopen name (codes "w") w).0 ≡ some file
      → (stream (p.fopen name (codes "w") w).1 file ≡ some name)
        × (disk (p.fopen name (codes "w") w).1 name ≡ some [])
  pub writes :
      (name : Name) (old bytes : List ℕ) (file : ℕ) (w : W)
      → stream w file ≡ some name
      → disk w name ≡ some old
      → (stream (p.fwrite bytes file w).1 file ≡ some name)
        × ((p.fwrite bytes file w).0 ≡ length bytes
            → disk (p.fwrite bytes file w).1 name ≡ some (old ++ bytes))
  pub flushes :
      (file : ℕ) (w : W)
      → ((f : ℕ) → stream (p.fflush file w).1 f ≡ stream w f)
        × ((p.fflush file w).0 ≡ false
            → (name : Name) → disk (p.fflush file w).1 name ≡ disk w name)
  pub syncs :
      (fd : ℕ) (w : W)
      → ((f : ℕ) → stream (p.fsync fd w).1 f ≡ stream w f)
        × ((name : Name) → disk (p.fsync fd w).1 name ≡ disk w name)
  pub opens :
      (dir : Name) (w : W)
      → ((f : ℕ) → stream (p.open_rdonly dir w).1 f ≡ stream w f)
        × ((name : Name) → disk (p.open_rdonly dir w).1 name ≡ disk w name)
  pub leaves :
      (fd : ℕ) (w : W)
      → ((f : ℕ) → stream (p.close fd w) f ≡ stream w f)
        × ((name : Name) → disk (p.close fd w) name ≡ disk w name)
  pub closes :
      (file : ℕ) (w : W)
      → (p.fclose file w).0 ≡ false
      → (name : Name) → disk (p.fclose file w).1 name ≡ disk w name
  pub unlinks :
      (name : Name) (w : W) → (p.unlink name w).0 ≡ false → disk (p.unlink name w).1 name ≡ none

length-c_str : (name : Name) → length (c_str name) ≤ length name
unfolding from_c_string
length-c_str [] = omega arith
length-c_str (c ∷ name) = ground (arith, length-c_str name)

abbrev dir_length : Option (List ℕ × List ℕ) → ℕ
dir_length none = 0
dir_length (some parts) = length parts.0

dir_length-last_slash : (s : List ℕ) → dir_length (last_slash s) ≤ length s
unfolding last_slash
dir_length-last_slash [] = omega arith
dir_length-last_slash (c ∷ s) = elim (Option-cases (last_slash s)) [
  | inl e ↦ elim (Bool-cases (c == b'/')) [
    | inl h ↦ rw (e, h) (omega arith)
    | inr h ↦ rw (e, h) (omega arith)
  ]
  | inr (parts, e) ↦ rw e (omega (arith, dir_length-last_slash s, ap dir_length e))
]

abbrev chosen : List ℕ → Option (List ℕ × List ℕ) → List ℕ × List ℕ
chosen s none = (codes ".", s)
chosen s (some parts) = parts

module _ {W : Type 0} (p : Posix W) where
  length-dir_and_base : (s : List ℕ) → length (dir_and_base p s).0 ≤ length s + 1
  length-dir_and_base s = elim (Option-cases (last_slash s)) [
    | inl e ↦ subst (λ o. length (chosen s o).0 ≤ length s + 1) (sym e) (omega arith)
    | inr (parts, e) ↦
        subst (λ o. length (chosen s o).0 ≤ length s + 1) (sym e)
          (omega (arith, dir_length-last_slash s, ap dir_length e))
  ]

pub get_elem?-append_end :
    {A : Type 0} (xs : List A) (v : A) → get_elem? (xs ++ (v ∷ [])) (length xs) ≡ some v
get_elem?-append_end [] v = refl
get_elem?-append_end (x ∷ xs) v = get_elem?-append_end xs v

module _ {W : Type 0} (p : Posix W) (short : HasShortErrors p) (disk : W → Name → Option (List ℕ))
    (stream : W → ℕ → Option Name) (fs : IsFileSystem p disk stream) where
  -- Nothing about files and streams is changed.
  abbrev pub Same : W → W → Type 0
  Same w w' = ((f : ℕ) → stream w' f ≡ stream w f) × ((name : Name) → disk w' name ≡ disk w name)

  pub Same-trans : (w w1 w2 : W) → Same w w1 → Same w1 w2 → Same w w2
  Same-trans w w1 w2 (s, d) (s', d') = (λ f. s' f ∙ s f, λ name. d' name ∙ d name)

  sync_dir_lem :
      (dir : Name) (st : State W)
      → length dir < 2 ^ 17
      → (s : Status) × (w : W) × (sync_dir p dir st ≡ some (s, record st { os = w })) × Same st.os w
  sync_dir_lem dir st h =
      let w1 : W = (p.open_rdonly (c_str dir) st.os).1 in
      elim (Option-cases (p.open_rdonly (c_str dir) st.os).0) [
        | inl e ↦
            let (s, made, _) = io_error_now_lem p short dir (record st { os = w1 }) h in
            (s, w1, unfold sync_dir in rw e made, fs.opens (c_str dir) st.os)
        | inr (fd, e) ↦
            let w2 : W = (p.fsync fd w1).1 in
            let (s, made, _) =
              status_if_lem p short (p.fsync fd w1).0 dir (record st { os = w2 }) h in
            (
              s,
              p.close fd w2,
              unfold sync_dir in rw e (rw (made, ◌>>=◌) refl),
              Same-trans st.os w1 (p.close fd w2) (fs.opens (c_str dir) st.os)
                  (Same-trans w1 w2 (p.close fd w2) (fs.syncs fd w1) (fs.leaves fd w2)),
            )
      ]

  pub sync_dir_if_manifest_lem :
      (name : Name) (st : State W)
      → IsShort name
      → (s : Status) × (w : W) × (sync_dir_if_manifest p name st ≡ some (s, record st { os = w }))
        × Same st.os w
  sync_dir_if_manifest_lem name st h =
      let dir : Name = (dir_and_base p (c_str name)).0 in
      elim (Bool-cases (starts_with (dir_and_base p (c_str name)).1 (codes "MANIFEST"))) [
        | inl m ↦
            let (s, w, ran, same) =
              sync_dir_lem dir st
                (omega (arith, length-dir_and_base p (c_str name), length-c_str name, h)) in
            (s, w, unfold sync_dir_if_manifest in rw m ran, same)
        | inr m ↦
            (ok_status, st.os, unfold sync_dir_if_manifest in rw m refl, (λ f. refl, λ n. refl))
      ]
