-- ===== src/Env/Write.antt =====
-- `WriteStringToFile` and `WriteStringToFileSync` of db/Env.cpp.
use releveldb.Base.{
  ℕ, ◌≡◌, refl, ap, ◌∙◌, ◌⊎◌, inl, inr, List, [], ◌++◌, Option, none, some, Bool, true, false, ◌&&◌,
  if◌then◌else◌, Bool-cases,
}
use releveldb.Act.{Act, ◌>>=◌, pure}
use releveldb.Slice.{Slice}
use releveldb.Status.{Status, ok}
use releveldb.Env.{Name, WritableFile, Env, write_and_close, do_write_string_to_file}

-- An operation that may fail: it takes a file from `Q` to `Q'`, and a fact `P` of the state to `P'`
-- where it reports success.
abbrev pub Takes : {W : Type 0} → (Q Q' P P' : W → Type 0) → Act W Status → Type 0
Takes {W} Q Q' P P' op =
    (w : W)
    → Q w
    → P w
    → (s : Status) × (w' : W) × (op w ≡ some (s, w')) × Q' w' × (ok s ≡ true → P' w')

-- What db/Env.cpp relies on of a file that is open, of one that is closed, and of either: `content` is
-- what is written in each file, with what is still buffered. db/Env.h names the operations and says
-- nothing of what they do.
pub record IsWriter {W : Type 0} (content : W → Name → Option (List ℕ))
    (IsOpen IsShut IsLive : W → Type 0) (name : Name) (file : WritableFile W) : Type 0 where
  pub appends :
      (old new : List ℕ) (w : W)
      → IsOpen w
      → content w name ≡ some old
      → (s : Status) × (w' : W) × (file.append new w ≡ some (s, w'))
        × IsOpen w'
        × (ok s ≡ true → content w' name ≡ some (old ++ new))
  pub syncs :
      (c : List ℕ)
      → Takes IsOpen IsOpen (λ w. content w name ≡ some c) (λ w. content w name ≡ some c) file.sync
  pub closes :
      (c : List ℕ)
      → Takes IsOpen IsLive
          (λ w. content w name ≡ some c)
          (λ w. IsShut w × (content w name ≡ some c))
          file.close
  pub lives : (w : W) → IsOpen w → IsLive w
  pub deletes :
      (w : W)
      → IsLive w
      → (w' : W) × (file.delete w ≡ some (tt, w')) × (IsShut w → content w' name ≡ content w name)

-- What is open is up to the environment.
pub record WritesTo {W L : Type 0} (content : W → Name → Option (List ℕ)) (env : Env W L)
    (name : Name) : Type 1 where
  pub creates :
      (w : W)
      → (s : Status) × (file : Option (WritableFile W)) × (w' : W) × (env.new_writable_file name w
          ≡ some ((s, file), w'))
        × (ok s ≡ true
            → (f : WritableFile W) × (IsOpen : W → Type 0) × (IsShut : W → Type 0) × (IsLive : W
                → Type 0)
              × (file ≡ some f)
              × (content w' name ≡ some [])
              × IsOpen w'
              × IsWriter content IsOpen IsShut IsLive name f)
  pub removes :
      (w : W)
      → (s : Status) × (w' : W) × (env.delete_file name w ≡ some (s, w'))
        × (ok s ≡ true → content w' name ≡ none)

-- A step that is only taken if the status before it is ok.
step_if_ok :
    {W : Type 0} (Q Q' P P' : W → Type 0) (op : Act W Status) (b : Bool) (s : Status) (w : W)
    → Takes Q Q' P P' op
    → ((w : W) → Q w → Q' w)
    → (b ≡ false → ok s ≡ true → P w → P' w)
    → (b ≡ true → ok s ≡ true)
    → Q w
    → (ok s ≡ true → P w)
    → (s' : Status) × (w' : W) × ((if b then op else pure s) w ≡ some (s', w'))
      × Q' w'
      × (ok s' ≡ true → P' w')
step_if_ok Q Q' P P' op true s w takes weaker without h q p = takes w q (p (h refl))
step_if_ok Q Q' P P' op false s w takes weaker without h q p =
    (s, w, refl, weaker w q, λ o. without refl o (p o))

true_not_false : {A : Type 0} (b : Bool) → b ≡ true → b ≡ false → A
true_not_false b t f = cc

and_left : (a b : Bool) → (a && b) ≡ true → a ≡ true
and_left true b h = refl
and_left false b h = h

module _ {W : Type 0} (content : W → Name → Option (List ℕ)) (name : Name) (file : WritableFile W)
    (IsOpen IsShut IsLive : W → Type 0)
    (law : IsWriter content IsOpen IsShut IsLive name file) where
  abbrev Holds : List ℕ → W → Type 0
  Holds c w = content w name ≡ some c

  -- Writing and closing an empty file returns; where it reports success the file holds the bytes.
  pub write_and_close_lem :
      (bytes : Slice) (should_sync : Bool) (w : W)
      → IsOpen w
      → Holds [] w
      → (s : Status) × (w' : W) × (write_and_close file bytes should_sync w ≡ some (s, w'))
        × (ok s ≡ true → Holds bytes w')
  write_and_close_lem bytes should_sync w opened start =
      let (s1, w1, e1, q1, p1) = law.appends [] bytes w opened start in
      let (s2, w2, e2, q2, p2) =
        step_if_ok IsOpen IsOpen (Holds bytes) (Holds bytes) file.sync (ok s1 && should_sync) s1 w1
          (law.syncs bytes) (λ w q. q) (λ skipped o p. p) (and_left (ok s1) should_sync) q1 p1 in
      let (s3, w3, e3, q3, p3) =
        step_if_ok IsOpen IsLive (Holds bytes) (λ w. IsShut w × Holds bytes w) file.close (ok s2) s2
          w2 (law.closes bytes) law.lives (λ skipped o p. absurd (true_not_false (ok s2) o skipped))
          (λ h. h) q2 p2 in
      let (w4, e4, same) = law.deletes w3 q3 in
      (
        s3,
        w4,
        chain bytes should_sync w w1 w2 w3 w4 s1 s2 s3 e1 e2 e3 e4,
        λ h. same (p3 h).0 ∙ (p3 h).1,
      )
    where
      chain :
          (bytes : Slice) (should_sync : Bool) (w w1 w2 w3 w4 : W) (s1 s2 s3 : Status)
          → file.append bytes w ≡ some (s1, w1)
          → (if ok s1 && should_sync then file.sync else pure s1) w1 ≡ some (s2, w2)
          → (if ok s2 then file.close else pure s2) w2 ≡ some (s3, w3)
          → file.delete w3 ≡ some (tt, w4)
          → write_and_close file bytes should_sync w ≡ some (s3, w4)
      chain bytes should_sync w w1 w2 w3 w4 s1 s2 s3 e1 e2 e3 e4 =
          unfold write_and_close in
          rw (e1, ◌>>=◌) (rw (e2, ◌>>=◌) (rw (e3, ◌>>=◌) (rw (e4, ◌>>=◌) refl)))

module _ {W L : Type 0} (content : W → Name → Option (List ℕ)) (env : Env W L) (fname : Name)
    (fs : WritesTo content env fname) where
  -- the file could not be created
  abbrev pub NotCreated : W → Status → W → Type 0
  NotCreated w s w' =
      (file : Option (WritableFile W)) × (env.new_writable_file fname w ≡ some ((s, file), w'))

  -- the last step was to delete the file, which is gone if that reports success
  abbrev pub Deleted : W → Type 0
  Deleted w' =
      (before : W) × (d : Status) × (env.delete_file fname before ≡ some (d, w'))
      × (ok d ≡ true → content w' fname ≡ none)

  abbrev Outcome : Slice → Bool → W → Type 0
  Outcome bytes should_sync w =
      (s : Status) × (w' : W) × (do_write_string_to_file env bytes fname should_sync w
        ≡ some (s, w'))
      × (ok s ≡ true → content w' fname ≡ some bytes)
      × (ok s ≡ false → NotCreated w s w' ⊎ Deleted w')

  -- the branches of `DoWriteStringToFile`
  not_created :
      (bytes : Slice) (should_sync : Bool) (w w1 : W) (s : Status) (file : Option (WritableFile W))
      → env.new_writable_file fname w ≡ some ((s, file), w1)
      → ok s ≡ false
      → do_write_string_to_file env bytes fname should_sync w ≡ some (s, w1)
  unfolding do_write_string_to_file
  not_created bytes should_sync w w1 s file e o = rw (e, ◌>>=◌) (rw o refl)

  written :
      (bytes : Slice) (should_sync : Bool) (w w1 w2 : W) (s s2 : Status) (file : WritableFile W)
      → env.new_writable_file fname w ≡ some ((s, some file), w1)
      → ok s ≡ true
      → write_and_close file bytes should_sync w1 ≡ some (s2, w2)
      → ok s2 ≡ true
      → do_write_string_to_file env bytes fname should_sync w ≡ some (s2, w2)
  written bytes should_sync w w1 w2 s s2 file e o run o2 =
      unfold do_write_string_to_file in rw (e, ◌>>=◌) (rw o (rw (run, ◌>>=◌) (rw o2 refl)))

  given_up :
      (bytes : Slice) (should_sync : Bool) (w w1 w2 w3 : W) (s s2 d : Status)
      (file : WritableFile W)
      → env.new_writable_file fname w ≡ some ((s, some file), w1)
      → ok s ≡ true
      → write_and_close file bytes should_sync w1 ≡ some (s2, w2)
      → ok s2 ≡ false
      → env.delete_file fname w2 ≡ some (d, w3)
      → do_write_string_to_file env bytes fname should_sync w ≡ some (s2, w3)
  given_up bytes should_sync w w1 w2 w3 s s2 d file e o run o2 del =
      unfold do_write_string_to_file in
      rw (e, ◌>>=◌) (rw o (rw (run, ◌>>=◌) (rw o2 (rw (del, ◌>>=◌) refl))))

  -- Over a file system with the laws `WritesTo`, writing a string to a file returns. If the status
  -- is ok the file holds exactly the string. If not, either the file could not be created, or the
  -- last thing done was to call `DeleteFile` on it, and if that call reported success the file is
  -- gone; the status of that call is not returned.
  pub do_write_string_to_file_lem :
      (bytes : Slice) (should_sync : Bool) (w : W)
      → (s : Status) × (w' : W) × (do_write_string_to_file env bytes fname should_sync w
          ≡ some (s, w'))
        × (ok s ≡ true → content w' fname ≡ some bytes)
        × (ok s ≡ false → NotCreated w s w' ⊎ Deleted w')
  do_write_string_to_file_lem bytes should_sync w =
      let (s, file, w1, e, made) = fs.creates w in
      elim (Bool-cases (ok s)) [
        | inr bad ↦
            (s, w1, not_created bytes should_sync w w1 s file e bad, (λ h. cc), λ h. inl (file, e))
        | inl good ↦ after_open bytes should_sync w s file w1 e good (made good)
      ]
    where
      finish :
          (bytes : Slice) (should_sync : Bool) (w w1 w2 : W) (s s2 : Status) (f : WritableFile W)
          → env.new_writable_file fname w ≡ some ((s, some f), w1)
          → ok s ≡ true
          → write_and_close f bytes should_sync w1 ≡ some (s2, w2)
          → (ok s2 ≡ true → content w2 fname ≡ some bytes)
          → Outcome bytes should_sync w
      finish bytes should_sync w w1 w2 s s2 f e good run holds = elim (Bool-cases (ok s2)) [
        | inl fine ↦
            (s2, w2, written bytes should_sync w w1 w2 s s2 f e good run fine, holds, λ h. cc)
        | inr bad ↦
            let (d, w3, del, gone) = fs.removes w2 in
            (
              s2,
              w3,
              given_up bytes should_sync w w1 w2 w3 s s2 d f e good run bad del,
              (λ h. cc),
              λ h. inr (w2, d, del, gone),
            )
      ]

      after_open :
          (bytes : Slice) (should_sync : Bool) (w : W) (s : Status) (file : Option (WritableFile W))
          (w1 : W)
          → env.new_writable_file fname w ≡ some ((s, file), w1)
          → ok s ≡ true
          → (f : WritableFile W) × (IsOpen : W → Type 0) × (IsShut : W → Type 0) × (IsLive : W
              → Type 0)
            × (file ≡ some f)
            × (content w1 fname ≡ some [])
            × IsOpen w1
            × IsWriter content IsOpen IsShut IsLive fname f
          → Outcome bytes should_sync w
      after_open bytes should_sync w s file w1 e good
            (f, IsOpen, IsShut, IsLive, is, start, opened, law) =
          let (s2, w2, run, holds) =
            write_and_close_lem content fname f IsOpen IsShut IsLive law bytes should_sync w1 opened
              start in
          finish bytes should_sync w w1 w2 s s2 f (e ∙ ap (λ x. some ((s, x), w1)) is) good run
            holds
