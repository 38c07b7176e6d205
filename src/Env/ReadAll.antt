-- ===== src/Env/ReadAll.antt =====
-- `ReadFileToString` of db/Env.cpp.
use releveldb.Base.{
  ℕ, zero, suc, ◌+◌, ◌*◌, ◌≤◌, ◌<◌, ◌≡◌, refl, arith, ap, sym, ◌∙◌, List, [], ◌∷◌, ◌++◌,
  append_assoc, some, true, false, if◌then◌else◌, Bool-cases, inl, inr, length, length-take,
  length-drop, take, drop, take-append-drop,
}
use releveldb.Act.{◌>>=◌}
use releveldb.Slice.{empty}
use releveldb.Status.{Status, ok}
use releveldb.Env.{Name, SequentialFile, Env, k_buffer_size, read_loop, read_file_to_string}

-- The file behaves as db/Env.h says of `Read`, without an error: `left` is what is still to read.
pub record ReadsFrom {W : Type 0} (file : SequentialFile W) (left : W → List ℕ) : Type 0 where
  pub reads :
      (n : ℕ) (w : W)
      → 0 < n
      → (s : Status) × (w' : W) × (file.read n w ≡ some ((s, take n (left w)), w'))
        × (ok s ≡ true)
        × (left w' ≡ drop n (left w))
  pub deletes : (w : W) → (w' : W) × (file.delete w ≡ some (tt, w'))

none_left : (xs : List ℕ) → empty xs ≡ true → xs ≡ []
unfolding empty
none_left [] h = refl
none_left (x ∷ xs) h = absurd (ground arith)

some_left : (xs : List ℕ) → empty xs ≡ false → 0 < length xs
unfolding empty
some_left xs h = ground arith

take_none : (n : ℕ) (xs : List ℕ) → 0 < n → take n xs ≡ [] → xs ≡ []
take_none zero xs p h = absurd (omega arith)
take_none (suc n) [] p h = refl
take_none (suc n) (x ∷ xs) p h = cc

-- the steps of `ReadFileToString` around its loop
opened_run :
    {W L : Type 0} (env : Env W L) (fname : Name) (file : SequentialFile W) (s : Status) (w w1 : W)
    (fuel : ℕ)
    → env.new_sequential_file fname w ≡ some ((s, some file), w1)
    → ok s ≡ true
    → (s' : Status) (text : List ℕ) (w2 w3 : W) → read_loop fuel file [] w1 ≡ some ((s', text), w2)
    → file.delete w2 ≡ some (tt, w3)
    → read_file_to_string fuel env fname w ≡ some ((s', text), w3)
unfolding read_file_to_string
opened_run env fname file s w w1 fuel opened o s' text w2 w3 run gone =
    rw (opened, ◌>>=◌) (rw o (rw (run, ◌>>=◌) (rw (gone, ◌>>=◌) refl)))

module _ {W : Type 0} (file : SequentialFile W) (left : W → List ℕ)
    (law : ReadsFrom file left) where
  -- one round
  round :
      (fuel : ℕ) (text fragment : List ℕ) (s : Status) (w w' : W)
      → file.read k_buffer_size w ≡ some ((s, fragment), w')
      → ok s ≡ true
      → read_loop (suc fuel) file text w ≡ (
          if empty fragment
          then some ((s, text ++ fragment), w')
          else read_loop fuel file (text ++ fragment) w')
  unfolding read_loop
  round fuel text fragment s w w' e o = elim (Bool-cases (empty fragment)) [
    | inl h ↦ rw h (rw (e, ◌>>=◌) (rw (o, h) refl))
    | inr h ↦ rw h (rw (e, ◌>>=◌) (rw (o, h) refl))
  ]

  -- the round that finds nothing
  last_round :
      (fuel : ℕ) (text : List ℕ) (s : Status) (w w' : W)
      → file.read k_buffer_size w ≡ some ((s, take k_buffer_size (left w)), w')
      → ok s ≡ true
      → left w ≡ []
      → read_loop (suc fuel) file text w ≡ some ((s, text ++ left w), w')
  last_round fuel text s w w' e o gone =
      let none_read : take k_buffer_size (left w) ≡ [] = ap (take k_buffer_size) gone in
      round fuel text [] s w w' (e ∙ ap (λ xs. some ((s, xs), w')) none_read) o
      ∙ (unfold empty in ap (λ xs. some ((s, text ++ xs), w')) (sym gone))

  joined :
      (text : List ℕ) (w w' : W)
      → left w' ≡ drop k_buffer_size (left w)
      → (text ++ take k_buffer_size (left w)) ++ left w' ≡ text ++ left w
  joined text w w' l =
      append_assoc text _ _
      ∙ ap (◌++◌ text)
          (ap (◌++◌ (take k_buffer_size (left w))) l ∙ take-append-drop k_buffer_size (left w))

  -- In a round for each 8192 bytes and one more the loop reads what is left.
  pub read_loop_all :
      (fuel : ℕ) (text : List ℕ) (w : W)
      → length (left w) + k_buffer_size ≤ k_buffer_size * fuel
      → (s : Status) × (w' : W) × (read_loop fuel file text w ≡ some ((s, text ++ left w), w'))
        × (ok s ≡ true)
        × (left w' ≡ [])
  read_loop_all zero text w h = absurd (omega arith)
  read_loop_all (suc fuel) text w h =
      let (s, w', e, o, l) = law.reads k_buffer_size w (omega arith) in
      let fragment : List ℕ = take k_buffer_size (left w) in
      elim (Bool-cases (empty fragment)) [
        | inl done ↦
            let gone : left w ≡ [] =
              take_none k_buffer_size (left w) (omega arith) (none_left _ done) in
            (s, w', last_round fuel text s w w' e o gone, o, l ∙ ap (drop k_buffer_size) gone)
        | inr more ↦
            let rest : length (left w') + k_buffer_size ≤ k_buffer_size * fuel = omega (
              arith,
              ap length l,
              length-drop k_buffer_size (left w),
              length-take k_buffer_size (left w),
              some_left _ more,
            ) in
            let (s2, w2, run, o2, l2) = read_loop_all fuel (text ++ fragment) w' rest in
            (
              s2,
              w2,
              round fuel text fragment s w w' e o
                  ∙ (rw more run)
                  ∙ ap (λ t. some ((s2, t), w2)) (joined text w w' l),
              o2,
              l2,
            )
      ]

-- `ReadFileToString` on a file that is read without an error returns ok and the whole contents, in
-- at most one round for each 8192 bytes and one more.
pub read_file_to_string_all :
    {W L : Type 0} (env : Env W L) (fname : Name) (file : SequentialFile W) (left : W → List ℕ)
    (s : Status) (w w1 : W) (fuel : ℕ)
    → ReadsFrom file left
    → env.new_sequential_file fname w ≡ some ((s, some file), w1)
    → ok s ≡ true
    → length (left w1) + k_buffer_size ≤ k_buffer_size * fuel
    → (s' : Status) × (w' : W) × (read_file_to_string fuel env fname w ≡ some ((s', left w1), w'))
      × (ok s' ≡ true)
unfolding read_file_to_string
read_file_to_string_all env fname file left s w w1 fuel law opened o enough =
    let (s', w2, run, o', _) = read_loop_all file left law fuel [] w1 enough in
    let (w3, gone) = law.deletes w2 in
    (s', w3, opened_run env fname file s w w1 fuel opened o s' (left w1) w2 w3 run gone, o')
