-- ===== src/PosixLogger/Line.antt =====
-- The line that `Logv` writes.
use releveldb.Base.{
  ℕ, zero, suc, ◌-◌, ◌≤◌, ◌<◌, ◌≡◌, refl, sym, ap, ◌∙◌, inl, inr, arith, List, [], ◌∷◌, ◌++◌,
  Option, none, some, Bool, true, false, ltb, leb, ◌==◌, if◌then◌else◌, Bool-cases, get_or, length,
  length-append, length-take, take, take_all, take-append_add,
}
use releveldb.PosixLogger.{fill_buffer, end_line, round, large_size, logv_line}

-- the text, with a newline behind it unless it ends in one
unfoldable pub ended : List ℕ → List ℕ
ended [] = b'\n' ∷ []
ended (c ∷ []) = if c == b'\n' then c ∷ [] else c ∷ b'\n' ∷ []
ended (c ∷ d ∷ s) = c ∷ ended (d ∷ s)

if_cons :
    (b : Bool) (c : ℕ) (s t : List ℕ) → (if b then c ∷ s else c ∷ t) ≡ c ∷ (if b then s else t)
if_cons true c s t = refl
if_cons false c s t = refl

ended_cons :
    (c : ℕ) (s : List ℕ)
    → (if get_or (c ∷ s) (length s) 0 == b'\n' then c ∷ s else c ∷ (s ++ (b'\n' ∷ [])))
      ≡ ended (c ∷ s)
unfolding ended
ended_cons c [] = refl
ended_cons c (d ∷ s) =
    if_cons (get_or (d ∷ s) (length s) 0 == b'\n') c (d ∷ s) (d ∷ (s ++ (b'\n' ∷ [])))
    ∙ ap (◌∷◌ c) (ended_cons d s)

end_line-ended : (s : List ℕ) (p : ℕ) → p ≡ length s → end_line s p ≡ ended s
unfolding end_line ended
end_line-ended [] p h = rw h refl
end_line-ended (c ∷ s) p h =
    let not_first : (suc (length s) == 0) ≡ false = ground arith in
    let before : suc (length s) - 1 ≡ length s = omega arith in
    rw (h, not_first, before, take_all s (length s) (omega arith)) (ended_cons c s)

take-append_less : (n : ℕ) (xs ys : List ℕ) → n ≤ length xs → take n (xs ++ ys) ≡ take n xs
take-append_less zero xs ys h = refl
take-append_less (suc n) [] ys h = absurd (omega arith)
take-append_less (suc n) (x ∷ xs) ys h = ap (◌∷◌ x) (take-append_less n xs ys (omega arith))

fill_buffer-take :
    (n : ℕ) (header message : List ℕ)
    → 0 < n
    → (fill_buffer n header message).0 ≡ take (n - 1) (header ++ message)
unfolding fill_buffer
fill_buffer-take n header message pos = elim (Bool-cases (ltb (length header) n)) [
  | inl h ↦
      rw h (sym (take-append_add header message (n - 1) (n - length header - 1) (ground arith)))
  | inr h ↦ rw h (sym (take-append_less (n - 1) header message (ground arith)))
]

fill_buffer-fits :
    (n : ℕ) (header message : List ℕ)
    → length (header ++ message) < n
    → (fill_buffer n header message).1 ≡ length (header ++ message)
unfolding fill_buffer
fill_buffer-fits n header message h = ground (arith, length-append header message)

fill_buffer-full :
    (n : ℕ) (header message : List ℕ)
    → n ≤ length (header ++ message)
    → n ≤ (fill_buffer n header message).1
unfolding fill_buffer
fill_buffer-full n header message h = ground (arith, length-append header message)

-- what a round does with its buffer
abbrev finish : Bool → ℕ → List ℕ × ℕ → Option (List ℕ)
finish first n (buffer, p) =
    if leb n p
    then if first then none else some (end_line buffer (n - 1))
    else some (end_line buffer p)

finish-fits :
    (first : Bool) (n p : ℕ) (buffer text : List ℕ)
    → p ≡ length text
    → length text < n
    → buffer ≡ text
    → finish first n (buffer, p) ≡ some (ended text)
finish-fits first n p buffer text e h b =
    let fits : leb n p ≡ false = ground arith in
    rw fits (ap some (end_line-ended buffer p (e ∙ ap length (sym b)) ∙ ap ended b))

finish-full :
    (first : Bool) (n p : ℕ) (buffer text : List ℕ)
    → n ≤ p
    → n - 1 ≡ length text
    → buffer ≡ text
    → finish first n (buffer, p) ≡ (if first then none else some (ended text))
finish-full first n p buffer text h e b =
    let full : leb n p ≡ true = ground arith in
    rw full (
      ap (λ line. if first then none else some line)
        (end_line-ended buffer (n - 1) (e ∙ ap length (sym b)) ∙ ap ended b))

round-fits :
    (first : Bool) (n : ℕ) (header message : List ℕ)
    → length (header ++ message) < n
    → round first n header message ≡ some (ended (header ++ message))
unfolding round
round-fits first n header message h =
    finish-fits first n _ _ (header ++ message) (fill_buffer-fits n header message h) h (
      fill_buffer-take n header message (omega (arith, h))
      ∙ take_all (header ++ message) (n - 1) (omega (arith, h)))

round-full :
    (first : Bool) (n : ℕ) (header message : List ℕ)
    → 0 < n
    → n ≤ length (header ++ message)
    → round first n header message
      ≡ (if first then none else some (ended (take (n - 1) (header ++ message))))
unfolding round
round-full first n header message pos h =
    finish-full first n _ _ (take (n - 1) (header ++ message)) (fill_buffer-full n header message h)
      (omega (arith, h, length-take (n - 1) (header ++ message)))
      (fill_buffer-take n header message pos)

-- the second round, which always ends
second_round :
    (header message : List ℕ)
    → round false large_size header message
      ≡ some (ended (take (large_size - 1) (header ++ message)))
second_round header message = elim (Bool-cases (ltb (length (header ++ message)) large_size)) [
  | inl h ↦
      round-fits false large_size header message (ground arith)
      ∙ ap (λ text. some (ended text))
          (sym (take_all (header ++ message) (large_size - 1) (ground arith)))
  | inr h ↦ round-full false large_size header message (omega arith) (ground arith)
]

abbrev after_first : List ℕ → List ℕ → Option (List ℕ) → Option (List ℕ)
after_first second message none = round false large_size second message
after_first second message (some line) = some line

-- `Logv` always writes one line, with a newline behind it unless the text ends in one: the header
-- and the message in full if they are shorter than the 500 bytes of the first buffer, and else the
-- first 29999 bytes of the header that the second round makes and the message.
pub logv_line-ended :
    (first second message : List ℕ)
    → logv_line first second message
      ≡ some (
          ended (
            if ltb (length (first ++ message)) 500
            then first ++ message
            else take 29999 (second ++ message)))
unfolding logv_line
logv_line-ended first second message = elim (Bool-cases (ltb (length (first ++ message)) 500)) [
  | inl h ↦
      rw h (ap (after_first second message) (round-fits true 500 first message (ground arith)))
  | inr h ↦ rw h (
      ap (after_first second message)
        (round-full true 500 first message (omega arith) (ground arith))
      ∙ second_round second message)
]
