-- ===== src/EnvPosix/LockTable.antt =====
-- `PosixLockTable`: its set of names.
use releveldb.Base.{
  ◌≡◌, inl, inr, refl, sym, arith, ap, ◌∙◌, Bool, true, false, if◌then◌else◌, Bool-cases, List, [],
  ◌∷◌,
}
use releveldb.Slice.{◌==s◌}
use releveldb.Slice.Order.{==s_iff}
use releveldb.Env.{Name}
use releveldb.EnvPosix.Sys.{held, erased}

==s_refl : (name : Name) → (name ==s name) ≡ true
==s_refl name = (==s_iff name name).1 refl

erased-absent :
    (name : Name) (locked : List Name) → held name locked ≡ false → erased name locked ≡ locked
unfolding held erased
erased-absent name [] h = refl
erased-absent name (n ∷ ns) h = elim (Bool-cases (n ==s name)) [
  | inl e ↦ ground arith
  | inr e ↦ rw e (ap (λ rest. n ∷ rest) (erased-absent name ns (ground arith)))
]

pub erased-insert :
    (name : Name) (locked : List Name)
    → held name locked ≡ false
    → erased name (name ∷ locked) ≡ locked
erased-insert name locked h = unfold erased in rw (==s_refl name) (erased-absent name locked h)

-- what is in the table once a name is erased
abbrev pub but : Bool → Bool → Bool
but same other = if same then false else other

held-skip :
    (n other : Name) (ns : List Name) → (n ==s other) ≡ false → held other (n ∷ ns) ≡ held other ns
unfolding held
held-skip n other ns h = rw (h, held) refl

apart : {A : Type 0} (x y : Name) → (x ==s y) ≡ false → x ≡ y → A
apart x y h e = ground (arith, (==s_iff x y).1 e)

but_other : (same : Bool) → same ≡ false → but same true ≡ true
but_other same h = rw h refl

apart_too :
    (n name other : Name) → (n ==s name) ≡ false → (n ==s other) ≡ true → (name ==s other) ≡ false
apart_too n name other e g = elim (Bool-cases (name ==s other)) [
  | inl f ↦ apart n name e ((==s_iff n other).0 g ∙ sym ((==s_iff name other).0 f))
  | inr f ↦ f
]

pub held-erased :
    (name other : Name) (locked : List Name)
    → held other (erased name locked) ≡ but (name ==s other) (held other locked)
unfolding held erased
held-erased name other [] = elim (Bool-cases (name ==s other)) [
  | inl e ↦ rw e refl
  | inr e ↦ rw e refl
]
held-erased name other (n ∷ ns) =
    let ih = held-erased name other ns in
    elim (Bool-cases (n ==s name)) [
      | inl e ↦
          let n_is_name : n ≡ name = (==s_iff n name).0 e in
          rw (e, ih)
            (elim (Bool-cases (name ==s other)) [
              | inl f ↦ rw f refl
              | inr f ↦ rw f (sym (held-skip n other ns (ap (λ x. x ==s other) n_is_name ∙ f)))
            ])
      | inr e ↦ rw e (elim (Bool-cases (n ==s other)) [
        | inl g ↦ rw (held, g) (sym (but_other (name ==s other) (apart_too n name other e g)))
        | inr g ↦
            held-skip n other (erased name ns) g
            ∙ ih
            ∙ ap (but (name ==s other)) (sym (held-skip n other ns g))
      ])
    ]
