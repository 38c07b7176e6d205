-- ===== src/SkipList/Splice.antt =====
-- One level of the list before and after a node is linked in.
use releveldb.Base.{ℕ, ◌≡◌, ◌≢◌, refl, arith, ap, sym, ◌∙◌, [], ◌∷◌, ◌++◌, false, some}
use releveldb.SkipList.{Ptr, null, Heap}
use releveldb.SkipList.Chain.{Cells, has, has-append, Distinct, Chain, last_ptr}

-- On level `l`, `x` with key `k` comes behind `y`.
pub record Spliced {K : Type 0} (h h' : Heap K) (x y : Ptr) (k : K) (l : ℕ) : Type 0 where
  pub new_next : h'.next x l ≡ h.next y l
  pub place_next : h'.next y l ≡ some x
  pub other_next : (p : Ptr) → p ≢ x → p ≢ y → h'.next p l ≡ h.next p l
  pub new_key : h'.key x ≡ some k
  pub other_key : (p : Ptr) → p ≢ x → h'.key p ≡ h.key p

last_ptr_ne :
    {K : Type 0} (z a : Ptr) (front : Cells K) → z ≢ a → has z front ≡ false → z ≢ last_ptr a front
last_ptr_ne z a [] ne h = ne
last_ptr_ne z a ((b, j) ∷ front) ne h = last_ptr_ne z b front (ground arith) (ground arith)

module _ {K : Type 0} {h h' : Heap K} {x : Ptr} {k : K} {l : ℕ} where
  -- A chain that holds neither node is as it was.
  Chain-frame :
      (y : Ptr) (s : Spliced h h' x y k l) (p : Ptr) (ys : Cells K)
      → Chain h l p ys
      → has x ys ≡ false
      → has y ys ≡ false
      → Chain h' l p ys
  Chain-frame y s p [] c nx ny = c
  Chain-frame y s p ((a, j) ∷ ys) (e, ne, ek, q, en, c) nx ny = (
    e,
    ne,
    s.other_key a (ground arith) ∙ ek,
    q,
    s.other_next a (ground arith) (ground arith) ∙ en,
    Chain-frame y s q ys c (ground arith) (ground arith),
  )

  -- Behind `z` the chain now has the new node between its front and its back.
  pub Chain-splice :
      (front back : Cells K) (z p : Ptr)
      → Spliced h h' x (last_ptr z front) k l
      → x ≢ null
      → h.next z l ≡ some p
      → Chain h l p (front ++ back)
      → Distinct (front ++ back)
      → has z (front ++ back) ≡ false
      → has x (front ++ back) ≡ false
      → x ≢ z
      → (p' : Ptr) × (h'.next z l ≡ some p') × Chain h' l p' (front ++ ((x, k) ∷ back))
  Chain-splice [] back z p s nn e c d nz nx ne =
      (x, s.place_next, (refl, nn, s.new_key, p, s.new_next ∙ e, Chain-frame z s p back c nx nz))
  Chain-splice ((a, j) ∷ front) back z p s nn e (ea, na, ek, q, en, c) d nz nx ne =
      let (q', en', c') =
        Chain-splice front back a q s nn en c d.1 d.0 (ground arith) (ground arith) in
      (
        a,
        s.other_next z (λ h. ne (sym h))
              (last_ptr_ne z a front (ground arith) (ground (arith, has-append z front back)))
            ∙ e
            ∙ ap some ea,
        (refl, na, s.other_key a (ground arith) ∙ ek, q', en', c'),
      )
