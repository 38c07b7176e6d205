-- ===== src/Iterator/Order.antt =====
-- The order of an iterator's clean-ups.
use releveldb.Base.{◌≡◌, refl, ◌∙◌, ap, append_assoc, List, [], ◌∷◌, ◌++◌, some}
use releveldb.Iterator.{Cleanup, Iterator, new_iterator, register_cleanup, destroy}

module _ {F : Type 0} where
  unfoldable pub register_all : Iterator F → List (Cleanup F) → Iterator F
  unfolding register_cleanup
  register_all it [] = it
  register_all it (c ∷ cs) = register_all (register_cleanup it c) cs

  unfoldable pub backwards : List (Cleanup F) → List (Cleanup F)
  backwards [] = []
  backwards (c ∷ cs) = backwards cs ++ (c ∷ [])

  destroy-more :
      (first : Cleanup F) (rest cs : List (Cleanup F))
      → destroy (register_all (record { cleanup = some first; following = rest }) cs)
        ≡ first ∷ (backwards cs ++ rest)
  unfolding destroy register_all backwards
  destroy-more first rest [] = refl
  destroy-more first rest (c ∷ cs) =
      destroy-more first (c ∷ rest) cs
      ∙ ap (◌∷◌ first) (rw (append_assoc (backwards cs) (c ∷ []) rest) refl)

  -- The destructor calls the first clean-up registered first, and then the others from the last
  -- registered to the earliest.
  pub destroy-register_all :
      (c : Cleanup F) (cs : List (Cleanup F))
      → destroy (register_all new_iterator (c ∷ cs)) ≡ c ∷ (backwards cs ++ [])
  unfolding new_iterator register_all register_cleanup
  destroy-register_all c cs = destroy-more c [] cs
