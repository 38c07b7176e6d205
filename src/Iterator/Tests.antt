-- ===== src/Iterator/Tests.antt =====
-- The clean-ups of a small iterator.
use releveldb.Base.{ℕ, ◌≡◌, [], ◌∷◌, ◌++◌}
use releveldb.Iterator.{Cleanup, new_iterator, destroy}
use releveldb.Iterator.Order.{register_all, backwards, destroy-register_all}

abbrev numbered : ℕ → Cleanup ℕ
numbered n = record { function = n; arg1 = 0; arg2 = 0 }

destroy-register_all_example :
    destroy (register_all new_iterator (numbered 1 ∷ numbered 2 ∷ numbered 3 ∷ []))
    ≡ numbered 1 ∷ (backwards (numbered 2 ∷ numbered 3 ∷ []) ++ [])
destroy-register_all_example = destroy-register_all (numbered 1) (numbered 2 ∷ numbered 3 ∷ [])
