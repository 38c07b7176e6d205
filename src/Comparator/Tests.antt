-- ===== src/Comparator/Tests.antt =====
-- Runs of the bytewise comparator of db/Comparator.cpp.
use releveldb.Base.{ℕ, ◌≡◌, refl, List, [], ◌∷◌, some}
use releveldb.Slice.{memcmp, compare_slice}
use releveldb.Comparator.{
  bytewise_comparator, bytewise_separator, bytewise_successor, diff_loop, shorten_at,
  successor_loop,
}

abbrev abcd : List ℕ
abcd = b'a' ∷ b'b' ∷ b'c' ∷ b'd' ∷ []

abbrev abz : List ℕ
abz = b'a' ∷ b'b' ∷ b'z' ∷ []

abbrev abd : List ℕ
abd = b'a' ∷ b'b' ∷ b'd' ∷ []

separator_run : bytewise_comparator.find_shortest_separator abcd abz ≡ some abd
unfolding bytewise_comparator bytewise_separator diff_loop shorten_at compare_slice memcmp
separator_run = refl

successor_run : bytewise_comparator.find_short_successor abcd ≡ some (b'b' ∷ [])
unfolding bytewise_comparator bytewise_successor successor_loop
successor_run = refl
