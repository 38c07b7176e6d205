-- ===== src/Slice/Tests.antt =====
-- Runs of the slice operations of db/Slice.h and db/Slice.cpp.
use releveldb.Base.{◌≡◌, refl, Ordering, true, [], ◌∷◌, none, some}
use releveldb.Slice.{Slice, memcmp, compare_slice, from_c_string, at, clear, empty, ◌==s◌, ◌!=s◌}
use releveldb.Slice.Order.{lex, compare_slice-lex}

abbrev ab : Slice
ab = b'a' ∷ b'b' ∷ []

abbrev abc : Slice
abc = b'a' ∷ b'b' ∷ b'c' ∷ []

abbrev b_end : Slice
b_end = b'b' ∷ []

from_c_string_run : from_c_string (b'a' ∷ b'b' ∷ 0 ∷ b'c' ∷ []) ≡ ab
unfolding from_c_string
from_c_string_run = refl

at_run : at abc 2 ≡ some b'c'
unfolding at
at_run = refl

at_past : at abc 3 ≡ none
unfolding at
at_past = refl

clear_run : empty (clear abc) ≡ true
unfolding clear empty
clear_run = refl

differ_run : (ab !=s abc) ≡ true
unfolding ◌!=s◌ ◌==s◌
differ_run = refl

compare_slice-lex_example : compare_slice abc ab ≡ lex abc ab
compare_slice-lex_example = compare_slice-lex abc ab

ab-below : compare_slice ab abc ≡ Ordering.lt
unfolding compare_slice memcmp
ab-below = refl

abc-below : compare_slice abc b_end ≡ Ordering.lt
unfolding compare_slice memcmp
abc-below = refl
