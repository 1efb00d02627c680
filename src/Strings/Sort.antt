-- ===== src/Strings/Sort.antt =====
-- `sort.Strings`: texts in the order of their bytes.
pub mod Laws
use arupa.Base.{Bool, true, false, ◌||◌, ◌&&◌, List, [], ◌∷◌, GoString, ltb, nat_eqb}
use arupa.Base.{if◌then◌else◌}

unfoldable pub string_leb : GoString → GoString → Bool
string_leb [] t = true
string_leb (a ∷ s) [] = false
string_leb (a ∷ s) (b ∷ t) = ltb a b || (nat_eqb a b && string_leb s t)

unfoldable pub insert_sorted : GoString → List GoString → List GoString
unfolding string_leb
insert_sorted x [] = x ∷ []
insert_sorted x (y ∷ ys) = if string_leb x y then x ∷ y ∷ ys else y ∷ insert_sorted x ys

unfoldable pub sort_strings : List GoString → List GoString
unfolding insert_sorted
sort_strings [] = []
sort_strings (x ∷ xs) = insert_sorted x (sort_strings xs)
