-- ===== src/Sets.antt =====
-- A JavaScript `Set` of strings: members in insertion order.
use operator_oss.Base.{
  ◌≡◌, Bool, false, ◌||◌, List, [], ◌∷◌, String, str_eq, eq_iff, arith, if◌then◌else◌,
}

unfoldable pub member : String → List String → Bool
member k [] = false
member k (j ∷ s) = str_eq j k || member k s

unfoldable pub add : String → List String → List String
add k [] = k ∷ []
add k (j ∷ s) = if str_eq j k then j ∷ s else j ∷ add k s

unfoldable pub remove : String → List String → List String
remove k [] = []
remove k (j ∷ s) = let rest = remove k s in if str_eq j k then rest else j ∷ rest

pub member-add : (k j : String) (s : List String) → member j (add k s) ≡ (str_eq k j || member j s)
unfolding member add
member-add k j [] = ground arith
member-add k j (i ∷ s) = ground (arith, eq_iff k j, eq_iff i k, eq_iff i j, member-add k j s)

pub member-remove :
    (k j : String) (s : List String)
    → member j (remove k s) ≡ (if str_eq k j then false else member j s)
unfolding member remove
member-remove k j [] = ground arith
member-remove k j (i ∷ s) = ground (arith, eq_iff k j, eq_iff i k, eq_iff i j, member-remove k j s)
