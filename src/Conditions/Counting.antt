-- ===== src/Conditions/Counting.antt =====
-- Lists of distinct texts are counted by inclusion, as `findUnhappyDependent` counts the conditions.
use nats_account_operator.Common.{
  String, ◌==◌, eq_iff, ==_refl, ◌≡◌, refl, true, false, if◌then◌else◌, List, [], ◌∷◌, length,
  arith, suc, ◌≤◌,
}
use nats_account_operator.Conditions.{contains}
use nats_account_operator.Conditions.Sets.{Distinct}

remove : String → List String → List String
remove x [] = []
remove x (y ∷ ys) = let rest = remove x ys in if y == x then ys else y ∷ rest

length-remove :
    (x : String) (ys : List String) → contains ys x ≡ true → suc (length (remove x ys)) ≡ length ys
unfolding contains remove
length-remove x [] h = ground arith
length-remove x (y ∷ ys) h = ground (arith, length-remove x ys)

contains-remove :
    (x t : String) (ys : List String) → (x == t) ≡ false → contains (remove x ys) t ≡ contains ys t
unfolding contains remove
contains-remove x t [] h = refl
contains-remove x t (y ∷ ys) h =
    ground (arith, contains-remove x t ys h, eq_iff y x, eq_iff y t, eq_iff x t)

ne_of_contains :
    (xs : List String) (x t : String)
    → contains xs x ≡ false
    → contains xs t ≡ true
    → (x == t) ≡ false
ne_of_contains xs x t h i = ground (arith, eq_iff x t)

included :
    (x : String) (xs ys : List String)
    → contains xs x ≡ false
    → ((t : String) → contains (x ∷ xs) t ≡ true → contains ys t ≡ true)
    → (t : String) → contains xs t ≡ true
    → contains (remove x ys) t ≡ true
unfolding contains
included x xs ys u h t i =
    let ne = ne_of_contains xs x t u i in rw (contains-remove x t ys ne) (h t (rw (ne, i)))

-- Distinct texts that all stand in `ys` are no more than `ys` has.
pub length-le_of_Distinct :
    (xs ys : List String)
    → Distinct xs
    → ((t : String) → contains xs t ≡ true → contains ys t ≡ true)
    → length xs ≤ length ys
length-le_of_Distinct [] ys u h = omega arith
length-le_of_Distinct (x ∷ xs) ys u h =
    let here : contains ys x ≡ true = h x (unfold contains in rw (==_refl x)) in
    let rest : length xs ≤ length (remove x ys) =
      length-le_of_Distinct xs (remove x ys) u.1 (included x xs ys u.0 h) in
    omega (arith, length-remove x ys here)
