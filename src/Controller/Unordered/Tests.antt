-- ===== src/Controller/Unordered/Tests.antt =====
-- Runs of isEqualUnordered of internal/controller/accounts/utils.go, with a search through the list
-- in the place of `slices.Contains`.
use nats_account_operator.Common.{
  String, ◌==◌, eq_iff, ◌≡◌, refl, ◌↔◌, Bool, true, false, List, [], ◌∷◌, Memᴰ, any, any_of_mem,
  any_elim, inl, inr, ◌≢◌,
}
use mathlib.Core.Path.{subst}
use mathlib.Core.List.{Permᴰ}
use mathlib.Core.List.Memᴰ
use nats_account_operator.Controller.Unordered.{
  is_equal_unordered, contains_each, is_equal_unordered_lem,
}
use nats_account_operator.Controller.Unordered.Permutations.{Distinct}

abbrev search_list : List String → String → Bool
search_list l t = any (λ c. c == t) l

search_list_iff : (l : List String) (t : String) → (search_list l t ≡ true) ↔ Memᴰ t l
search_list_iff l t = (
  (λ e. let (c, i, q) = any_elim (λ u. u == t) l e in subst (λ u. Memᴰ u l) ((eq_iff c t).0 q) i),
  (λ i. any_of_mem (λ u. u == t) t l i ((eq_iff t t).1 refl)),
)

absurd_text : ◌≢◌ {A = String} "OA" "OB"
absurd_text e = let h = (eq_iff "OA" "OB").1 e in cc

abbrev keys : List String
keys = "OA" ∷ "OB" ∷ []

keys-Distinct : Distinct keys
keys-Distinct = (
  (λ i. elim (Memᴰ.cases_cons i) [ inl e ↦ elim (absurd_text e) [ ] | inr j ↦ elim j [ ] ]),
  ((λ i. elim i [ ]), tt),
)

is_equal_unordered_lem_example :
    (is_equal_unordered search_list keys ("OB" ∷ "OA" ∷ []) ≡ true) ↔ Permᴰ keys ("OB" ∷ "OA" ∷ [])
is_equal_unordered_lem_example =
    is_equal_unordered_lem search_list search_list_iff keys ("OB" ∷ "OA" ∷ []) keys-Distinct

-- The order does not matter; a text that is missing does; a repetition hides one.
reordered : is_equal_unordered search_list keys ("OB" ∷ "OA" ∷ []) ≡ true
unfolding is_equal_unordered contains_each
reordered = refl

changed : is_equal_unordered search_list keys ("OA" ∷ "OC" ∷ []) ≡ false
unfolding is_equal_unordered contains_each
changed = refl

repeated : is_equal_unordered search_list ("OA" ∷ "OA" ∷ []) keys ≡ true
unfolding is_equal_unordered contains_each
repeated = refl
