-- ===== src/Controller/Unordered.antt =====
-- isEqualUnordered of internal/controller/accounts/utils.go. `slices.Contains` of k8s.io/utils is a
-- parameter.
mod Permutations
mod Tests
use nats_account_operator.Common.{
  String, ◌≡◌, refl, sym, ap, ◌∙◌, ◌↔◌, ℕ, suc, Bool, true, false, not, List, [], ◌∷◌, Memᴰ, arith,
  Bool-cases, inl, inr, if◌then◌else◌, length, nat_eq,
}
use mathlib.Core.Path.{subst}
use mathlib.Core.List.{Permᴰ}
use mathlib.Core.List.Permᴰ
use mathlib.Core.List.Memᴰ
use nats_account_operator.Controller.Unordered.Permutations.{
  Distinct, perm-mem, perm-length, perm_of_subset,
}

module _ (contains : List String → String → Bool) where
  -- The loop over the first list, which returns at the first element that the second lacks.
  unfoldable pub contains_each : List String → List String → Bool
  contains_each s2 [] = true
  contains_each s2 (elem ∷ rest) =
      let others = contains_each s2 rest in if not (contains s2 elem) then false else others

  unfoldable pub is_equal_unordered : List String → List String → Bool
  unfolding contains_each
  is_equal_unordered s1 s2 =
      if not (nat_eq (length s1) (length s2)) then false else contains_each s2 s1

-- `slices.Contains` tells whether a list has an element.
module _ (contains : List String → String → Bool)
    (finds : (l : List String) (t : String) → (contains l t ≡ true) ↔ Memᴰ t l) where
  contains_each_iff :
      (s2 s1 : List String)
      → (contains_each contains s2 s1 ≡ true) ↔ ((t : String) → Memᴰ t s1 → Memᴰ t s2)
  unfolding contains_each
  contains_each_iff s2 [] = ((λ e t i. elim i [ ]), λ h. refl)
  contains_each_iff s2 (x ∷ xs) = (
    (λ e t i. elim (Memᴰ.cases_cons i) [
      | inl q ↦ subst (λ u. Memᴰ u s2) (sym q) ((finds s2 x).0 (ground arith))
      | inr j ↦ (contains_each_iff s2 xs).0 (ground arith) t j
    ]),
    λ h.
        let here = (finds s2 x).1 (h x (Memᴰ.head refl)) in
        let there = (contains_each_iff s2 xs).1 (λ t i. h t (Memᴰ.tail i)) in ground arith,
  )

  -- When the first list has no repetitions, isEqualUnordered is true exactly when the lists are
  -- permutations of each other, provided that `slices.Contains` tells membership.
  pub is_equal_unordered_lem :
      (s1 s2 : List String) → Distinct s1 → (is_equal_unordered contains s1 s2 ≡ true) ↔ Permᴰ s1 s2
  unfolding is_equal_unordered
  is_equal_unordered_lem s1 s2 d = (
    (λ e. perm_of_subset s1 s2 d (ground arith) ((contains_each_iff s2 s1).0 (ground arith))),
    λ p.
        let same = perm-length p in
        let each = (contains_each_iff s2 s1).1 (λ t i. perm-mem p i) in ground arith,
  )
