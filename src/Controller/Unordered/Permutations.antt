-- ===== src/Controller/Unordered/Permutations.antt =====
-- Permutations of lists without repetitions, for isEqualUnordered of
-- internal/controller/accounts/utils.go.
use nats_account_operator.Common.{
  ◌≡◌, refl, sym, ap, ◌∙◌, ℕ, suc, List, [], ◌∷◌, Memᴰ, arith, inl, inr, length,
}
use mathlib.Core.Path.{subst}
use mathlib.Core.List.{Permᴰ}
use mathlib.Core.List.Permᴰ
use mathlib.Core.List.Memᴰ

no_successor : (n : ℕ) → ¬ 0 ≡ suc n
no_successor n e = omega arith

module _ {ℓ} {A : Type ℓ} where
  -- No element stands twice in the list.
  abbrev pub Distinct : List A → Type ℓ
  Distinct [] = Unit
  Distinct (x ∷ xs) = (¬ Memᴰ x xs) × Distinct xs

  pub perm-mem : {a : A} {l r : List A} → Permᴰ l r → Memᴰ a l → Memᴰ a r
  perm-mem Permᴰ.nil i = i
  perm-mem (Permᴰ.cons e d) i = elim (Memᴰ.cases_cons i) [
    | inl q ↦ Memᴰ.head (q ∙ e)
    | inr j ↦ Memᴰ.tail (perm-mem d j)
  ]
  perm-mem (Permᴰ.swap e f) i = elim (Memᴰ.cases_cons i) [
    | inl q ↦ Memᴰ.tail (Memᴰ.head (q ∙ e))
    | inr j ↦ elim (Memᴰ.cases_cons j) [
      | inl q ↦ Memᴰ.head (q ∙ f)
      | inr k ↦ Memᴰ.tail (Memᴰ.tail k)
    ]
  ]
  perm-mem (Permᴰ.trans d e) i = perm-mem e (perm-mem d i)

  pub perm-length : {l r : List A} → Permᴰ l r → length l ≡ length r
  perm-length Permᴰ.nil = refl
  perm-length (Permᴰ.cons e d) = ap suc (perm-length d)
  perm-length (Permᴰ.swap e f) = refl
  perm-length (Permᴰ.trans d e) = perm-length d ∙ perm-length e

  -- A member can be brought to the front.
  perm_front : {a : A} (l : List A) → Memᴰ a l → (r : List A) × Permᴰ l (a ∷ r)
  perm_front [] i = elim i [ ]
  perm_front (x ∷ xs) i = elim (Memᴰ.cases_cons i) [
    | inl e ↦ (xs, Permᴰ.cons (sym e) (Permᴰ.refl xs))
    | inr j ↦
        let (r, p) = perm_front xs j in
        (x ∷ r, Permᴰ.trans (Permᴰ.cons refl p) (Permᴰ.swap refl refl))
  ]

  -- A list without repetitions is a permutation of a list of its length that has its elements.
  pub perm_of_subset :
      (l r : List A)
      → Distinct l
      → length l ≡ length r
      → ((a : A) → Memᴰ a l → Memᴰ a r)
      → Permᴰ l r
  perm_of_subset [] [] d e s = Permᴰ.nil
  perm_of_subset [] (y ∷ ys) d e s = elim (no_successor (length ys) e) [ ]
  perm_of_subset (x ∷ xs) r d e s =
      let (rest, p) = perm_front r (s x (Memᴰ.head refl)) in
      Permᴰ.trans
        (Permᴰ.cons refl (
          perm_of_subset xs rest d.1 (rest_length rest p)
            (λ a i. others a i rest (perm-mem p (s a (Memᴰ.tail i))))))
        (Permᴰ.symm p)
    where
      rest_length : (rest : List A) → Permᴰ r (x ∷ rest) → length xs ≡ length rest
      rest_length rest p = let q = e ∙ perm-length p in omega arith

      others : (a : A) → Memᴰ a xs → (rest : List A) → Memᴰ a (x ∷ rest) → Memᴰ a rest
      others a i rest j = elim (Memᴰ.cases_cons j) [
        | inl q ↦ elim (d.0 (subst (λ b. Memᴰ b xs) q i)) [ ]
        | inr k ↦ k
      ]
