-- ===== src/Common/Lists.antt =====
-- Lists over the native numbers: length, predicates on members, and the loops with a test.
use Prim.Native.Nat.{ℕ, suc}
use mathlib.Core.Path.{◌≡◌, refl}
use mathlib.Core.Logic.{inl, inr}
use mathlib.Core.Bool.{Bool, true, false, ◌||◌}
use mathlib.Core.Option.{Option, none, some}
use mathlib.Core.List.{List, [], ◌∷◌, Memᴰ}
use mathlib.Core.List.Memᴰ
use native.Mathlib.Omega.{arith}
use nats_account_operator.Common.Tests.{Bool-cases, if◌then◌else◌}

module _ {ℓ} {A : Type ℓ} where
  abbrev pub length : List A → ℕ
  length [] = 0
  length (x ∷ xs) = suc (length xs)

  abbrev pub All {κ} : (A → Type κ) → List A → Type κ
  All P [] = Unit
  All P (x ∷ xs) = P x × All P xs

  pub All-mem {κ} : (P : A → Type κ) (a : A) (xs : List A) → All P xs → Memᴰ a xs → P a
  All-mem P a [] h i = elim i [ ]
  All-mem P a (x ∷ xs) h (Memᴰ.head e) = rw e h.0
  All-mem P a (x ∷ xs) h (Memᴰ.tail i) = All-mem P a xs h.1 i

  pub All-of_mem {κ} : (P : A → Type κ) (xs : List A) → ((a : A) → Memᴰ a xs → P a) → All P xs
  All-of_mem P [] h = tt
  All-of_mem P (x ∷ xs) h = (h x (Memᴰ.head refl), All-of_mem P xs (λ a i. h a (Memᴰ.tail i)))

  -- A loop that keeps what passes a test, one that looks for a first match, and one that asks
  -- whether there is any.
  abbrev pub filter : (A → Bool) → List A → List A
  filter p [] = []
  filter p (x ∷ xs) = let rest = filter p xs in if p x then x ∷ rest else rest

  abbrev pub find_first : (A → Bool) → List A → Option A
  find_first p [] = none
  find_first p (x ∷ xs) = let rest = find_first p xs in if p x then some x else rest

  abbrev pub any : (A → Bool) → List A → Bool
  any p [] = false
  any p (x ∷ xs) = p x || any p xs

  pub any_of_mem : (p : A → Bool) (a : A) (xs : List A) → Memᴰ a xs → p a ≡ true → any p xs ≡ true
  any_of_mem p a [] i h = elim i [ ]
  any_of_mem p a (x ∷ xs) (Memᴰ.head e) h = ground arith
  any_of_mem p a (x ∷ xs) (Memᴰ.tail i) h = ground (arith, any_of_mem p a xs i h)

  pub any_elim : (p : A → Bool) (xs : List A) → any p xs ≡ true → (a : A) × Memᴰ a xs × (p a ≡ true)
  any_elim p [] h = cc
  any_elim p (x ∷ xs) h = elim (Bool-cases (p x)) [
    | inl e ↦ (x, Memᴰ.head refl, e)
    | inr e ↦ let (a, i, q) = any_elim p xs (rw e at h) in (a, Memᴰ.tail i, q)
  ]

  pub mem-filter :
      (p : A → Bool) (a : A) (xs : List A) → Memᴰ a (filter p xs) → Memᴰ a xs × (p a ≡ true)
  mem-filter p a [] i = elim i [ ]
  mem-filter p a (x ∷ xs) i = elim (Bool-cases (p x)) [
    | inl e ↦ elim (Memᴰ.cases_cons (rw e at i)) [
      | inl q ↦ (Memᴰ.head q, rw q e)
      | inr j ↦ let (m, t) = mem-filter p a xs j in (Memᴰ.tail m, t)
    ]
    | inr e ↦ let (m, t) = mem-filter p a xs (rw e at i) in (Memᴰ.tail m, t)
  ]

  pub mem-filter_of :
      (p : A → Bool) (a : A) (xs : List A) → Memᴰ a xs → p a ≡ true → Memᴰ a (filter p xs)
  mem-filter_of p a [] i h = elim i [ ]
  mem-filter_of p a (x ∷ xs) (Memᴰ.head e) h = rw (← e, h) (Memᴰ.head refl)
  mem-filter_of p a (x ∷ xs) (Memᴰ.tail i) h = elim (Bool-cases (p x)) [
    | inl e ↦ rw e (Memᴰ.tail (mem-filter_of p a xs i h))
    | inr e ↦ rw e (mem-filter_of p a xs i h)
  ]

  pub mem-find_first :
      (p : A → Bool) (a : A) (xs : List A) → find_first p xs ≡ some a → Memᴰ a xs × (p a ≡ true)
  mem-find_first p a [] h = cc
  mem-find_first p a (x ∷ xs) h = elim (Bool-cases (p x)) [
    | inl e ↦ (Memᴰ.head (ground arith), ground arith)
    | inr e ↦ let (m, t) = mem-find_first p a xs (rw e at h) in (Memᴰ.tail m, t)
  ]

  pub find_first-none :
      (p : A → Bool) (a : A) (xs : List A) → find_first p xs ≡ none → Memᴰ a xs → p a ≡ false
  find_first-none p a [] h i = elim i [ ]
  find_first-none p a (x ∷ xs) h (Memᴰ.head e) = ground arith
  find_first-none p a (x ∷ xs) h (Memᴰ.tail i) =
      let rest : find_first p xs ≡ none = ground arith in find_first-none p a xs rest i
