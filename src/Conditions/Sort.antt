-- ===== src/Conditions/Sort.antt =====
-- The sorts of pkg/apis/condition_set.go keep the conditions, and the first of each type.
use nats_account_operator.Common.{
  suc, String, ◌==◌, eq_iff, text_lt-ne, ◌≡◌, refl, inl, inr, Bool, if◌then◌else◌, some, List, [],
  ◌∷◌, Memᴰ, length, All, All-of_mem, All-mem, arith, Bool-cases,
}
use mathlib.Core.List.Memᴰ
use nats_account_operator.Conditions.{Condition, insert_by, sort_by, type_less, find}

module _ (less : Condition → Condition → Bool) where
  mem-insert_by :
      (c x : Condition) (ys : List Condition) → Memᴰ c (insert_by less x ys) → Memᴰ c (x ∷ ys)
  unfolding insert_by
  mem-insert_by c x [] i = i
  mem-insert_by c x (y ∷ ys) i = elim (Bool-cases (less y x)) [
    | inl e ↦ elim (Memᴰ.cases_cons (rw e at i)) [
      | inl q ↦ Memᴰ.tail (Memᴰ.head q)
      | inr j ↦ elim (Memᴰ.cases_cons (mem-insert_by c x ys j)) [
        | inl q ↦ Memᴰ.head q
        | inr k ↦ Memᴰ.tail (Memᴰ.tail k)
      ]
    ]
    | inr e ↦ rw e at i
  ]

  insert_by-mem :
      (c x : Condition) (ys : List Condition) → Memᴰ c (x ∷ ys) → Memᴰ c (insert_by less x ys)
  unfolding insert_by
  insert_by-mem c x [] i = i
  insert_by-mem c x (y ∷ ys) i = elim (Bool-cases (less y x)) [
    | inl e ↦ rw e (elim (Memᴰ.cases_cons i) [
      | inl q ↦ Memᴰ.tail (insert_by-mem c x ys (Memᴰ.head q))
      | inr j ↦ elim (Memᴰ.cases_cons j) [
        | inl q ↦ Memᴰ.head q
        | inr k ↦ Memᴰ.tail (insert_by-mem c x ys (Memᴰ.tail k))
      ]
    ])
    | inr e ↦ rw e i
  ]

  pub mem-sort_by : (c : Condition) (xs : List Condition) → Memᴰ c (sort_by less xs) → Memᴰ c xs
  unfolding sort_by
  mem-sort_by c [] i = i
  mem-sort_by c (x ∷ xs) i = elim (Memᴰ.cases_cons (mem-insert_by c x (sort_by less xs) i)) [
    | inl q ↦ Memᴰ.head q
    | inr j ↦ Memᴰ.tail (mem-sort_by c xs j)
  ]

  pub sort_by-mem : (c : Condition) (xs : List Condition) → Memᴰ c xs → Memᴰ c (sort_by less xs)
  unfolding sort_by
  sort_by-mem c [] i = i
  sort_by-mem c (x ∷ xs) i =
      insert_by-mem c x (sort_by less xs)
        (elim (Memᴰ.cases_cons i) [ inl q ↦ Memᴰ.head q | inr j ↦ Memᴰ.tail (sort_by-mem c xs j) ])

  pub All-sort_by {κ} :
      (P : Condition → Type κ) (xs : List Condition) → All P xs → All P (sort_by less xs)
  All-sort_by P xs h = All-of_mem P (sort_by less xs) (λ c i. All-mem P c xs h (mem-sort_by c xs i))

  length-insert_by :
      (x : Condition) (ys : List Condition) → length (insert_by less x ys) ≡ suc (length ys)
  unfolding insert_by
  length-insert_by x [] = refl
  length-insert_by x (y ∷ ys) = ground (arith, length-insert_by x ys)

  pub length-sort_by : (xs : List Condition) → length (sort_by less xs) ≡ length xs
  unfolding sort_by
  length-sort_by [] = refl
  length-sort_by (x ∷ xs) = ground (arith, length-insert_by x (sort_by less xs), length-sort_by xs)

pub find-insert_by :
    (t : String) (x : Condition) (ys : List Condition)
    → find t (insert_by type_less x ys) ≡ (if x.type == t then some x else find t ys)
unfolding find insert_by
find-insert_by t x [] = refl
find-insert_by t x (y ∷ ys) = ground (
  arith,
  find-insert_by t x ys,
  text_lt-ne y.type x.type,
  eq_iff y.type x.type,
  eq_iff x.type t,
  eq_iff y.type t,
)

-- Sorting by type moves no condition past another of its type.
pub find-sort_by : (t : String) (xs : List Condition) → find t (sort_by type_less xs) ≡ find t xs
unfolding find sort_by
find-sort_by t [] = refl
find-sort_by t (x ∷ xs) =
    ground (arith, find-insert_by t x (sort_by type_less xs), find-sort_by t xs)
