-- ===== src/Conditions/Others.antt =====
-- The loop of `SetCondition` in pkg/apis/condition_set.go, and what the sort makes of its result.
use nats_account_operator.Common.{
  String, ◌==◌, eq_iff, eq_of_==, ==_refl, ==_symm, ◌≡◌, ◌≢◌, refl, ◌∙◌, ◌⊎◌, inl, inr, true, false,
  if◌then◌else◌, none, some, List, [], ◌∷◌, ◌++◌, Memᴰ, All, arith, ℕ, Bool-cases, Option-cases,
}
use nats_account_operator.Conditions.{
  Condition, condition_eq, find, others, stamp, sort_by, type_less, insert_by, or_else,
}
use nats_account_operator.Conditions.Sort.{find-sort_by, find-insert_by}
use nats_account_operator.Conditions.Equality.{condition_eq_sound, condition_eq_refl}

-- No two conditions have one type.
abbrev pub UniqueTypes : List Condition → Type 0
UniqueTypes [] = Unit
UniqueTypes (c ∷ cs) = (find c.type cs ≡ none) × UniqueTypes cs

pub find-mem :
    (t : String) (c : Condition) (cs : List Condition)
    → find t cs ≡ some c
    → Memᴰ c cs × (c.type ≡ t)
unfolding find
find-mem t c [] h = cc
find-mem t c (x ∷ cs) h = elim (Bool-cases (x.type == t)) [
  | inl e ↦ (Memᴰ.head (ground arith), ground (arith, eq_of_== x.type t))
  | inr e ↦ let (i, q) = find-mem t c cs (ground arith) in (Memᴰ.tail i, q)
]

pub find_of_mem :
    (c : Condition) (cs : List Condition) → UniqueTypes cs → Memᴰ c cs → find c.type cs ≡ some c
unfolding find
find_of_mem c [] u i = elim i [ ]
find_of_mem c (x ∷ cs) u (Memᴰ.head e) = ground (arith, ==_refl c.type)
find_of_mem c (x ∷ cs) u (Memᴰ.tail i) =
    ground (arith, find_of_mem c cs u.1 i, eq_of_== x.type c.type)

pub find-append_one :
    (t : String) (cs : List Condition) (x : Condition)
    → find t (cs ++ x ∷ []) ≡ or_else (find t cs) (if x.type == t then some x else none)
unfolding find
find-append_one t [] x = refl
find-append_one t (c ∷ cs) x = ground (arith, find-append_one t cs x)

-- One round of the loop that does not return.
abbrev Round : Condition → Condition → List Condition → List Condition → Type 0
Round cond c cs rest =
    ((c.type == cond.type) ≡ true) × (others cond cs ≡ some rest)
    ⊎ ((c.type == cond.type) ≡ false)
      × ((r : List Condition) × (others cond cs ≡ some r) × (rest ≡ c ∷ r))

others-cons :
    (cond c : Condition) (cs rest : List Condition)
    → others cond (c ∷ cs) ≡ some rest
    → Round cond c cs rest
unfolding others
others-cons cond c cs rest h = elim (Bool-cases (c.type == cond.type)) [
  | inl e ↦ inl (e, ground arith)
  | inr e ↦ elim (Option-cases (others cond cs)) [
    | inl q ↦ ground arith
    | inr (r, q) ↦ inr (e, (r, q, ground arith))
  ]
]

pub find-others :
    (cond : Condition) (t : String) (cs rest : List Condition)
    → others cond cs ≡ some rest
    → find t rest ≡ (if cond.type == t then none else find t cs)
unfolding find
find-others cond t [] rest h = unfold others in ground arith
find-others cond t (c ∷ cs) rest h = elim (others-cons cond c cs rest h) [
  | inl (e, q) ↦
      ground (arith, find-others cond t cs rest q, eq_of_== c.type cond.type e, eq_iff cond.type t)
  | inr (e, (r, q, p)) ↦ rw p (
      ground (
        arith,
        find-others cond t cs r q,
        eq_iff c.type t,
        eq_iff cond.type t,
        eq_iff c.type cond.type,
      ))
]

-- The loop keeps only conditions that were there.
pub All-others {κ} :
    (P : Condition → Type κ) (cond : Condition) (cs rest : List Condition)
    → others cond cs ≡ some rest
    → All P cs
    → All P rest
All-others P cond [] rest h a = unfold others in let e : rest ≡ [] = ground arith in rw e tt
All-others P cond (c ∷ cs) rest h a = elim (others-cons cond c cs rest h) [
  | inl (e, q) ↦ All-others P cond cs rest q a.1
  | inr (e, (r, q, p)) ↦ rw p (a.0, All-others P cond cs r q a.1)
]

pub others-UniqueTypes :
    (cond : Condition) (cs rest : List Condition)
    → others cond cs ≡ some rest
    → UniqueTypes cs
    → UniqueTypes rest
others-UniqueTypes cond [] rest h u = unfold others in let e : rest ≡ [] = ground arith in rw e tt
others-UniqueTypes cond (c ∷ cs) rest h u = elim (others-cons cond c cs rest h) [
  | inl (e, q) ↦ others-UniqueTypes cond cs rest q u.1
  | inr (e, (r, q, p)) ↦
      rw p (ground (arith, find-others cond c.type cs r q), others-UniqueTypes cond cs r q u.1)
]

pub others_some :
    (cond : Condition) (cs : List Condition) → find cond.type cs ≡ none → others cond cs ≢ none
unfolding others find
others_some cond [] h q = cc
others_some cond (c ∷ cs) h q = elim (Option-cases (others cond cs)) [
  | inl e ↦ others_some cond cs (ground arith) e
  | inr (r, e) ↦ ground arith
]

pub others-none :
    (cond : Condition) (cs : List Condition)
    → UniqueTypes cs
    → others cond cs ≡ none
    → (n : ℕ) × (find cond.type cs ≡ some (stamp n cond))
unfolding others find
others-none cond [] u h = cc
others-none cond (c ∷ cs) u h = elim (Bool-cases (c.type == cond.type)) [
  | inl e ↦ elim (Bool-cases (condition_eq (stamp c.last_transition_time cond) c)) [
    | inl q ↦ (
      c.last_transition_time,
      ground (arith, condition_eq_sound (stamp c.last_transition_time cond) c q),
    )
    | inr q ↦ absurd (others_some cond cs (rw (← eq_of_== c.type cond.type e) u.0) (ground arith))
  ]
  | inr e ↦
      let none_left : others cond cs ≡ none = elim (Option-cases (others cond cs)) [
        | inl q ↦ q
        | inr (r, q) ↦ ground arith
      ] in
      let (n, q) = others-none cond cs u.1 none_left in (n, ground arith)
]

find-cons_none :
    (t : String) (y : Condition) (ys : List Condition)
    → find t (y ∷ ys) ≡ none
    → ((y.type == t) ≡ false) × ((t == y.type) ≡ false) × (find t ys ≡ none)
unfolding find
find-cons_none t y ys h =
    let e : (y.type == t) ≡ false = ground arith in (e, ==_symm t y.type ∙ e, ground arith)

insert_by-UniqueTypes :
    (x : Condition) (ys : List Condition)
    → find x.type ys ≡ none
    → UniqueTypes ys
    → UniqueTypes (insert_by type_less x ys)
unfolding insert_by
insert_by-UniqueTypes x [] h u = unfold find in (refl, tt)
insert_by-UniqueTypes x (y ∷ ys) h u =
    let (_, ne, fresh) = find-cons_none x.type y ys h in
    elim (Bool-cases (type_less y x)) [
      | inl e ↦ rw e (find-insert_by y.type x ys ∙ rw ne u.0, insert_by-UniqueTypes x ys fresh u.1)
      | inr e ↦ rw e (h, u)
    ]

pub sort_by-UniqueTypes :
    (xs : List Condition) → UniqueTypes xs → UniqueTypes (sort_by type_less xs)
unfolding sort_by
sort_by-UniqueTypes [] u = tt
sort_by-UniqueTypes (x ∷ xs) u =
    insert_by-UniqueTypes x (sort_by type_less xs) (find-sort_by x.type xs ∙ u.0)
      (sort_by-UniqueTypes xs u.1)

pub All-append_one {κ} :
    (P : Condition → Type κ) (xs : List Condition) (x : Condition)
    → All P xs
    → P x
    → All P (xs ++ x ∷ [])
All-append_one P [] x h p = (p, tt)
All-append_one P (y ∷ ys) x h p = (h.0, All-append_one P ys x h.1 p)

pub append_one-UniqueTypes :
    (xs : List Condition) (x : Condition)
    → find x.type xs ≡ none
    → UniqueTypes xs
    → UniqueTypes (xs ++ x ∷ [])
append_one-UniqueTypes [] x h u = unfold find in (refl, tt)
append_one-UniqueTypes (y ∷ ys) x h u =
    let (_, ne, fresh) = find-cons_none x.type y ys h in
    (find-append_one y.type ys x ∙ rw (u.0, ne) refl, append_one-UniqueTypes ys x fresh u.1)

others-cons_same :
    (cond : Condition) (n : ℕ) (cs : List Condition) → others cond (stamp n cond ∷ cs) ≡ none
unfolding others
others-cons_same cond n cs = rw (==_refl cond.type, condition_eq_refl (stamp n cond))

others-cons_none :
    (cond c : Condition) (cs : List Condition) → others cond cs ≡ none → others cond (c ∷ cs) ≡ none
unfolding others
others-cons_none cond c cs h = rw h (ground arith)

pub others_of_mem :
    (cond : Condition) (n : ℕ) (cs : List Condition)
    → Memᴰ (stamp n cond) cs
    → others cond cs ≡ none
others_of_mem cond n [] i = elim i [ ]
others_of_mem cond n (c ∷ cs) (Memᴰ.head e) = rw (← e) (others-cons_same cond n cs)
others_of_mem cond n (c ∷ cs) (Memᴰ.tail i) = others-cons_none cond c cs (others_of_mem cond n cs i)
