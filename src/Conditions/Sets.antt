-- ===== src/Conditions/Sets.antt =====
-- `newConditionSet` of pkg/apis/condition_set.go drops duplicates and the happy type itself.
use nats_account_operator.Common.{
  String, ◌==◌, eq_iff, ◌≡◌, refl, inl, inr, true, false, ◌||◌, List, [], ◌∷◌, ◌++◌, Memᴰ, arith,
  Bool-cases,
}
use nats_account_operator.Conditions.{ConditionSet, contains, keep_dependents, new_condition_set}

pub contains_of_mem : (ct : List String) (t : String) → Memᴰ t ct → contains ct t ≡ true
unfolding contains
contains_of_mem [] t i = elim i [ ]
contains_of_mem (c ∷ ct) t (Memᴰ.head e) = ground (arith, eq_iff c t)
contains_of_mem (c ∷ ct) t (Memᴰ.tail i) = ground (arith, contains_of_mem ct t i)

pub mem_of_contains : (ct : List String) (t : String) → contains ct t ≡ true → Memᴰ t ct
unfolding contains
mem_of_contains [] t h = ground arith
mem_of_contains (c ∷ ct) t h = elim (Bool-cases (c == t)) [
  | inl e ↦ Memᴰ.head (ground (arith, eq_iff c t))
  | inr e ↦ Memᴰ.tail (mem_of_contains ct t (ground arith))
]

-- No text is listed twice.
abbrev pub Distinct : List String → Type 0
Distinct [] = Unit
Distinct (x ∷ xs) = (contains xs x ≡ false) × Distinct xs

-- The dependents are distinct and leave the happy type out.
pub record IsProper (r : ConditionSet) : Type 0 where
  pub distinct : Distinct r.dependents
  pub apart : contains r.dependents r.happy ≡ false

contains-append_one :
    (xs : List String) (d t : String) → contains (xs ++ d ∷ []) t ≡ (contains xs t || d == t)
unfolding contains
contains-append_one [] d t = ground arith
contains-append_one (x ∷ xs) d t = ground (arith, contains-append_one xs d t)

Distinct-append_one :
    (xs : List String) (d : String) → contains xs d ≡ false → Distinct xs → Distinct (xs ++ d ∷ [])
unfolding contains
Distinct-append_one [] d h u = (refl, tt)
Distinct-append_one (x ∷ xs) d h u = (
  ground (arith, contains-append_one xs d x, eq_iff d x, eq_iff x d),
  Distinct-append_one xs d (ground arith) u.1,
)

keep_dependents-IsProper :
    (happy : String) (deps ds : List String)
    → Distinct deps
    → contains deps happy ≡ false
    → Distinct (keep_dependents happy deps ds)
      × (contains (keep_dependents happy deps ds) happy ≡ false)
unfolding keep_dependents
keep_dependents-IsProper happy deps [] u a = (u, a)
keep_dependents-IsProper happy deps (d ∷ ds) u a =
    elim (Bool-cases (d == happy || contains deps d)) [
      | inl e ↦ rw e (keep_dependents-IsProper happy deps ds u a)
      | inr e ↦ rw e (
          keep_dependents-IsProper happy (deps ++ d ∷ []) ds
            (Distinct-append_one deps d (ground arith) u)
            (ground (arith, contains-append_one deps d happy)))
    ]

contains-keep_dependents :
    (happy t : String) (deps ds : List String)
    → (happy == t) ≡ false
    → contains (keep_dependents happy deps ds) t ≡ (contains deps t || contains ds t)
unfolding keep_dependents contains
contains-keep_dependents happy t deps [] ne = ground arith
contains-keep_dependents happy t deps (d ∷ ds) ne =
    elim (Bool-cases (d == happy || contains deps d)) [
      | inl e ↦ rw e (
          ground (
            arith,
            contains-keep_dependents happy t deps ds ne,
            eq_iff d t,
            eq_iff d happy,
            eq_iff happy t,
          ))
      | inr e ↦ rw e (
          ground (
            arith,
            contains-keep_dependents happy t (deps ++ d ∷ []) ds ne,
            contains-append_one deps d t,
          ))
    ]

-- A condition set, from any arguments, has distinct dependents without the happy type; a type
-- other than the happy one is a dependent exactly when it was given.
pub new_condition_set-IsProper :
    (happy : String) (ds : List String)
    → IsProper (new_condition_set happy ds)
      × ((t : String)
          → (happy == t) ≡ false
          → contains (new_condition_set happy ds).dependents t ≡ contains ds t)
unfolding new_condition_set
new_condition_set-IsProper happy ds =
    let none_yet : contains [] happy ≡ false = unfold contains in refl in
    let (u, a) = keep_dependents-IsProper happy [] ds tt none_yet in
    (
      record { distinct = u; apart = a },
      λ t ne. unfold contains in contains-keep_dependents happy t [] ds ne,
    )
