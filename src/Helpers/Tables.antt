-- ===== src/Helpers/Tables.antt =====
-- The map operations of signingkeys.go in pkg/helpers, and the two loops of `NextSigningKeys`.
use nats_account_operator.Common.{
  String, ◌==◌, eq_iff, ==_refl, ==_symm, eq_of_==, ◌≡◌, ◌≢◌, refl, sym, ◌∙◌, ap, ◌⊎◌, inl, inr,
  true, false, none, some, List, [], ◌∷◌, ◌++◌, arith, Bool-cases, Option-cases,
}
use nats_account_operator.Api.{SigningKeyEmbeddedStatus}
use nats_account_operator.Helpers.{lookup, delete, insert, keep, left}

-- No name twice.
abbrev pub UniqueNames : List SigningKeyEmbeddedStatus → Type 0
UniqueNames [] = Unit
UniqueNames (e ∷ es) = (lookup e.name es ≡ none) × UniqueNames es

pub lookup-delete_self :
    (n : String) (t : List SigningKeyEmbeddedStatus) → lookup n (delete n t) ≡ none
unfolding lookup delete
lookup-delete_self n [] = refl
lookup-delete_self n (e ∷ es) = elim (Bool-cases (e.name == n)) [
  | inl q ↦ rw q (lookup-delete_self n es)
  | inr q ↦ rw q (rw q (lookup-delete_self n es))
]

pub lookup-delete_ne :
    (m n : String) (t : List SigningKeyEmbeddedStatus)
    → (m == n) ≡ false
    → lookup n (delete m t) ≡ lookup n t
unfolding lookup delete
lookup-delete_ne m n [] ne = refl
lookup-delete_ne m n (e ∷ es) ne =
    ground (arith, eq_iff e.name m, eq_iff e.name n, eq_iff m n, lookup-delete_ne m n es ne)

pub lookup_name :
    (n : String) (t : List SigningKeyEmbeddedStatus) (e : SigningKeyEmbeddedStatus)
    → lookup n t ≡ some e
    → (e.name == n) ≡ true
unfolding lookup
lookup_name n [] e h = ground arith
lookup_name n (x ∷ xs) e h = elim (Bool-cases (x.name == n)) [
  | inl q ↦ ground arith
  | inr q ↦ lookup_name n xs e (rw q at h)
]

pub lookup-append :
    (n : String) (s t : List SigningKeyEmbeddedStatus)
    → lookup n s ≡ none
    → lookup n (s ++ t) ≡ lookup n t
unfolding lookup
lookup-append n [] t h = refl
lookup-append n (x ∷ xs) t h = elim (Bool-cases (x.name == n)) [
  | inl q ↦ ground arith
  | inr q ↦ rw q (lookup-append n xs t (rw q at h))
]

pub lookup-append_some :
    (n : String) (s t : List SigningKeyEmbeddedStatus) (e : SigningKeyEmbeddedStatus)
    → lookup n s ≡ some e
    → lookup n (s ++ t) ≡ some e
unfolding lookup
lookup-append_some n [] t e h = ground arith
lookup-append_some n (x ∷ xs) t e h = elim (Bool-cases (x.name == n)) [
  | inl q ↦ rw q (rw q at h)
  | inr q ↦ rw q (lookup-append_some n xs t e (rw q at h))
]

pub delete-UniqueNames :
    (n : String) (t : List SigningKeyEmbeddedStatus) → UniqueNames t → UniqueNames (delete n t)
unfolding delete
delete-UniqueNames n [] u = tt
delete-UniqueNames n (e ∷ es) u = elim (Bool-cases (e.name == n)) [
  | inl q ↦ rw q (delete-UniqueNames n es u.1)
  | inr q ↦
      rw q (lookup-delete_ne n e.name es (==_symm n e.name ∙ q) ∙ u.0, delete-UniqueNames n es u.1)
]

pub insert-UniqueNames :
    (e : SigningKeyEmbeddedStatus) (t : List SigningKeyEmbeddedStatus)
    → UniqueNames t
    → UniqueNames (insert e t)
unfolding insert
insert-UniqueNames e t u = (lookup-delete_self e.name t, delete-UniqueNames e.name t u)

cons_found :
    (e : SigningKeyEmbeddedStatus) (es : List SigningKeyEmbeddedStatus)
    → lookup e.name (e ∷ es) ≢ none
unfolding lookup
cons_found e es h = ground (arith, ==_refl e.name)

rest_absent :
    (n : String) (e : SigningKeyEmbeddedStatus) (es : List SigningKeyEmbeddedStatus)
    → lookup n (e ∷ es) ≡ none
    → lookup n es ≡ none
unfolding lookup
rest_absent n e es h = ground arith

pub append-UniqueNames :
    (s t : List SigningKeyEmbeddedStatus)
    → UniqueNames s
    → UniqueNames t
    → ((n : String) → (lookup n s ≡ none) ⊎ (lookup n t ≡ none))
    → UniqueNames (s ++ t)
unfolding lookup
append-UniqueNames [] t u v apart = v
append-UniqueNames (e ∷ es) t u v apart = (
  lookup-append e.name es t u.0
      ∙ elim (apart e.name) [ inl h ↦ absurd (cons_found e es h) | inr h ↦ h ],
  append-UniqueNames es t u.1 v
      (λ n. elim (apart n) [ inl h ↦ inl (rest_absent n e es h) | inr h ↦ inr h ]),
)

-- How the loop over the current keys divides the map: a key that it keeps has the value of the map
-- and is not among the ones left, which have the value of the map at every other key.
abbrev pub Divides :
    String
    → List SigningKeyEmbeddedStatus
    → List SigningKeyEmbeddedStatus × List SigningKeyEmbeddedStatus
    → Type 0
Divides n t r =
    ((e : SigningKeyEmbeddedStatus) × (lookup n r.0 ≡ some e)
      × (lookup n t ≡ some e)
      × (lookup n r.1 ≡ none))
    ⊎ ((lookup n r.0 ≡ none) × (lookup n r.1 ≡ lookup n t))

keep_same :
    (e x : SigningKeyEmbeddedStatus) (n : String) (t : List SigningKeyEmbeddedStatus)
    (r : List SigningKeyEmbeddedStatus × List SigningKeyEmbeddedStatus)
    → lookup e.name t ≡ some x
    → (e.name == n) ≡ true
    → Divides n (delete e.name t) r
    → Divides n t (x ∷ r.0, r.1)
unfolding lookup
keep_same e x n t r h q d =
    let same : (x.name == n) ≡ true = rw (sym (eq_of_== e.name n q)) (lookup_name e.name t x h) in
    let here : lookup n t ≡ some x = rw (sym (eq_of_== e.name n q)) h in
    let gone : lookup n (delete e.name t) ≡ none =
      rw (sym (eq_of_== e.name n q)) (lookup-delete_self e.name t) in
    inl (x, rw same refl, here, elim d [ inl (y, k, m, l) ↦ l | inr (k, l) ↦ l ∙ gone ])

keep_other :
    (e x : SigningKeyEmbeddedStatus) (n : String) (t : List SigningKeyEmbeddedStatus)
    (r : List SigningKeyEmbeddedStatus × List SigningKeyEmbeddedStatus)
    → lookup e.name t ≡ some x
    → (e.name == n) ≡ false
    → Divides n (delete e.name t) r
    → Divides n t (x ∷ r.0, r.1)
unfolding lookup
keep_other e x n t r h q d =
    let differs : (x.name == n) ≡ false =
      ground
        (arith, eq_iff x.name n, eq_iff e.name n, eq_iff x.name e.name, lookup_name e.name t x h) in
    elim d [
      | inl (y, k, m, l) ↦ inl (y, rw differs k, sym (lookup-delete_ne e.name n t q) ∙ m, l)
      | inr (k, l) ↦ inr (rw differs k, l ∙ lookup-delete_ne e.name n t q)
    ]

pub keep-Divides :
    (n : String) (current t : List SigningKeyEmbeddedStatus) → Divides n t (keep current t)
unfolding keep lookup left
keep-Divides n [] t = inr (refl, refl)
keep-Divides n (e ∷ es) t = elim (Option-cases (lookup e.name t)) [
  | inl h ↦ rw h (keep-Divides n es t)
  | inr (x, h) ↦ elim (Bool-cases (e.name == n)) [
    | inl q ↦
        rw h
          (keep_same e x n t (keep es (delete e.name t)) h q (keep-Divides n es (delete e.name t)))
    | inr q ↦
        rw h
          (keep_other e x n t (keep es (delete e.name t)) h q (keep-Divides n es (delete e.name t)))
  ]
]

absent :
    (n : String) (t : List SigningKeyEmbeddedStatus)
    (r : List SigningKeyEmbeddedStatus × List SigningKeyEmbeddedStatus)
    → Divides n t r
    → lookup n t ≡ none
    → lookup n r.0 ≡ none
absent n t r d h = elim d [ inl (y, k, m, l) ↦ ground arith | inr (k, l) ↦ k ]

-- The loop keeps no name twice, and leaves none twice.
pub keep-UniqueNames : (current t : List SigningKeyEmbeddedStatus) → UniqueNames (keep current t).0
unfolding keep lookup left
keep-UniqueNames [] t = tt
keep-UniqueNames (e ∷ es) t = elim (Option-cases (lookup e.name t)) [
  | inl h ↦ rw h (keep-UniqueNames es t)
  | inr (x, h) ↦ rw h (
    absent x.name (delete e.name t) (keep es (delete e.name t))
        (keep-Divides x.name es (delete e.name t))
        (rw (eq_of_== x.name e.name (lookup_name e.name t x h)) (lookup-delete_self e.name t)),
    keep-UniqueNames es (delete e.name t),
  )
]

pub keep_rest-UniqueNames :
    (current t : List SigningKeyEmbeddedStatus) → UniqueNames t → UniqueNames (keep current t).1
unfolding keep lookup left
keep_rest-UniqueNames [] t u = u
keep_rest-UniqueNames (e ∷ es) t u = elim (Option-cases (lookup e.name t)) [
  | inl h ↦ rw h (keep_rest-UniqueNames es t u)
  | inr (x, h) ↦ rw h (keep_rest-UniqueNames es (delete e.name t) (delete-UniqueNames e.name t u))
]

pub no_names : (t : List SigningKeyEmbeddedStatus) → ((n : String) → lookup n t ≡ none) → t ≡ []
no_names [] h = refl
no_names (e ∷ es) h = absurd (cons_found e es (h e.name))

after_first :
    (e : SigningKeyEmbeddedStatus) (es t : List SigningKeyEmbeddedStatus)
    → UniqueNames (e ∷ es)
    → ((n : String) → lookup n t ≡ lookup n (e ∷ es))
    → (n : String) → lookup n (delete e.name t) ≡ lookup n es
unfolding lookup
after_first e es t u h n = elim (Bool-cases (e.name == n)) [
  | inl q ↦ rw (sym (eq_of_== e.name n q)) (lookup-delete_self e.name t ∙ sym u.0)
  | inr q ↦ lookup-delete_ne e.name n t q ∙ h n ∙ rw q refl
]

-- A list with the entries of the map is kept whole, and leaves nothing.
pub keep_all :
    (current t : List SigningKeyEmbeddedStatus)
    → UniqueNames current
    → ((n : String) → lookup n t ≡ lookup n current)
    → keep current t ≡ (current, [])
unfolding keep left
keep_all [] t u h = ap (λ l. ([], l)) (no_names t h)
keep_all (e ∷ es) t u h =
    let found : lookup e.name t ≡ some e = h e.name ∙ unfold lookup in rw (==_refl e.name) refl in
    let rest : keep es (delete e.name t) ≡ (es, []) =
      keep_all es (delete e.name t) u.1 (after_first e es t u h) in
    rw (found, rest) refl
