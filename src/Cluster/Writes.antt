-- ===== src/Cluster/Writes.antt =====
-- What the calls of the cluster in Cluster.antt keep: the Secrets that satisfy a predicate `F`, when
-- a call writes under no name that holds one, and a property `G` of the object.
use nats_account_operator.Common.{
  String, ◌==◌, eq_iff, ℕ, ◌≡◌, ◌≢◌, refl, sym, ◌∙◌, ap, true, ◌&&◌, Option, none, some, List, [],
  ◌∷◌, arith, inl, inr, Bool-cases, Option-cases,
}
use nats_account_operator.Exec.Ensures.{
  Ensures, Any, Ensures-modify, Ensures-expect, Ensures-weaken,
}
use nats_account_operator.Controller.{Outcome, Fetched, found, not_found, unreadable, Secret}
use nats_account_operator.Cluster.{
  Store, World, Verdict, works, refused, lost, write, fetch, called, stored, change, get_secret,
  put, create_at, create_secret, replace_at, update_secret, remains, delete_secret, reading,
}

-- Each Secret is stored under its own namespace and name.
abbrev pub IsKeyed : Store → Type 0
IsKeyed store =
    (namespace name : String) (s : Secret)
    → store namespace name ≡ some s
    → (s.namespace ≡ namespace) × (s.name ≡ name)

abbrev pub Keeps : (Secret → Type 0) → Store → Store → Type 0
Keeps F start store =
    (namespace name : String) (s : Secret)
    → F s
    → start namespace name ≡ some s
    → store namespace name ≡ some s

module _ {O : Type 0} (F : Secret → Type 0) (G : O → Type 0) (start : Store) where
  pub record IsKept (w : World O) : Type 0 where
    pub of_object : G w.object
    pub kept : Keeps F start w.secrets
    pub keyed : IsKeyed w.secrets

  -- No Secret with `F` has this name.
  abbrev pub IsFree : String → String → Type 0
  IsFree namespace name = (s : Secret) → F s → start namespace name ≢ some s

abbrev pub HasKey : String → String → Option Secret → Type 0
HasKey namespace name none = Unit {0}
HasKey namespace name (some s) = (s.namespace ≡ namespace) × (s.name ≡ name)

both_eq : (a b c d : String) → ((a == b) && (c == d)) ≡ true → (a ≡ b) × (c ≡ d)
both_eq a b c d h = (ground (arith, eq_iff a b, eq_iff c d), ground (arith, eq_iff a b, eq_iff c d))

some_inj : {A : Type 0} (a b : A) → some a ≡ some b → a ≡ b
some_inj a b h = ground arith

write-Keeps :
    (F : Secret → Type 0) (start store : Store) (namespace name : String) (o : Option Secret)
    → ((s : Secret) → F s → start namespace name ≢ some s)
    → Keeps F start store
    → Keeps F start (write namespace name o store)
unfolding write
write-Keeps F start store namespace name o free h ns n s f e =
    elim (Bool-cases ((ns == namespace) && (n == name))) [
      | inl q ↦ let (p, r) = both_eq ns namespace n name q in absurd (free s f (rw (p, r) at e))
      | inr q ↦ rw q (h ns n s f e)
    ]

pub write-IsKeyed :
    (store : Store) (namespace name : String) (o : Option Secret)
    → HasKey namespace name o
    → IsKeyed store
    → IsKeyed (write namespace name o store)
unfolding write
write-IsKeyed store namespace name o k h ns n s e =
    elim (Bool-cases ((ns == namespace) && (n == name))) [
      | inl q ↦ let (p, r) = both_eq ns namespace n name q in has_key o k p r (rw q at e)
      | inr q ↦ h ns n s (rw q at e)
    ]
  where
    has_key :
        (o : Option Secret)
        → HasKey namespace name o
        → ns ≡ namespace
        → n ≡ name
        → o ≡ some s
        → (s.namespace ≡ ns) × (s.name ≡ n)
    has_key none k p r e = ground arith
    has_key (some t) (a, b) p r e =
        let q = some_inj t s e in
        (ap (λ x. x.namespace) (sym q) ∙ a ∙ sym p, ap (λ x. x.name) (sym q) ∙ b ∙ sym r)

remains-HasKey : (fs : List String) (s : Secret) → HasKey s.namespace s.name (remains fs s)
unfolding remains
remains-HasKey [] s = tt
remains-HasKey (_ ∷ _) s = (refl, refl)

module _ {O : Type 0} (F : Secret → Type 0) (G : O → Type 0) (start : Store) where
  abbrev Kept : World O → Type 0
  Kept = IsKept F G start

  called-IsKept : (w : World O) → Kept w → Kept (called w)
  called-IsKept w h = record { of_object = h.of_object; kept = h.kept; keyed = h.keyed }

  stored-IsKept :
      (namespace name : String) (o : Option Secret) (w : World O)
      → IsFree F G start namespace name
      → HasKey namespace name o
      → Kept w
      → Kept (stored namespace name o (called w))
  stored-IsKept namespace name o w free k h = record {
    of_object = h.of_object;
    kept = write-Keeps F start w.secrets namespace name o free h.kept;
    keyed = write-IsKeyed w.secrets namespace name o k h.keyed;
  }

  -- What a read gives: a Secret under its name, the one with `F` if there was one.
  pub record IsRead (namespace name : String) (got : Secret) : Type 0 where
    pub own_namespace : got.namespace ≡ namespace
    pub own_name : got.name ≡ name
    pub same : (s : Secret) → F s → start namespace name ≡ some s → s ≡ got

  abbrev pub ReadOf : String → String → Fetched Secret → Type 0
  ReadOf namespace name (found got) = IsRead namespace name got
  ReadOf namespace name (not_found err) = IsFree F G start namespace name
  ReadOf namespace name (unreadable err) = Unit {0}

  fetch-ReadOf :
      (v : Verdict) (namespace name : String) (w : World O) (o : Option Secret)
      → w.secrets namespace name ≡ o
      → Kept w
      → ReadOf namespace name (fetch v o)
  unfolding fetch
  fetch-ReadOf works namespace name w none e h =
      λ s f p. ground (arith, e, h.kept namespace name s f p)
  fetch-ReadOf works namespace name w (some got) e h = record {
    own_namespace = (h.keyed namespace name got e).0;
    own_name = (h.keyed namespace name got e).1;
    same = λ s f p. some_inj s got (sym (h.kept namespace name s f p) ∙ e);
  }
  fetch-ReadOf (refused err) namespace name w o e h = tt
  fetch-ReadOf (lost err) namespace name w o e h = tt

  module _ (faults : ℕ → Verdict) where
    pub Ensures-get_secret :
        {E : Type 0} (namespace name : String)
        → Ensures {E = E}
            (IsKept F G start)
            (ReadOf namespace name)
            (get_secret faults namespace name)
    unfolding get_secret
    Ensures-get_secret namespace name = record {
      at = λ w h. (
        fetch-ReadOf (faults w.calls) namespace name w (w.secrets namespace name) refl h,
        called-IsKept w h,
      );
    }

    put-Kept :
        (v : Verdict) (namespace name : String) (o : Option Secret)
        → IsFree F G start namespace name
        → HasKey namespace name o
        → Ensures Kept Any (put faults v namespace name o)
    unfolding put
    put-Kept works namespace name o free k = record {
      at = λ w h. (tt, stored-IsKept namespace name o w free k h);
    }
    put-Kept (refused err) namespace name o free k = record { at = called-IsKept }
    put-Kept (lost err) namespace name o free k = record {
      at = λ w h. stored-IsKept namespace name o w free k h;
    }

    -- A name that is taken is refused, so nothing is lost whatever the name is.
    pub Ensures-create_secret :
        (secret : Secret) → Ensures (IsKept F G start) Any (create_secret faults secret)
    unfolding create_secret create_at
    Ensures-create_secret secret = record {
      at = λ w h. elim (Option-cases (w.secrets secret.namespace secret.name)) [
        | inl q ↦ rw q (
            (put-Kept (faults w.calls) secret.namespace secret.name (some secret)
                (λ s f p. ground (arith, q, h.kept secret.namespace secret.name s f p))
                (refl, refl)).at
              w h)
        | inr (old, q) ↦ rw q (called-IsKept w h)
      ];
    }

    replace-Kept :
        (secret : Secret) (o : Option Secret)
        → IsFree F G start secret.namespace secret.name
        → HasKey secret.namespace secret.name o
        → Ensures Kept Any (λ w.
          replace_at faults
            (w.secrets secret.namespace secret.name)
            secret.namespace
            secret.name
            o
            w)
    unfolding replace_at
    replace-Kept secret o free k = record {
      at = λ w h. elim (Option-cases (w.secrets secret.namespace secret.name)) [
        | inl q ↦ rw q (called-IsKept w h)
        | inr (old, q) ↦
            rw q ((put-Kept (faults w.calls) secret.namespace secret.name o free k).at w h)
      ];
    }

    pub Ensures-update_secret :
        (secret : Secret)
        → IsFree F G start secret.namespace secret.name
        → Ensures (IsKept F G start) Any (update_secret faults secret)
    unfolding update_secret
    Ensures-update_secret secret free = replace-Kept secret (some secret) free (refl, refl)

    pub Ensures-delete_secret :
        (secret : Secret)
        → IsFree F G start secret.namespace secret.name
        → Ensures (IsKept F G start) Any (delete_secret faults secret)
    unfolding delete_secret
    Ensures-delete_secret secret free =
        replace-Kept secret (remains secret.finalizers secret) free
          (remains-HasKey secret.finalizers secret)

  pub Ensures-change :
      {E : Type 0} (f : O → O)
      → ((o : O) → G o → G (f o))
      → Ensures {E = E} (IsKept F G start) Any (change f)
  unfolding change
  Ensures-change f k =
      Ensures-modify (λ w. record w { object = f w.object })
        (λ w h. record { of_object = k w.object h.of_object; kept = h.kept; keyed = h.keyed })

  pub Ensures-reading :
      {A : Type 0} (faults : ℕ → Verdict) (f : (String → String → Fetched Secret) → Outcome A)
      → Ensures (IsKept F G start) Any (reading faults f)
  unfolding reading
  Ensures-reading faults f = record {
    at = λ w h.
        (Ensures-weaken _ (Ensures-expect (f _) _) (λ _ _. tt)).at (called w) (called-IsKept w h);
  }
