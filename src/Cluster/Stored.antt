-- ===== src/Cluster/Stored.antt =====
-- What a write of Cluster.antt stored, when it ends without an error.
use nats_account_operator.Common.{
  String, ==_refl, ℕ, ◌≡◌, sym, ◌∙◌, ap, Option, some, inl, inr, Option-cases,
}
use nats_account_operator.Exec.Returns.{Ends}
use nats_account_operator.Controller.{Secret}
use nats_account_operator.Cluster.{
  Store, World, Verdict, works, refused, lost, write, called, stored, put, create_at, create_secret,
  replace_at, update_secret,
}

write_self :
    (namespace name : String) (o : Option Secret) (store : Store)
    → write namespace name o store namespace name ≡ o
unfolding write
write_self namespace name o store = rw (==_refl namespace, ==_refl name)

module _ {O : Type 0} (faults : ℕ → Verdict) where
  put_stored :
      (r : Verdict) (namespace name : String) (o : Option Secret) (w v : World O)
      → Ends (put faults r namespace name o w) tt v
      → v ≡ stored namespace name o (called w)
  unfolding put
  put_stored works namespace name o w v (p, q) = sym q
  put_stored (refused err) namespace name o w v h = absurd h
  put_stored (lost err) namespace name o w v h = absurd h

  pub create_secret-stored :
      (s : Secret) (w v : World O)
      → Ends (create_secret faults s w) tt v
      → v ≡ stored s.namespace s.name (some s) (called w)
  unfolding create_secret create_at
  create_secret-stored s w v h = elim (Option-cases (w.secrets s.namespace s.name)) [
    | inl q ↦ put_stored (faults w.calls) s.namespace s.name (some s) w v (rw q at h)
    | inr (old, q) ↦ absurd (rw q at h)
  ]

  pub update_secret-stored :
      (s : Secret) (w v : World O)
      → Ends (update_secret faults s w) tt v
      → v ≡ stored s.namespace s.name (some s) (called w)
  unfolding update_secret replace_at
  update_secret-stored s w v h = elim (Option-cases (w.secrets s.namespace s.name)) [
    | inl q ↦ absurd (rw q at h)
    | inr (old, q) ↦ put_stored (faults w.calls) s.namespace s.name (some s) w v (rw q at h)
  ]

  pub stored_at :
      (s : Secret) (w v : World O)
      → v ≡ stored s.namespace s.name (some s) (called w)
      → v.secrets s.namespace s.name ≡ some s
  stored_at s w v h =
      ap (λ (x : World O). x.secrets s.namespace s.name) h
      ∙ write_self s.namespace s.name (some s) w.secrets
