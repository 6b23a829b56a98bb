-- ===== src/Controller/Resolve/Tests.antt =====
-- A ready issuer in the fallback namespace.
use nats_account_operator.Common.{String, ◌≡◌, refl, none, [], ◌∷◌}
use nats_account_operator.Conditions.{
  ConditionSet, Accessor, new_living_condition_set, mark_true, initialize_conditions,
  get_top_level_condition,
}
use nats_account_operator.Api.{TypedObjectReference}
use nats_account_operator.Controller.Issuer.{Issuer}
use nats_account_operator.Controller.{Outcome, ok, Fetched, found}
use nats_account_operator.Controller.Resolve.{
  KeyPairable, Object, key_pairable, Made, client_object, check_ready, check_object,
  issuer_namespace, check_made, resolve_issuer,
}
use nats_account_operator.Controller.Resolve.Resolved.{
  started, IsResolved, resolve_issuer-IsResolved,
}

pub record Acme : Type 0 where
  pub issuer : Issuer
  pub condition_set : ConditionSet
  pub status : Accessor

abbrev methods : KeyPairable Acme
methods = record {
  issuer = λ k. k.issuer;
  condition_set = λ k. k.condition_set;
  get_status = λ k. k.status;
  set_status = λ a k. record k { status = a };
}

abbrev set : ConditionSet
set = new_living_condition_set ("Seed" ∷ [])

abbrev acme : Acme
acme = record {
  issuer = record { name = "acme"; namespace = "nats"; key_pair = none };
  condition_set = set;
  status = mark_true set "Seed" (record { conditions = []; clock = λ n. n });
}

abbrev ref : TypedObjectReference
ref = record {
  api_version = "accounts.nats.io/v1alpha1";
  kind = "Account";
  name = "acme";
  namespace = "";
  uid = "";
}

abbrev scheme_new : String → String → Outcome Made
scheme_new v k = ok client_object

abbrev get : String → String → Fetched (Object Acme)
get ns n = found (key_pairable acme)

abbrev gvk_text : String → String → String
gvk_text v k = k

acme_found : resolve_issuer methods scheme_new get gvk_text ref "nats" ≡ ok (started methods acme)
unfolding resolve_issuer check_made check_object check_ready issuer_namespace
    new_living_condition_set mark_true initialize_conditions get_top_level_condition
acme_found = refl

resolve_issuer-IsResolved_example :
    IsResolved methods scheme_new get gvk_text ref "nats" (started methods acme)
resolve_issuer-IsResolved_example =
    resolve_issuer-IsResolved methods scheme_new get gvk_text ref "nats" (started methods acme)
      acme_found
