-- ===== src/Lib.antt =====
-- A verification library for nats-account-operator, a Kubernetes operator that manages the
-- operators, accounts, users and signing keys of a NATS cluster.
--
-- The program keeps one custom resource for each of the four kinds. A controller reconciles each
-- resource: it marks conditions on the status, creates secrets with key pairs and JWTs, and signs
-- the claims of one resource with the key pair of its issuer. The conditions decide whether a
-- resource is ready, and the controllers of other resources read that before they use its keys.
--
-- The files, and what they model (paths from the root of the repository):
--   Conditions      the condition manager, pkg/apis/condition_set.go and condition_types.go: the
--                   methods of `conditionsImpl` under their names in snake case (`MarkUnknown` is
--                   `mark_unknown`). A `*Condition` is an `Option Condition`. The accessor keeps
--                   the conditions and a clock, which gives the time of each stored condition.
--   Api             the statuses of api/accounts/v1alpha1 with the methods of the lifecycle files.
--                   Api/Lifecycle is the interface that the four statuses fill: a call makes one
--                   mark of the condition manager and changes the fields beside it.
--   Helpers         `NextSigningKeys` of pkg/helpers/signingkeys.go. `none` stands for the panic on
--                   a nil pointer.
--   Errors          internal/controller/accounts/errors.go. An error is the chain of errors that it
--                   wraps.
--   Controller      the reconcilers of internal/controller/accounts: Controller/Issuer is
--                   `loadIssuerSeed` of base_controller.go, Controller/Resolve is `resolveIssuer` of
--                   it, Controller/Objects `resolveSigningKeyOwner`, and Controller/Base the methods
--                   that write Secrets. Controller/SigningKey is the reconciler of
--                   signingkey_controller.go, and Controller/User that of user_controller.go with
--                   `MatchNamespaceSelector` of pkg/helpers/selectors.go. Controller/Operator is that of
--                   operator_controller.go. Controller/Unordered is `isEqualUnordered` of utils.go.
--                   The calls of the scheme, of the label selectors and of the key library, and the
--                   reads of objects that are not Secrets, are parameters: functions of the `Env`,
--                   the `Library` or the `Nkeys` record, or of their own, which give a value or an
--                   error. So are all calls of the cluster in Controller/SigningKey.
--   Resources       the builders of Secrets, internal/controller/accounts/resources.
--   Cluster         the Secrets that the server stores, and its calls. It is not code of the
--                   repository: each call may work, be refused, or work although its answer is
--                   lost, as an oracle says. A create refuses a name that is taken, an update and a
--                   delete one that is not.
--   Exec            actions that change the cluster and an object, and that end with a value, an
--                   early return or a panic, with Hoare rules in Exec/Ensures.
--   Nsc             the claims of pkg/nsc: conversions.go, createuser.go and createoperator.go. The
--                   constructors of the jwt library and its encoder are parameters.
--   Common          tests on numbers and strings, lists, and the names that the modules share.
-- Proofs stand in modules below the code that they are about, and tests in modules called Tests.
--
-- How the models relate to the code:
--   * All loops of the code are over lists and are structural recursion here: there is no fuel.
--   * Go's `sort.Slice` is not stable on more than twelve elements; the model sorts stably.
--   * `SetCondition` reads the clock once for each condition that it stores.
--   * The formatted message of a mark is an argument of it; how `fmt` prints a value that is not a
--     string is a parameter.
--   * Log lines, metrics and events have no effect on the state and are left out.
--   * An int64 is only copied; a JSON name or a time format is not modelled.
--   * While one reconciliation runs no other client writes a Secret, and the update of an object's
--     labels gives the stored object back. The names, the spec and the identity of a User are the
--     ones that were read first: the reconciliation ends with the update of the labels.
--
-- Not modelled: the account controller, the claims of accounts and the NATS client, which push
-- claims to a running server; updateOperatorJWTSigningKeys of operator_controller.go, which
-- nothing calls; the watchers of users, accounts and signing keys and the registration of the
-- controllers, the process in cmd and the generated clients, listers, informers and deep copies,
-- which only call or are made by libraries.
pub mod Api
pub mod Cluster
pub mod Common
pub mod Conditions
pub mod Controller
pub mod Errors
pub mod Exec
pub mod Helpers
pub mod Nsc
pub mod Resources
