-- ===== src/Nsc/Types.antt =====
-- The conversions of pkg/nsc/conversions.go for the imports and exports of an Account.
use nats_account_operator.Common.{
  String, ◌==◌, ℕ, Bool, Option, none, some, List, if◌then◌else◌, map,
}
use nats_account_operator.Nsc.{ℤ}

-- `ExportType` of the library.
pub data ExportType : Type 0 where
  unknown stream service : ExportType

unfoldable pub convert_to_nats_export_type : String → ExportType
convert_to_nats_export_type ie_type =
    if ie_type == "stream" then stream else if ie_type == "service" then service else unknown

-- `ResponseType` of the library, a string: its constants are parameters.
pub record ResponseTypes : Type 0 where
  pub singleton : String
  pub stream : String
  pub chunked : String

unfoldable pub convert_to_nats_response_type : ResponseTypes → String → String
convert_to_nats_response_type r response_type =
    if response_type == "singleton"
    then r.singleton
    else if response_type == "stream"
    then r.stream
    else if response_type == "chunked"
    then r.chunked
    else ""

pub record AccountServiceLatency : Type 0 where
  pub sampling : ℤ
  pub results : String

pub record ServiceLatency : Type 0 where
  pub sampling : ℤ
  pub results : String

unfoldable pub convert_to_nats_service_latency :
    Option AccountServiceLatency → Option ServiceLatency
convert_to_nats_service_latency none = none
convert_to_nats_service_latency (some latency) =
    some (record { sampling = latency.sampling; results = latency.results })

pub record AccountImport : Type 0 where
  pub name : String
  pub subject : String
  pub account : String
  pub token : String
  pub to : String
  pub type : String

pub record Import : Type 0 where
  pub name : String
  pub subject : String
  pub account : String
  pub token : String
  pub to : String
  pub type : ExportType

-- `Add` of the library appends to an empty list here.
pub convert_to_nats_imports : List AccountImport → List Import
unfolding convert_to_nats_export_type
convert_to_nats_imports = map (λ i. record {
  name = i.name;
  subject = i.subject;
  account = i.account;
  token = i.token;
  to = i.to;
  type = convert_to_nats_export_type i.type;
})

pub record AccountExport : Type 0 where
  pub name : String
  pub subject : String
  pub type : String
  pub token_req : Bool
  pub response_type : String
  pub service_latency : Option AccountServiceLatency
  pub account_token_position : ℕ

pub record Export : Type 0 where
  pub name : String
  pub subject : String
  pub type : ExportType
  pub token_req : Bool
  pub response_type : String
  pub latency : Option ServiceLatency
  pub account_token_position : ℕ

abbrev pub convert_export : ResponseTypes → AccountExport → Export
convert_export r export = record {
  name = export.name;
  subject = export.subject;
  type = convert_to_nats_export_type export.type;
  token_req = export.token_req;
  response_type = convert_to_nats_response_type r export.response_type;
  latency = convert_to_nats_service_latency export.service_latency;
  account_token_position = export.account_token_position;
}

-- A nil slice, which is `none`, stays nil.
pub convert_to_nats_exports : ResponseTypes → Option (List AccountExport) → Option (List Export)
convert_to_nats_exports r none = none
convert_to_nats_exports r (some exports) = some (map (convert_export r) exports)
