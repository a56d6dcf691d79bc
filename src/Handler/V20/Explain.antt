-- ===== src/Handler/V20/Explain.antt =====
-- handler/v20/explain.go: the description of the server.
pub mod Parts
pub mod English
pub mod References
pub use Parts.{
  Multilingual, Endpoint, DatabaseInfo, Definition, IndexInfo, Config, SupportedDataView, zeerex,
  index_info, schema_info, config_info, capabilities, supported_data_views,
}
use mquery_fcs.Cnf.{ServerInfo}
use mquery_fcs.Corpus.CommonAttrs.{get_common_pos_attrs2}
use mquery_fcs.Corpus.Layers.{PosAttr, get_result_id}
use mquery_fcs.Corpus.Setup.{CorpusSetup, TextMap}
use mquery_fcs.General.Errors.{dc_unsupported_parameter}
use mquery_fcs.General.Request.{conformant_status_bad_request}
use mquery_fcs.Handler.Params.{Params, query}
use mquery_fcs.Handler.V20.Args.{validate_explain_arg}
use mquery_fcs.Handler.V20.DataViews.{join}
use mquery_fcs.Handler.V20.Request.{CorporaSetup}
use mquery_fcs.Handler.V20.Responses.{Diagnostic, with_msg}
use mquery_fcs.Handler.V20.Scan.{refused}
use mquery_fcs.Prelude.Integers.{Integer}
use mquery_fcs.Prelude.{ℕ, str_eq, if◌then◌else◌, String, Bool, Option, none, some, List, [], map}

abbrev pub entries : TextMap → List (String × String)
entries none = []
entries (some m) = m

-- `MapItems` with the texts of a map, which Go takes in any order.
abbrev pub multilingual : String → TextMap → List Multilingual
multilingual primary m =
    map (λ (k, v). record { language = k; primary = str_eq primary k; value = v }) (entries m)

-- `XMLExplainRecord` with its `XMLExplainData`. Version 1.2 describes no index.
pub record ExplainRecord : Type 0 where
  pub schema : String
  pub xml_escaping : String
  pub namespace : String
  pub server_info : Endpoint
  pub database_info : DatabaseInfo
  pub index_info : Option IndexInfo
  pub schema_info : Definition
  pub config_info : List Config

-- `XMLExplainSupportedLayer`.
pub record SupportedLayer : Type 0 where
  pub id : String
  pub qualifier : String
  pub result_id : String
  pub value : String

-- `XMLExplainResource`.
pub record ExplainResource : Type 0 where
  pub pid : String
  pub landing_page : String
  pub languages : List String
  pub available_layers : String
  pub available_data_views : String
  pub titles : List (String × String)
  pub descriptions : List (String × String)

-- `XMLExplainEndpointDescription`.
pub record EndpointDescription : Type 0 where
  pub namespace : String
  pub version : String
  pub capabilities : List String
  pub supported_data_views : List SupportedDataView
  pub supported_layers : List SupportedLayer
  pub resources : List ExplainResource

-- `XMLExplainResponse` with its status, and the version of its `XMLExplainEchoedRequest`.
pub record ExplainResponse : Type 0 where
  pub status : ℕ
  pub namespace : String
  pub version : String
  pub echoed_version : String
  pub explain_record : ExplainRecord
  pub endpoint_description : Option EndpointDescription
  pub diagnostics : List Diagnostic

-- `GetDefinedLayersAsRefString`.
unfoldable pub get_defined_layers_as_ref_string : CorpusSetup → String
unfolding join
get_defined_layers_as_ref_string c = join " " (map (λ p. p.id) c.pos_attrs)

abbrev pub listed : Option (List String) → List String
listed none = []
listed (some l) = l

abbrev pub supported_layer : PosAttr → SupportedLayer
supported_layer p = record {
  id = p.id;
  qualifier = p.name;
  result_id = get_result_id p.layer;
  value = p.layer;
}

abbrev pub explain_resource : CorpusSetup → ExplainResource
explain_resource c = record {
  pid = c.pid;
  landing_page = c.uri;
  languages = listed c.languages;
  available_layers = get_defined_layers_as_ref_string c;
  available_data_views = "hits adv";
  titles = entries c.full_name;
  descriptions = entries c.description;
}

abbrev pub database_info : ServerInfo → DatabaseInfo
database_info info = record {
  titles = multilingual info.primary_language info.database_title;
  descriptions = multilingual info.primary_language info.database_description;
  authors = multilingual info.primary_language info.database_author;
}

abbrev pub explain_record : Option IndexInfo → ServerInfo → CorporaSetup → String → ExplainRecord
explain_record index info conf escaping = record {
  schema = zeerex;
  xml_escaping = escaping;
  namespace = zeerex;
  server_info = record {
    protocol = "SRU";
    version = "2.0";
    transport = "http";
    host = info.server_host;
    port = info.server_port;
    database = info.database;
  };
  database_info = database_info info;
  index_info = index;
  schema_info = schema_info;
  config_info = config_info conf.maximum_records;
}

abbrev pub endpoint_description : List CorpusSetup → EndpointDescription
endpoint_description cs = record {
  namespace = "http://clarin.eu/fcs/endpoint-description";
  version = "2";
  capabilities = capabilities;
  supported_data_views = supported_data_views;
  supported_layers = map supported_layer (get_common_pos_attrs2 cs);
  resources = map explain_resource cs;
}

abbrev pub wanted : List CorpusSetup → Params → Option EndpointDescription
wanted cs ps =
    if str_eq (query ps "x-fcs-endpoint-description") "true"
    then some (endpoint_description cs)
    else none

-- `explain`, with the escaping of the request.
unfoldable pub explain : ServerInfo → CorporaSetup → String → Params → ExplainResponse
unfolding get_defined_layers_as_ref_string get_common_pos_attrs2
explain info conf escaping ps = elim (refused validate_explain_arg ps) [
  | some r ↦ record {
    status = conformant_status_bad_request;
    namespace = "http://docs.oasis-open.org/ns/search-ws/sruResponse";
    version = "2.0";
    echoed_version = "2.0";
    explain_record = explain_record (some index_info) info conf escaping;
    endpoint_description = none;
    diagnostics = with_msg dc_unsupported_parameter r.0 r.1;
  }
  | none ↦ record {
    status = 200;
    namespace = "http://docs.oasis-open.org/ns/search-ws/sruResponse";
    version = "2.0";
    echoed_version = "2.0";
    explain_record = explain_record (some index_info) info conf escaping;
    endpoint_description = wanted conf.resources ps;
    diagnostics = [];
  }
]
