-- ===== src/Handler/V20/Dispatch.antt =====
-- handler/general.go and handler/v20/base.go: which operation serves a request.
pub mod Serving
use mquery_fcs.General.Errors.{
  FcsError, dc_unsupported_version, dc_unsupported_operation, dc_unsupported_record_packing,
}
use mquery_fcs.General.Request.{FcsGeneralRequest, add_error, has_fatal_error}
use mquery_fcs.Handler.Params.{Params, has, default_query, get_query, value_or}
use mquery_fcs.Handler.V20.Args.{
  operation_explain, operation_scan, operation_search_retrive, validate_operation,
  validate_record_xml_escaping, record_xml_escaping_xml,
}
use mquery_fcs.Prelude.{str_eq, if◌then◌else◌, String, false, ◌||◌, none, some, List, [], ◌∷◌}
use mquery_fcs.Prelude.Text.{concat}

abbrev pub default_version : String
default_version = "2.0"

abbrev pub new_request : String → FcsGeneralRequest
new_request version = record { version = version; errors = []; fatal = false; xslt = "" }

-- What `handleWithXSLT` hands on: the version whose handler is called and the request.
unfoldable pub handle_with_xslt : Params → FcsGeneralRequest
handle_with_xslt ps =
    let version = default_query ps "version" default_version in
    if str_eq version "1.2" || str_eq version "2.0"
    then new_request version
    else add_error
        (record {
          type = 0;
          code = dc_unsupported_version;
          ident = default_version;
          message = concat ("Unsupported version " ∷ default_version ∷ []);
        })
        (new_request default_version)

pub record FcsRequest : Type 0 where
  pub general : FcsGeneralRequest
  pub record_xml_escaping : String
  pub operation : String

-- How `Handle` answers: with the errors as an explain or a search response, or by an operation.
pub data Reply : Type 0 where
  explain_errors search_errors : List FcsError → Reply
  explain scan search_retrieve : FcsRequest → Reply

-- The operation that the parameters ask for.
abbrev pub chosen_operation : Params → String
chosen_operation ps =
    if has ps "operation"
    then default_query ps "operation" operation_explain
    else if has ps "query"
    then operation_search_retrive
    else if has ps "scanClause"
    then operation_scan
    else operation_explain

abbrev pub call : FcsRequest → Reply
call r =
    if str_eq r.operation operation_explain
    then explain r
    else if str_eq r.operation operation_search_retrive
    then search_retrieve r
    else scan r

-- The part of `Handle` behind the check of the operation.
abbrev pub handle_operation : FcsGeneralRequest → Params → String → Reply
handle_operation r ps operation =
    let escaping = default_query ps "recordXMLEscaping" record_xml_escaping_xml in
    elim (validate_record_xml_escaping escaping) [
      | none ↦ call (record { general = r; record_xml_escaping = escaping; operation = operation })
      | some e ↦
          let errors =
            (add_error
              (record {
                type = 0;
                code = dc_unsupported_record_packing;
                ident = "recordXMLEscaping";
                message = e;
              })
              r).errors in
          if str_eq operation operation_search_retrive
          then search_errors errors
          else explain_errors errors
    ]

-- `Handle`, with the style sheets of the operations.
unfoldable pub handle : List (String × String) → FcsGeneralRequest → Params → Reply
unfolding validate_operation validate_record_xml_escaping
handle xslt r ps =
    let operation = chosen_operation ps in
    if has_fatal_error r then explain_errors r.errors else elim (validate_operation operation) [
      | some e ↦
          explain_errors
            (add_error
              (record {
                type = 0;
                code = dc_unsupported_operation;
                ident = "operation";
                message = concat ("Unsupported operation: " ∷ operation ∷ []);
              })
              r).errors
      | none ↦
          handle_operation (record r { xslt = value_or "" (get_query xslt operation) }) ps operation
    ]
