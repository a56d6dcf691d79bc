-- ===== src/Handler/V12/Explain.antt =====
-- handler/v12/explain.go: the description of the server, with the same parts as in version 2.0.
use mquery_fcs.Cnf.{ServerInfo}
use mquery_fcs.General.Errors.{dc_unsupported_parameter}
use mquery_fcs.General.Request.{conformant_status_bad_request}
use mquery_fcs.Handler.Params.{Params}
use mquery_fcs.Handler.V12.Args.{validate_explain_arg}
use mquery_fcs.Handler.V20.Explain.{ExplainResponse, explain_record, wanted}
use mquery_fcs.Handler.V20.Request.{CorporaSetup}
use mquery_fcs.Handler.V20.Responses.{with_msg}
use mquery_fcs.Handler.V20.Scan.{refused}
use mquery_fcs.Prelude.{String, none, some, []}

-- `explain`, with the packing of the request in place of its escaping.
unfoldable pub explain : ServerInfo → CorporaSetup → String → Params → ExplainResponse
explain info conf packing ps = elim (refused validate_explain_arg ps) [
  | some r ↦ record {
    status = conformant_status_bad_request;
    namespace = "http://www.loc.gov/zing/srw/";
    version = "1.2";
    echoed_version = "1.2";
    explain_record = explain_record none info conf packing;
    endpoint_description = none;
    diagnostics = with_msg dc_unsupported_parameter r.0 r.1;
  }
  | none ↦ record {
    status = 200;
    namespace = "http://www.loc.gov/zing/srw/";
    version = "1.2";
    echoed_version = "1.2";
    explain_record = explain_record none info conf packing;
    endpoint_description = wanted conf.resources ps;
    diagnostics = [];
  }
]
