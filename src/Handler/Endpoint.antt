-- ===== src/Handler/Endpoint.antt =====
-- handler/general.go with handler/v20/base.go and handler/v12/base.go: from the parameters of a request to
-- its response, whose style sheet is left out.
pub mod Shapes
use mquery_fcs.Cnf.{ServerInfo}
use mquery_fcs.General.Errors.{FcsError, is_fatal, overthrow}
use mquery_fcs.General.Request.{
  FcsGeneralRequest, add_error, has_fatal_error, conformant_status_bad_request,
}
use mquery_fcs.Handler.Params.{Params, default_query}
use mquery_fcs.Handler.V12
use mquery_fcs.Handler.V20
use mquery_fcs.Handler.V20.Dispatch.{handle_with_xslt, new_request, chosen_operation}
use mquery_fcs.Handler.V20.Explain.{ExplainResponse}
use mquery_fcs.Handler.V20.Request.{CorporaSetup}
use mquery_fcs.Handler.V20.Responses.{Diagnostic, SrResponse, Step, panicked, answered, going}
use mquery_fcs.Handler.V20.Search.{Parsed, Published}
use mquery_fcs.Prelude.{
  ℕ, str_eq, if◌then◌else◌, String, true, false, ◌||◌, none, some, List, [], ◌∷◌, map, ◌≡◌, refl,
  ap, ◌∙◌, inl, inr, Bool-cases, arith,
}
use mquery_fcs.Query.Basic.{BinaryOperatorQuery}
use mquery_fcs.Query.FcsQl
use mquery_fcs.Rdb.{ConcQueryArgs}

-- What the handlers have at hand.
pub record Server (L : Type 0) : Type 0 where
  pub info : ServerInfo
  pub conf : CorporaSetup
  pub parse_basic : String → Parsed BinaryOperatorQuery
  pub parse_fcs : String → Parsed FcsQl.Query
  pub publish : ConcQueryArgs → Published L

-- The response to a request: a panic, or one of the responses of the operations. Errors of the request
-- come as an explain or as a search response that holds nothing else.
pub data Response (L : Type 0) : Type 0 where
  crashed : Response L
  explained : ExplainResponse → Response L
  searched : SrResponse L → Response L
  scanned : ℕ → List Diagnostic → Response L
  explain_refused search_refused : ℕ → List Diagnostic → Response L

abbrev pub diagnostic : FcsError → Diagnostic
diagnostic e = record { code = e.code; details = e.ident; message = e.message }

module _ {L : Type 0} where
  abbrev pub of_step : Step L (SrResponse L) → Response L
  of_step panicked = crashed
  of_step (answered r) = searched r
  of_step (going r) = searched r

  module _ (s : Server L) (ps : Params) where
    -- The response that version 2.0 gives.
    abbrev pub respond_v20 : V20.Dispatch.Reply → Response L
    respond_v20 (V20.Dispatch.explain_errors es) =
        explain_refused conformant_status_bad_request (map diagnostic es)
    respond_v20 (V20.Dispatch.search_errors es) =
        search_refused conformant_status_bad_request (map diagnostic es)
    respond_v20 (V20.Dispatch.explain q) =
        explained (V20.Explain.explain s.info s.conf q.record_xml_escaping ps)
    respond_v20 (V20.Dispatch.scan q) = scanned 200 (V20.Scan.scan ps)
    respond_v20 (V20.Dispatch.search_retrieve q) =
        of_step (V20.Search.search_retrieve s.parse_basic s.parse_fcs s.publish s.conf ps)

    -- The response that version 1.2 gives.
    abbrev pub respond_v12 : V12.Dispatch.Reply → Response L
    respond_v12 (V12.Dispatch.explain_errors es) =
        explain_refused conformant_status_bad_request (map diagnostic es)
    respond_v12 (V12.Dispatch.search_errors es) =
        search_refused conformant_status_bad_request (map diagnostic es)
    respond_v12 (V12.Dispatch.explain q) =
        explained (V12.Explain.explain s.info s.conf q.record_packing ps)
    respond_v12 (V12.Dispatch.scan q) = let found = V12.Scan.scan ps in scanned found.0 found.1
    respond_v12 (V12.Dispatch.search_retrieve q) =
        of_step (V12.Search.search_retrieve s.parse_basic s.publish s.conf ps)

    abbrev pub handle_version : List (String × String) → FcsGeneralRequest → Response L
    handle_version xslt r =
        if str_eq r.version "1.2"
        then respond_v12 (V12.Dispatch.handle xslt r ps)
        else respond_v20 (V20.Dispatch.handle xslt r ps)

    -- `handleWithXSLT` up to the response.
    unfoldable pub respond : List (String × String) → Response L
    unfolding handle_with_xslt
    respond xslt = handle_version xslt (handle_with_xslt ps)
