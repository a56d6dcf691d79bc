-- ===== src/Handler/V12/Scan.antt =====
-- handler/v12/scan.go: no scan clause is supported.
use mquery_fcs.General.Errors.{
  dc_unsupported_parameter, dc_unsupported_parameter_value, dc_mandatory_parameter_not_supplied,
  dc_unsupported_index,
}
use mquery_fcs.General.Request.{conformant_status_bad_request, conformant_unprocessable_entity}
use mquery_fcs.Handler.Params.{Params, query, default_query, atoi}
use mquery_fcs.Handler.V12.Args.{validate_scan_arg}
use mquery_fcs.Handler.V20.Responses.{Diagnostic, dflt_msg, with_msg}
use mquery_fcs.Handler.V20.Scan.{refused}
use mquery_fcs.Handler.V20
use mquery_fcs.Prelude.{ℕ, str_eq, if◌then◌else◌, none, some, List, ◌≡◌, refl}

-- The checks behind those of the names: the diagnostics of the response.
abbrev pub scan_diagnostics : Params → List Diagnostic
scan_diagnostics ps = elim (atoi (default_query ps "maximumTerms" "1000")) [
  | none ↦ dflt_msg dc_unsupported_parameter_value "maximumTerms"
  | some _ ↦ elim (atoi (default_query ps "responsePosition" "1")) [
    | none ↦ dflt_msg dc_unsupported_parameter_value "responsePosition"
    | some _ ↦
        if str_eq (query ps "scanClause") ""
        then dflt_msg dc_mandatory_parameter_not_supplied "scanClause"
        else dflt_msg dc_unsupported_index "scanClause"
  ]
]

-- `scan`: the status and the diagnostics of the response.
unfoldable pub scan : Params → ℕ × List Diagnostic
scan ps = elim (refused validate_scan_arg ps) [
  | some r ↦ (conformant_status_bad_request, with_msg dc_unsupported_parameter r.0 r.1)
  | none ↦ (conformant_unprocessable_entity, scan_diagnostics ps)
]

-- Parameters with names that both versions know get the same diagnostics from `scan` in both,
-- under version 1.2 with the status of an unprocessable entity.
pub scan-V20 :
    (ps : Params)
    → refused validate_scan_arg ps ≡ none
    → refused V20.Args.validate_scan_arg ps ≡ none
    → scan ps ≡ (conformant_unprocessable_entity, V20.Scan.scan ps)
unfolding scan mquery_fcs.Handler.V20.Scan.scan
scan-V20 ps h k = rw (scan, V20.Scan.scan, h, k) refl
