-- ===== src/Handler/V20/Scan.antt =====
-- handler/v20/scan.go: no scan clause is supported.
use mquery_fcs.General.Errors.{
  dc_unsupported_parameter, dc_unsupported_parameter_value, dc_mandatory_parameter_not_supplied,
  dc_unsupported_index,
}
use mquery_fcs.Handler.Params.{Params, query, default_query, atoi}
use mquery_fcs.Handler.V20.Args.{validate_scan_arg}
use mquery_fcs.Handler.V20.Responses.{Diagnostic, dflt_msg, with_msg}
use mquery_fcs.Prelude.{str_eq, if◌then◌else◌, String, Option, none, some, List, [], ◌∷◌}

-- The check of the names, with the first that is refused.
abbrev pub refused : (String → Option String) → Params → Option (String × String)
refused validate [] = none
refused validate ((k, v) ∷ ps) =
    let rest = refused validate ps in elim (validate k) [ none ↦ rest | some e ↦ some (k, e) ]

-- `scan`: the diagnostics of the response; its status is always 200.
unfoldable pub scan : Params → List Diagnostic
scan ps = elim (refused validate_scan_arg ps) [
  | some r ↦ with_msg dc_unsupported_parameter r.0 r.1
  | none ↦ elim (atoi (default_query ps "maximumTerms" "1000")) [
    | none ↦ dflt_msg dc_unsupported_parameter_value "maximumTerms"
    | some _ ↦ elim (atoi (default_query ps "responsePosition" "1")) [
      | none ↦ dflt_msg dc_unsupported_parameter_value "responsePosition"
      | some _ ↦
          if str_eq (query ps "scanClause") ""
          then dflt_msg dc_mandatory_parameter_not_supplied "scanClause"
          else dflt_msg dc_unsupported_index "scanClause"
    ]
  ]
]
