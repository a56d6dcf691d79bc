-- ===== src/Handler/View/Sheets.antt =====
-- handler/view.go with handler/v20/base.go: which style sheet the response of an operation gets.
use mquery_fcs.Handler.Params.{Params, get_query, value_or}
use mquery_fcs.Handler.V20.Dispatch.{
  Reply, explain_errors, search_errors, explain, scan, search_retrieve,
}
use mquery_fcs.Handler.View.Slashes.{doubled}
use mquery_fcs.Handler.View.{join, style_sheets}
use mquery_fcs.Prelude.{String, false, ◌≡◌}

-- The style sheet is the file of the interface behind the address of the assets, with the slashes as
-- a path has them.
abbrev pub IsSheet : String → String → String → Type 0
IsSheet assets file xslt = (xslt ≡ join assets file) × (doubled false xslt ≡ false)

abbrev pub Sheeted : String → Reply → Type 0
Sheeted assets (explain_errors errors) = Unit
Sheeted assets (search_errors errors) = Unit
Sheeted assets (explain q) = IsSheet assets "ui/assets/xslt/explain.xslt" q.general.xslt
Sheeted assets (scan q) = IsSheet assets "ui/assets/xslt/scan.xslt" q.general.xslt
Sheeted assets (search_retrieve q) =
    IsSheet assets "ui/assets/xslt/searchRetrieve.xslt" q.general.xslt

abbrev chosen : String → String → String
chosen assets op = value_or "" (get_query (style_sheets assets) op)
