-- ===== src/Handler/V20/Args.antt =====
-- handler/v20/args.go. `some` is an error.
use mquery_fcs.Handler.Params.{Params, query, split_comma}
use mquery_fcs.Prelude.{
  str_eq, if◌then◌else◌, String, Bool, false, ◌||◌, Option, none, some, List, [], ◌∷◌,
}
use mquery_fcs.Prelude.Text.{concat}

abbrev pub is_one_of : String → List String → Bool
is_one_of s [] = false
is_one_of s (x ∷ xs) = str_eq s x || is_one_of s xs

abbrev pub operation_explain : String
operation_explain = "explain"

abbrev pub operation_scan : String
operation_scan = "scan"

abbrev pub operation_search_retrive : String
operation_search_retrive = "searchRetrieve"

abbrev pub query_type_cql : String
query_type_cql = "cql"

abbrev pub query_type_fcs : String
query_type_fcs = "fcs"

abbrev pub record_xml_escaping_xml : String
record_xml_escaping_xml = "xml"

-- `Operation.Validate`.
unfoldable pub validate_operation : String → Option String
validate_operation op =
    if is_one_of op (operation_explain ∷ operation_scan ∷ operation_search_retrive ∷ [])
    then none
    else some (concat ("unknown operation: " ∷ op ∷ []))

-- `QueryType.Validate`.
unfoldable pub validate_query_type : String → Option String
validate_query_type qt =
    if is_one_of qt (query_type_cql ∷ query_type_fcs ∷ [])
    then none
    else some (concat ("unknown query type: " ∷ qt ∷ []))

-- `RecordXMLEscaping.Validate`.
unfoldable pub validate_record_xml_escaping : String → Option String
validate_record_xml_escaping rp =
    if str_eq rp record_xml_escaping_xml
    then none
    else some (concat ("unsupported record XML escaping: " ∷ rp ∷ []))

abbrev pub search_retr_args : List String
search_retr_args =
    "version" ∷ "startRecord" ∷ "maximumRecords" ∷ "recordXMLEscaping" ∷ "operation" ∷ "query"
    ∷ "queryType" ∷ "recordSchema" ∷ "x-fcs-context" ∷ "x-fcs-dataviews" ∷ "x-fcs-rewrites-allowed"
    ∷ []

-- `SearchRetrArg.Validate`.
unfoldable pub validate_search_retr_arg : String → Option String
validate_search_retr_arg sra =
    if is_one_of sra search_retr_args
    then none
    else some (concat ("unknown searchRetrieve argument: " ∷ sra ∷ []))

-- `ScanArg.Validate`.
unfoldable pub validate_scan_arg : String → Option String
validate_scan_arg sa =
    if is_one_of sa (
      "version" ∷ "operation" ∷ "recordXMLEscaping" ∷ "scanClause" ∷ "maximumTerms"
      ∷ "responsePosition" ∷ [])
    then none
    else some (concat ("unknown scan argument: " ∷ sa ∷ []))

-- `ExplainArg.Validate`.
unfoldable pub validate_explain_arg : String → Option String
validate_explain_arg arg =
    if is_one_of arg
      ("version" ∷ "recordXMLEscaping" ∷ "operation" ∷ "x-fcs-endpoint-description" ∷ [])
    then none
    else some (concat ("unknown explain argument: " ∷ arg ∷ []))

abbrev pub unless_empty : List String → List String
unless_empty (s ∷ []) = if str_eq s "" then [] else s ∷ []
unless_empty l = l

-- `fetchContext`.
unfoldable pub fetch_context : Params → List String
fetch_context ps = unless_empty (split_comma (query ps "x-fcs-context"))
