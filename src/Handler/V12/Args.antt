-- ===== src/Handler/V12/Args.antt =====
-- handler/v12/args.go. `some` is an error.
use mquery_fcs.Handler.V20.Args.{is_one_of}
use mquery_fcs.Prelude.{str_eq, if◌then◌else◌, String, Option, none, some, List, [], ◌∷◌}
use mquery_fcs.Prelude.Text.{concat}

abbrev pub operation_explain : String
operation_explain = "explain"

abbrev pub operation_scan : String
operation_scan = "scan"

abbrev pub operation_search_retrive : String
operation_search_retrive = "searchRetrieve"

abbrev pub record_packing_xml : String
record_packing_xml = "xml"

-- `Operation.Validate`.
unfoldable pub validate_operation : String → Option String
validate_operation op =
    if is_one_of op (operation_explain ∷ operation_scan ∷ operation_search_retrive ∷ [])
    then none
    else some (concat ("unknown operation: " ∷ op ∷ []))

-- `RecordPacking.Validate`.
unfoldable pub validate_record_packing : String → Option String
validate_record_packing rp =
    if str_eq rp record_packing_xml
    then none
    else some (concat ("unsupported record packing: " ∷ rp ∷ []))

abbrev pub search_retr_args : List String
search_retr_args =
    "version" ∷ "startRecord" ∷ "maximumRecords" ∷ "recordPacking" ∷ "operation" ∷ "query"
    ∷ "x-fcs-context" ∷ "recordSchema" ∷ "x-fcs-dataviews" ∷ []

-- `SearchRetrArg.Validate`.
unfoldable pub validate_search_retr_arg : String → Option String
validate_search_retr_arg sra =
    if is_one_of sra search_retr_args
    then none
    else some (concat ("unknown searchRetrieve argument: " ∷ sra ∷ []))

-- `ScanArg.Validate`.
unfoldable pub validate_scan_arg : String → Option String
validate_scan_arg sa =
    if is_one_of sa (
      "version" ∷ "operation" ∷ "recordPacking" ∷ "scanClause" ∷ "maximumTerms" ∷ "responsePosition"
      ∷ [])
    then none
    else some (concat ("unknown scan argument: " ∷ sa ∷ []))

-- `ExplainArg.Validate`.
unfoldable pub validate_explain_arg : String → Option String
validate_explain_arg arg =
    if is_one_of arg ("version" ∷ "recordPacking" ∷ "operation" ∷ "x-fcs-endpoint-description" ∷ [])
    then none
    else some (concat ("unknown explain argument: " ∷ arg ∷ []))
