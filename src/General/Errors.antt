-- ===== src/General/Errors.antt =====
-- general/error.go. Types and codes are the numbers that the constants stand for.
use mquery_fcs.Prelude.{ℕ, ◌==◌, ltb, if◌then◌else◌, String, Bool, ◌||◌}

abbrev pub dt_resource_set_too_large_cannot_perform_query : ℕ
dt_resource_set_too_large_cannot_perform_query = 3

abbrev pub dt_general_query_syntax_error : ℕ
dt_general_query_syntax_error = 10

abbrev pub dt_query_too_complex : ℕ
dt_query_too_complex = 11

abbrev pub dc_general_system_error : ℕ
dc_general_system_error = 1

abbrev pub dc_unsupported_operation : ℕ
dc_unsupported_operation = 4

abbrev pub dc_unsupported_version : ℕ
dc_unsupported_version = 5

abbrev pub dc_unsupported_parameter_value : ℕ
dc_unsupported_parameter_value = 6

abbrev pub dc_mandatory_parameter_not_supplied : ℕ
dc_mandatory_parameter_not_supplied = 7

abbrev pub dc_unsupported_parameter : ℕ
dc_unsupported_parameter = 8

abbrev pub dc_query_syntax_error : ℕ
dc_query_syntax_error = 10

abbrev pub dc_unsupported_context_set : ℕ
dc_unsupported_context_set = 15

abbrev pub dc_unsupported_index : ℕ
dc_unsupported_index = 16

abbrev pub dc_query_cannot_process : ℕ
dc_query_cannot_process = 47

abbrev pub dc_too_many_matching_records : ℕ
dc_too_many_matching_records = 60

abbrev pub dc_first_record_pos_out_of_range : ℕ
dc_first_record_pos_out_of_range = 61

abbrev pub dc_unknown_schema_for_retrieval : ℕ
dc_unknown_schema_for_retrieval = 66

abbrev pub dc_unsupported_record_packing : ℕ
dc_unsupported_record_packing = 71

-- `AsMessage`.
unfoldable pub as_message : ℕ → String
as_message dc =
    if dc == 1
    then "General system error"
    else if dc == 2
    then "System temporarily unavailable"
    else if dc == 3
    then "Authentication error"
    else if dc == 4
    then "Unsupported operation"
    else if dc == 5
    then "Unsupported version"
    else if dc == 6
    then "Unsupported parameter value"
    else if dc == 7
    then "Mandatory parameter not supplied"
    else if dc == 8
    then "Unsupported Parameter"
    else if dc == 15
    then "Unsupported context set"
    else if dc == 16
    then "Unsupported index"
    else if dc == 235
    then "Database does not exist"
    else if dc == 10
    then "Query syntax error"
    else if dc == 47
    then "Cannot process query; reason unknown"
    else if dc == 48
    then "Query feature unsupported"
    else if dc == 60
    then "Result set not created: too many matching records"
    else if dc == 61
    then "First record position out of range"
    else if dc == 66
    then "Unknown schema for retrieval"
    else if dc == 71
    then "Unsupported record packing"
    else "??"

pub record FcsError : Type 0 where
  pub type : ℕ
  pub code : ℕ
  pub ident : String
  pub message : String

-- `IsFatal`.
unfoldable pub is_fatal : FcsError → Bool
is_fatal fe =
    fe.type == dt_resource_set_too_large_cannot_perform_query
    || fe.type == dt_general_query_syntax_error
    || fe.type == dt_query_too_complex
    || ltb 0 fe.code

-- `Overthrow`.
unfoldable pub overthrow : FcsError → Bool
overthrow fe = fe.type == dt_general_query_syntax_error || fe.type == dt_query_too_complex
