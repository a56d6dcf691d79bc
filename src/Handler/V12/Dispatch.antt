-- ===== src/Handler/V12/Dispatch.antt =====
-- handler/v12/base.go: which operation serves a request.
use mquery_fcs.General.Errors.{FcsError, dc_unsupported_operation, dc_unsupported_record_packing}
use mquery_fcs.General.Request.{FcsGeneralRequest, add_error, has_fatal_error}
use mquery_fcs.Handler.Params.{Params, default_query, get_query, value_or}
use mquery_fcs.Handler.V12.Args.{
  operation_explain, operation_search_retrive, validate_operation, validate_record_packing,
  record_packing_xml,
}
use mquery_fcs.Handler.V20.Dispatch.{chosen_operation}
use mquery_fcs.Handler.V20
use mquery_fcs.Prelude.{
  str_eq, if◌then◌else◌, String, none, some, List, [], ◌∷◌, ◌≡◌, refl, ap, sym, ◌∙◌, inl, inr,
  Bool-cases, Option-cases,
}
use mquery_fcs.Prelude.Text.{concat}

-- `FCSRequest`.
pub record FcsRequest : Type 0 where
  pub general : FcsGeneralRequest
  pub record_packing : String
  pub operation : String

-- How `Handle` answers: with the errors as an explain or a search response, or by an operation.
pub data Reply : Type 0 where
  explain_errors search_errors : List FcsError → Reply
  explain scan search_retrieve : FcsRequest → Reply

abbrev pub call : FcsRequest → Reply
call r =
    if str_eq r.operation operation_explain
    then explain r
    else if str_eq r.operation operation_search_retrive
    then search_retrieve r
    else scan r

-- The part of `Handle` behind the check of the operation.
abbrev pub handle_operation : FcsGeneralRequest → Params → String → Reply
handle_operation r ps operation =
    let packing = default_query ps "recordPacking" record_packing_xml in
    elim (validate_record_packing packing) [
      | none ↦ call (record { general = r; record_packing = packing; operation = operation })
      | some e ↦
          let errors =
            (add_error
              (record {
                type = 0;
                code = dc_unsupported_record_packing;
                ident = "recordPacking";
                message = e;
              })
              r).errors in
          if str_eq operation operation_search_retrive
          then search_errors errors
          else explain_errors errors
    ]

-- `Handle`, with the style sheets of the operations.
unfoldable pub handle : List (String × String) → FcsGeneralRequest → Params → Reply
unfolding validate_operation validate_record_packing
handle xslt r ps =
    let operation = chosen_operation ps in
    if has_fatal_error r then explain_errors r.errors else elim (validate_operation operation) [
      | some e ↦
          explain_errors
            (add_error
              (record {
                type = 0;
                code = dc_unsupported_operation;
                ident = "operation";
                message = concat ("Unsupported operation: " ∷ operation ∷ []);
              })
              r).errors
      | none ↦
          handle_operation (record r { xslt = value_or "" (get_query xslt operation) }) ps operation
    ]

abbrev pub as_v20_request : FcsRequest → V20.Dispatch.FcsRequest
as_v20_request q = record {
  general = q.general;
  record_xml_escaping = q.record_packing;
  operation = q.operation;
}

abbrev pub as_v20 : Reply → V20.Dispatch.Reply
as_v20 (explain_errors es) = V20.Dispatch.explain_errors es
as_v20 (search_errors es) = V20.Dispatch.search_errors es
as_v20 (explain q) = V20.Dispatch.explain (as_v20_request q)
as_v20 (scan q) = V20.Dispatch.scan (as_v20_request q)
as_v20 (search_retrieve q) = V20.Dispatch.search_retrieve (as_v20_request q)

call-V20 : (q : FcsRequest) → as_v20 (call q) ≡ V20.Dispatch.call (as_v20_request q)
call-V20 q = elim (Bool-cases (str_eq q.operation operation_explain)) [
  | inl t ↦ rw t refl
  | inr f ↦ elim (Bool-cases (str_eq q.operation operation_search_retrive)) [
    | inl t ↦ rw (f, t) refl
    | inr g ↦ rw (f, g) refl
  ]
]

handle_operation-V20 :
    (r : FcsGeneralRequest) (ps : Params) (op : String)
    → default_query ps "recordPacking" "xml" ≡ "xml"
    → default_query ps "recordXMLEscaping" "xml" ≡ "xml"
    → as_v20 (handle_operation r ps op) ≡ V20.Dispatch.handle_operation r ps op
unfolding validate_record_packing V20.Args.validate_record_xml_escaping
handle_operation-V20 r ps op p e =
    let packing = default_query ps "recordPacking" "xml" in
    let q : FcsRequest = record { general = r; record_packing = packing; operation = op } in
    rw (handle_operation, V20.Dispatch.handle_operation, p, e)
      (call-V20 q
        ∙ ap (λ x. V20.Dispatch.call (record (as_v20_request q) { record_xml_escaping = x }))
            (p ∙ sym e))

-- A request that asks for XML, as `recordPacking` and as `recordXMLEscaping`, is answered by `Handle` of
-- version 1.2 as it is by `Handle` of version 2.0: by the same operation with the same
-- errors and style sheet, or with the same errors.
pub handle-V20 :
    (xslt : List (String × String)) (r : FcsGeneralRequest) (ps : Params)
    → default_query ps "recordPacking" "xml" ≡ "xml"
    → default_query ps "recordXMLEscaping" "xml" ≡ "xml"
    → as_v20 (handle xslt r ps) ≡ V20.Dispatch.handle xslt r ps
unfolding handle validate_operation validate_record_packing V20.Dispatch.handle
    V20.Args.validate_operation V20.Args.validate_record_xml_escaping
handle-V20 xslt r ps p e = elim (Bool-cases (has_fatal_error r)) [
  | inl t ↦ rw t refl
  | inr f ↦ elim (Option-cases (validate_operation (chosen_operation ps))) [
    | inr (m, h) ↦ rw (f, h) refl
    | inl h ↦ rw (f, h) (handle_operation-V20 _ ps (chosen_operation ps) p e)
  ]
]
