-- ===== src/Handler/V20/Dispatch/Serving.antt =====
-- Which requests an operation serves, and with which errors the others are refused.
use mquery_fcs.General.Errors.{FcsError, is_fatal, overthrow}
use mquery_fcs.General.Request.{FcsGeneralRequest, add_error, has_fatal_error}
use mquery_fcs.Handler.Params.{Params, default_query}
use mquery_fcs.Handler.V20.Args.{validate_operation, validate_record_xml_escaping}
use mquery_fcs.Handler.V20.Dispatch.{
  FcsRequest, Reply, explain_errors, search_errors, explain, scan, search_retrieve,
  chosen_operation, call, handle_operation, handle,
}
use mquery_fcs.Prelude.{
  ℕ, ltb, str_eq, eq_iff, String, true, false, none, List, [], ◌∷◌, ◌++◌, ◌≡◌, refl, ◌∙◌, ◌⊎◌, inl,
  inr, Bool-cases, Option-cases, arith,
}

-- One error more than the request has.
abbrev pub OneMore : FcsGeneralRequest → List FcsError → Type 0
OneMore r errors = (e : FcsError) × (errors ≡ r.errors ++ e ∷ [])

-- A request that is free of fatal errors, asks for the operation, and asks for XML.
abbrev pub Serves : FcsGeneralRequest → Params → String → FcsRequest → Type 0
Serves r ps operation q =
    (has_fatal_error r ≡ false)
    × (chosen_operation ps ≡ operation)
    × (q.operation ≡ operation)
    × (q.record_xml_escaping ≡ "xml")
    × (q.general.errors ≡ r.errors)

-- What is known of each kind of reply.
abbrev pub Answers : FcsGeneralRequest → Params → Reply → Type 0
Answers r ps (explain_errors errors) =
    ((has_fatal_error r ≡ true) × (errors ≡ r.errors))
    ⊎ ((has_fatal_error r ≡ false) × OneMore r errors)
Answers r ps (search_errors errors) =
    (has_fatal_error r ≡ false) × (chosen_operation ps ≡ "searchRetrieve") × OneMore r errors
Answers r ps (explain q) = Serves r ps "explain" q
Answers r ps (scan q) = Serves r ps "scan" q
Answers r ps (search_retrieve q) = Serves r ps "searchRetrieve" q

-- An error of type 0 leaves the others.
add_error-kept :
    (code : ℕ) (ident message : String) (r : FcsGeneralRequest)
    → (add_error (record { type = 0; code = code; ident = ident; message = message }) r).errors
      ≡ r.errors ++ record { type = 0; code = code; ident = ident; message = message } ∷ []
unfolding add_error is_fatal overthrow
add_error-kept code ident message r = elim (Bool-cases (ltb 0 code)) [
  | inl t ↦ rw t refl
  | inr f ↦ rw f refl
]

pub known_operation :
    (op : String)
    → validate_operation op ≡ none
    → (op ≡ "explain") ⊎ ((op ≡ "searchRetrieve") ⊎ (op ≡ "scan"))
unfolding validate_operation
known_operation op h =
    ground (arith, eq_iff op "explain", eq_iff op "scan", eq_iff op "searchRetrieve", h)

xml_escaping : (s : String) → validate_record_xml_escaping s ≡ none → s ≡ "xml"
unfolding validate_record_xml_escaping
xml_escaping s h = ground (arith, eq_iff s "xml", h)

call-Serves :
    (r : FcsGeneralRequest) (ps : Params) (q : FcsRequest) (op : String)
    → (op ≡ "explain") ⊎ ((op ≡ "searchRetrieve") ⊎ (op ≡ "scan"))
    → q.operation ≡ op
    → Serves r ps op q
    → Answers r ps (call q)
call-Serves r ps q op (inl e) o s = rw (o ∙ e) (s.0, s.1 ∙ e, refl, s.3, s.4)
call-Serves r ps q op (inr (inl e)) o s = rw (o ∙ e) (s.0, s.1 ∙ e, refl, s.3, s.4)
call-Serves r ps q op (inr (inr e)) o s = rw (o ∙ e) (s.0, s.1 ∙ e, refl, s.3, s.4)

handle_operation-Answers :
    (r : FcsGeneralRequest) (ps : Params) (x op : String)
    → has_fatal_error r ≡ false
    → chosen_operation ps ≡ op
    → (op ≡ "explain") ⊎ ((op ≡ "searchRetrieve") ⊎ (op ≡ "scan"))
    → Answers r ps (handle_operation (record r { xslt = x }) ps op)
handle_operation-Answers r ps x op f c k =
    let escaping = default_query ps "recordXMLEscaping" "xml" in
    elim (Option-cases (validate_record_xml_escaping escaping)) [
      | inl h ↦
          let q : FcsRequest = record {
            general = record r { xslt = x };
            record_xml_escaping = escaping;
            operation = op;
          } in
          rw (handle_operation, h)
            (call-Serves r ps q op k refl (f, c, refl, xml_escaping escaping h, refl))
      | inr (e, h) ↦
          let one : OneMore r _ =
            (_, add_error-kept 71 "recordXMLEscaping" e (record r { xslt = x })) in
          elim (Bool-cases (str_eq op "searchRetrieve")) [
            | inl t ↦ rw (handle_operation, h, t) (f, c ∙ (eq_iff op "searchRetrieve").0 t, one)
            | inr n ↦ rw (handle_operation, h, n) (inr (f, one))
          ]
    ]

-- A request with a fatal error is refused with the errors that it has. Any other request is either
-- refused with exactly one error more, as a search response only if it asks for a search, or it is
-- served: by the operation that its parameters ask for, in XML and with the errors that it has.
pub handle-Answers :
    (xslt : List (String × String)) (r : FcsGeneralRequest) (ps : Params)
    → Answers r ps (handle xslt r ps)
unfolding handle
handle-Answers xslt r ps = elim (Bool-cases (has_fatal_error r)) [
  | inl t ↦ rw (handle, t) (inl (t, refl))
  | inr f ↦ elim (Option-cases (validate_operation (chosen_operation ps))) [
    | inr (e, h) ↦ rw (handle, f, h) (inr (f, (_, add_error-kept 4 "operation" _ r)))
    | inl h ↦
        rw (handle, f, h)
          (handle_operation-Answers r ps _ (chosen_operation ps) f refl
            (known_operation (chosen_operation ps) h))
  ]
]
