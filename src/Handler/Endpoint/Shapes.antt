-- ===== src/Handler/Endpoint/Shapes.antt =====
-- What the responses of the endpoint are like, whatever the request.
use mquery_fcs.General.Errors.{FcsError, is_fatal, overthrow}
use mquery_fcs.General.Request.{FcsGeneralRequest, add_error, has_fatal_error}
use mquery_fcs.Handler.Endpoint.{
  Server, Response, crashed, explained, searched, scanned, explain_refused, search_refused,
  diagnostic, of_step, respond_v20, respond_v12, handle_version, respond,
}
use mquery_fcs.Handler.Params.{Params, atoi, default_query, query}
use mquery_fcs.Handler.V12
use mquery_fcs.Handler.V20
use mquery_fcs.Handler.V20.Dispatch.Serving.{Answers, handle-Answers}
use mquery_fcs.Handler.V20.Dispatch.{handle_with_xslt, chosen_operation}
use mquery_fcs.Handler.V20.Explain.{ExplainResponse}
use mquery_fcs.Handler.V20.Responses.Forms.{WellFormed, Holds}
use mquery_fcs.Handler.V20.Responses.{SrResponse, Step, panicked, answered, going}
use mquery_fcs.Handler.V20.Scan.{refused}
use mquery_fcs.Prelude.{
  ℕ, ◌<◌, str_eq, String, true, false, ◌&&◌, none, some, List, [], ◌∷◌, ◌++◌, map, length, ◌≡◌,
  refl, ap, sym, ◌∙◌, ◌⊎◌, inl, inr, Bool-cases, Option-cases, arith,
}

module _ {L : Type 0} where
  -- The description of the server comes whole or with one diagnostic, a scan with one diagnostic, a
  -- refusal with at least one, all of them with the status 200; a search comes with one diagnostic
  -- at most, which leaves no records, and only then may have the status 500.
  abbrev pub Shaped : Response L → Type 0
  Shaped crashed = Unit
  Shaped (explained e) =
      (e.status ≡ 200)
      × ((e.diagnostics ≡ []) ⊎ ((length e.diagnostics ≡ 1) × (e.endpoint_description ≡ none)))
  Shaped (searched r) = WellFormed r
  Shaped (scanned status ds) = (status ≡ 200) × (length ds ≡ 1)
  Shaped (explain_refused status ds) = (status ≡ 200) × (0 < length ds)
  Shaped (search_refused status ds) = (status ≡ 200) × (0 < length ds)

  of_step-Shaped : (m : Step L (SrResponse L)) → Holds WellFormed m → Shaped (of_step m)
  of_step-Shaped panicked h = tt
  of_step-Shaped (answered r) h = h
  of_step-Shaped (going r) h = h

length-diagnostics : (es : List FcsError) → length (map diagnostic es) ≡ length es
length-diagnostics [] = refl
length-diagnostics (e ∷ es) = omega (arith, length-diagnostics es)

length-last : (es : List FcsError) (e : FcsError) → 0 < length (es ++ e ∷ [])
length-last [] e = omega arith
length-last (x ∷ es) e = omega arith

add_error-some : (e : FcsError) (r : FcsGeneralRequest) → 0 < length (add_error e r).errors
unfolding add_error
add_error-some e r = length-last _ e

fatal-some : (r : FcsGeneralRequest) → has_fatal_error r ≡ true → 0 < length r.errors
unfolding has_fatal_error
fatal-some r h = ground (arith, h)

scan_v20-one : (ps : Params) → length (V20.Scan.scan ps) ≡ 1
unfolding mquery_fcs.Handler.V20.Scan.scan
scan_v20-one ps = elim (Option-cases (refused V20.Args.validate_scan_arg ps)) [
  | inr (r, e) ↦ rw (V20.Scan.scan, e) refl
  | inl e ↦ elim (Option-cases (atoi (default_query ps "maximumTerms" "1000"))) [
    | inl f ↦ rw (V20.Scan.scan, e, f) refl
    | inr (m, f) ↦ elim (Option-cases (atoi (default_query ps "responsePosition" "1"))) [
      | inl g ↦ rw (V20.Scan.scan, e, f, g) refl
      | inr (n, g) ↦ elim (Bool-cases (str_eq (query ps "scanClause") "")) [
        | inl b ↦ rw (V20.Scan.scan, e, f, g, b) refl
        | inr b ↦ rw (V20.Scan.scan, e, f, g, b) refl
      ]
    ]
  ]
]

scan_v12-one : (ps : Params) → ((V12.Scan.scan ps).0 ≡ 200) × (length (V12.Scan.scan ps).1 ≡ 1)
unfolding mquery_fcs.Handler.V12.Scan.scan
scan_v12-one ps = elim (Option-cases (refused V12.Args.validate_scan_arg ps)) [
  | inr (r, e) ↦ rw (V12.Scan.scan, e) (refl, refl)
  | inl e ↦ elim (Option-cases (atoi (default_query ps "maximumTerms" "1000"))) [
    | inl f ↦ rw (V12.Scan.scan, V12.Scan.scan_diagnostics, e, f) (refl, refl)
    | inr (m, f) ↦ elim (Option-cases (atoi (default_query ps "responsePosition" "1"))) [
      | inl g ↦ rw (V12.Scan.scan, V12.Scan.scan_diagnostics, e, f, g) (refl, refl)
      | inr (n, g) ↦ elim (Bool-cases (str_eq (query ps "scanClause") "")) [
        | inl b ↦ rw (V12.Scan.scan, V12.Scan.scan_diagnostics, e, f, g, b) (refl, refl)
        | inr b ↦ rw (V12.Scan.scan, V12.Scan.scan_diagnostics, e, f, g, b) (refl, refl)
      ]
    ]
  ]
]

-- Replies with errors have at least one.
abbrev pub SomeErrors : V12.Dispatch.Reply → Type 0
SomeErrors (V12.Dispatch.explain_errors es) = 0 < length es
SomeErrors (V12.Dispatch.search_errors es) = 0 < length es
SomeErrors (V12.Dispatch.explain q) = Unit
SomeErrors (V12.Dispatch.scan q) = Unit
SomeErrors (V12.Dispatch.search_retrieve q) = Unit

module _ (r : FcsGeneralRequest) (ps : Params) where
  call-SomeErrors : (q : V12.Dispatch.FcsRequest) → SomeErrors (V12.Dispatch.call q)
  call-SomeErrors q = elim (Bool-cases (str_eq q.operation "explain")) [
    | inl t ↦ rw (V12.Dispatch.call, t) tt
    | inr f ↦ elim (Bool-cases (str_eq q.operation "searchRetrieve")) [
      | inl t ↦ rw (V12.Dispatch.call, f, t) tt
      | inr g ↦ rw (V12.Dispatch.call, f, g) tt
    ]
  ]

  handle_operation-SomeErrors : (op : String) → SomeErrors (V12.Dispatch.handle_operation r ps op)
  handle_operation-SomeErrors op =
      elim (Option-cases
        (V12.Args.validate_record_packing (default_query ps "recordPacking" "xml"))) [
          | inl h ↦
              rw (V12.Dispatch.handle_operation, h)
                (call-SomeErrors (record {
                  general = r;
                  record_packing = default_query ps "recordPacking" "xml";
                  operation = op;
                }))
          | inr (e, h) ↦ elim (Bool-cases (str_eq op "searchRetrieve")) [
            | inl t ↦ rw (V12.Dispatch.handle_operation, h, t) (add_error-some _ r)
            | inr f ↦ rw (V12.Dispatch.handle_operation, h, f) (add_error-some _ r)
          ]
        ]

handle-SomeErrors :
    (xslt : List (String × String)) (r : FcsGeneralRequest) (ps : Params)
    → SomeErrors (V12.Dispatch.handle xslt r ps)
unfolding mquery_fcs.Handler.V12.Dispatch.handle
handle-SomeErrors xslt r ps = elim (Bool-cases (has_fatal_error r)) [
  | inl t ↦ rw (V12.Dispatch.handle, t) (fatal-some r t)
  | inr f ↦ elim (Option-cases (V12.Args.validate_operation (chosen_operation ps))) [
    | inr (e, h) ↦ rw (V12.Dispatch.handle, f, h) (add_error-some _ r)
    | inl h ↦
        rw (V12.Dispatch.handle, f, h) (handle_operation-SomeErrors _ ps (chosen_operation ps))
  ]
]

module _ {L : Type 0} (s : Server L) (ps : Params) where
  explain_v20-Shaped :
      (escaping : String)
      → Shaped {L = L} (explained (V20.Explain.explain s.info s.conf escaping ps))
  unfolding mquery_fcs.Handler.V20.Explain.explain
  explain_v20-Shaped escaping = elim (Option-cases (refused V20.Args.validate_explain_arg ps)) [
    | inl e ↦ rw (V20.Explain.explain, e) (refl, inl refl)
    | inr (r, e) ↦ rw (V20.Explain.explain, e) (refl, inr (refl, refl))
  ]

  explain_v12-Shaped :
      (packing : String) → Shaped {L = L} (explained (V12.Explain.explain s.info s.conf packing ps))
  unfolding mquery_fcs.Handler.V12.Explain.explain
  explain_v12-Shaped packing = elim (Option-cases (refused V12.Args.validate_explain_arg ps)) [
    | inl e ↦ rw (V12.Explain.explain, e) (refl, inl refl)
    | inr (r, e) ↦ rw (V12.Explain.explain, e) (refl, inr (refl, refl))
  ]

  some-diagnostic : (es : List FcsError) → 0 < length es → 0 < length (map diagnostic es)
  some-diagnostic es h = rw (length-diagnostics es) h

  respond_v20-Shaped :
      (r : FcsGeneralRequest) (reply : V20.Dispatch.Reply)
      → Answers r ps reply
      → Shaped (respond_v20 s ps reply)
  respond_v20-Shaped r (V20.Dispatch.explain_errors es) (inl (f, e)) =
      (refl, some-diagnostic es (rw e (fatal-some r f)))
  respond_v20-Shaped r (V20.Dispatch.explain_errors es) (inr (f, e)) =
      (refl, some-diagnostic es (rw e.1 (length-last r.errors e.0)))
  respond_v20-Shaped r (V20.Dispatch.search_errors es) a =
      (refl, some-diagnostic es (rw a.2.1 (length-last r.errors a.2.0)))
  respond_v20-Shaped r (V20.Dispatch.explain q) a = explain_v20-Shaped q.record_xml_escaping
  respond_v20-Shaped r (V20.Dispatch.scan q) a = (refl, scan_v20-one ps)
  respond_v20-Shaped r (V20.Dispatch.search_retrieve q) a =
      of_step-Shaped _
        (V20.Search.Forms.search_retrieve-WellFormed s.parse_basic s.parse_fcs s.publish s.conf ps)

  respond_v12-Shaped :
      (reply : V12.Dispatch.Reply) → SomeErrors reply → Shaped (respond_v12 s ps reply)
  respond_v12-Shaped (V12.Dispatch.explain_errors es) h = (refl, some-diagnostic es h)
  respond_v12-Shaped (V12.Dispatch.search_errors es) h = (refl, some-diagnostic es h)
  respond_v12-Shaped (V12.Dispatch.explain q) h = explain_v12-Shaped q.record_packing
  respond_v12-Shaped (V12.Dispatch.scan q) h = scan_v12-one ps
  respond_v12-Shaped (V12.Dispatch.search_retrieve q) h =
      of_step-Shaped _
        (V12.Search.Forms.search_retrieve-WellFormed s.parse_basic s.publish s.conf ps)

  -- Whatever the request, if no handler panics: the description of the server comes whole or with one
  -- diagnostic, a scan with one diagnostic, a refusal with at least one, all of them with the status
  -- 200; a search comes with one diagnostic at most, which leaves no records, and only then may have
  -- the status 500.
  pub respond-Shaped : (xslt : List (String × String)) → Shaped (respond s ps xslt)
  unfolding respond
  respond-Shaped xslt =
      let r = handle_with_xslt ps in
      elim (Bool-cases (str_eq r.version "1.2")) [
        | inl t ↦
            rw (respond, handle_version, t)
              (respond_v12-Shaped (V12.Dispatch.handle xslt r ps) (handle-SomeErrors xslt r ps))
        | inr f ↦
            rw (respond, handle_version, f)
              (respond_v20-Shaped r (V20.Dispatch.handle xslt r ps) (handle-Answers xslt r ps))
      ]

  -- A request of a version that is not supported is refused with one diagnostic, whatever else it asks
  -- for, and as an explain response; the diagnostic names the default version.
  pub respond-unsupported :
      (xslt : List (String × String))
      → str_eq (default_query ps "version" "2.0") "1.2" ≡ false
      → str_eq (default_query ps "version" "2.0") "2.0" ≡ false
      → respond s ps xslt
        ≡ explain_refused 200
            (record { code = 5; details = "2.0"; message = "Unsupported version 2.0" } ∷ [])
  unfolding respond handle_with_xslt add_error is_fatal overthrow has_fatal_error
      mquery_fcs.Handler.V20.Dispatch.handle mquery_fcs.Prelude.Text.concat
  respond-unsupported xslt a b = rw (respond, handle_with_xslt, a, b) refl
