-- ===== src/Handler/V12/Search/Forms.antt =====
-- The responses to a search of version 1.2, in all its branches.
use mquery_fcs.Corpus.Resources.{get_resource}
use mquery_fcs.Corpus.Setup.{CorpusSetup}
use mquery_fcs.Handler.Params.{Params}
use mquery_fcs.Handler.V12.Args.{validate_search_retr_arg}
use mquery_fcs.Handler.V12.Search.{
  check_names, check_request, generate_query, translate_query, note_error, fill_results, finish,
  deliver, publish_all, search_retrieve,
}
use mquery_fcs.Handler.V20.Request.Forms.{CleanEcho, checks-Holds}
use mquery_fcs.Handler.V20.Request.{CorporaSetup, SearchRequest}
use mquery_fcs.Handler.V20.Responses.Forms.{
  WellFormed, Clean, Holds, Any, bind-Holds, unpanicked-Holds,
}
use mquery_fcs.Handler.V20.Responses.{SrResponse, new_response, unpanicked}
use mquery_fcs.Handler.V20.Scan.{refused}
use mquery_fcs.Handler.V20.Search.Forms.{
  found_or-Holds, no_errors-Holds, awaited-Holds, check_results-Holds, make_records-Holds,
}
use mquery_fcs.Handler.V20.Search.{
  Parsed, syntax_error, parsed, Published, found_or, no_errors, awaited, check_results,
  make_records,
}
use mquery_fcs.Prelude.{
  ℕ, ◌+◌, ◌-◌, String, Option, none, some, List, [], ◌∷◌, ◌≡◌, refl, inl, inr, Option-cases,
}
use mquery_fcs.Query.Basic.{BinaryOperatorQuery}
use mquery_fcs.Query.Ranges.{LineRange, calculate_partial_ranges, pid_list}
use mquery_fcs.Rdb.{ConcQueryArgs}
use mquery_fcs.Result.{GoError, rows_range_out_of_conc, message, ConcResult}
use mquery_fcs.Result.RoundRobin.{RoundRobinLineSel, new_sel, rsc_set_error_at, set_rsc_lines}

note_error-Holds :
    (L : Type 0) (i : ℕ) (e : Option GoError) (s : RoundRobinLineSel L)
    → Holds Any (note_error i e s)
note_error-Holds L i none s = tt
note_error-Holds L i (some rows_range_out_of_conc) s =
    unpanicked-Holds L (rsc_set_error_at i none s)
note_error-Holds L i (some (message m)) s = tt

fill_results-Holds :
    (L : Type 0) (i : ℕ) (rs : List (String × ConcResult L)) (total : ℕ) (s : RoundRobinLineSel L)
    → Holds Any (fill_results i rs total s)
unfolding fill_results
fill_results-Holds L i [] total s = tt
fill_results-Holds L i ((n, c) ∷ rs) total s =
    bind-Holds Any Any (note_error i c.error s) _ (note_error-Holds L i c.error s) (λ noted _.
      bind-Holds Any Any (unpanicked (set_rsc_lines n c noted)) _
        (unpanicked-Holds L (set_rsc_lines n c noted))
        (λ filled _. fill_results-Holds L (i + 1) rs (total + c.conc_size) filled))

module _ {L : Type 0} where
  check_names-Holds :
      (ans : SrResponse L) (ps : Params) → ans.records ≡ [] → Holds Any (check_names ans ps)
  check_names-Holds ans ps h = elim (Option-cases (refused validate_search_retr_arg ps)) [
    | inl e ↦ rw (check_names, e) tt
    | inr (r, e) ↦ rw (check_names, e) (inr (h, refl, inl refl))
  ]

  generate_query-Holds :
      (res : CorpusSetup) (p : Parsed BinaryOperatorQuery) (ans : SrResponse L) (q : String)
      → ans.records ≡ []
      → Holds Any (generate_query res p ans q)
  generate_query-Holds res (syntax_error e) ans q h = inr (h, refl, inl refl)
  generate_query-Holds res (parsed b) ans q h = tt

  deliver-Holds :
      (cs : List CorpusSetup) (ans : SrResponse L) (r : SearchRequest) (s : RoundRobinLineSel L)
      → Clean ans
      → Holds WellFormed (deliver cs ans r s)
  unfolding deliver finish
  deliver-Holds cs ans r s c =
      bind-Holds Any WellFormed (check_results ans s) _ (check_results-Holds ans s c.records)
        (λ _ _.
          bind-Holds Any WellFormed (make_records cs ans r.maximum_records r.start_record s) _
            (make_records-Holds cs ans r.maximum_records r.start_record s c.records)
            (λ _ _. inl (refl, c.diagnostics)))

module _ {L : Type 0} (parse_basic : String → Parsed BinaryOperatorQuery)
    (publish : ConcQueryArgs → Published L) where
  publish_all-Holds :
      (conf : CorporaSetup) (ans : SrResponse L) (r : SearchRequest) (xs : List LineRange)
      → ans.records ≡ []
      → Holds Any (publish_all parse_basic publish conf ans r xs)
  unfolding publish_all
  publish_all-Holds conf ans r [] h = tt
  publish_all-Holds conf ans r (x ∷ xs) h =
      bind-Holds Any Any (found_or ans 200 (get_resource conf.resources x.rsc)) _
        (found_or-Holds ans 200 (get_resource conf.resources x.rsc) h (inl refl))
        (λ res _.
          bind-Holds Any Any (translate_query parse_basic publish ans res r.fcs_query) _
            (generate_query-Holds res (parse_basic r.fcs_query) ans r.fcs_query h)
            (λ g _. bind-Holds Any Any (no_errors ans g.1) _ (no_errors-Holds ans g.1 h) (λ _ _.
              bind-Holds Any Any (awaited ans (publish _)) _ (awaited-Holds ans (publish _) h)
                (λ _ _.
                  bind-Holds Any Any (publish_all parse_basic publish conf ans r xs) _
                    (publish_all-Holds conf ans r xs h) (λ _ _. tt)))))

  -- `searchRetrieve` of version 1.2 panics or comes to a response that either has the status 200 and no
  -- diagnostics, or has exactly one diagnostic, no records and the status 200 or 500.
  pub search_retrieve-WellFormed :
      (conf : CorporaSetup) (ps : Params)
      → Holds WellFormed (search_retrieve parse_basic publish conf ps)
  unfolding search_retrieve check_request
  search_retrieve-WellFormed conf ps =
      bind-Holds CleanEcho WellFormed (check_request conf ps) _
        (bind-Holds Any CleanEcho (check_names new_response ps) _
          (check_names-Holds new_response ps refl) (λ _ _. checks-Holds L conf ps))
        (λ (ans, r) c.
          bind-Holds Any WellFormed
            (unpanicked (calculate_partial_ranges r.corpora (r.start_record - 1) r.maximum_records))
            _
            (unpanicked-Holds L
              (calculate_partial_ranges r.corpora (r.start_record - 1) r.maximum_records))
            (λ xs _.
              bind-Holds Any WellFormed (publish_all parse_basic publish conf ans r xs) _
                (publish_all-Holds conf ans r xs c.records)
                (λ rs _.
                  bind-Holds Any WellFormed
                    (fill_results 0 rs 0 (new_sel r.maximum_records (pid_list xs))) _
                    (fill_results-Holds L 0 rs 0 (new_sel r.maximum_records (pid_list xs)))
                    (λ filled _.
                      deliver-Holds conf.resources (record ans { number_of_records = filled.0 }) r
                        filled.1 (record { diagnostics = c.diagnostics; records = c.records })))))
