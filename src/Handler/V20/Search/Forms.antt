-- ===== src/Handler/V20/Search/Forms.antt =====
-- The responses to a search, in all its branches.
use mquery_fcs.Corpus.Resources.{get_resource}
use mquery_fcs.Corpus.Setup.{CorpusSetup}
use mquery_fcs.Handler.Params.{Params, default_query}
use mquery_fcs.Handler.V20.Args.{query_type_cql, query_type_fcs}
use mquery_fcs.Handler.V20.Request.Forms.{CleanEcho, check_request-Holds}
use mquery_fcs.Handler.V20.Request.{CorporaSetup, SearchRequest, check_request}
use mquery_fcs.Handler.V20.Responses.Forms.{
  WellFormed, Clean, Holds, Any, bind-Holds, if-Holds, unpanicked-Holds,
}
use mquery_fcs.Handler.V20.Responses.{SrResponse, unpanicked}
use mquery_fcs.Handler.V20.Search.{
  Parsed, syntax_error, parsed, Published, not_published, result, generate_basic_query,
  generate_fcs_query, found_or, no_errors, awaited, note_error, fill_results, error_message,
  check_results, make_records, finish, deliver, translate_query, publish_all, search_retrieve,
}
use mquery_fcs.Prelude.{
  ℕ, zero, suc, ◌+◌, ◌-◌, str_eq, String, Option, none, some, List, [], ◌∷◌, ◌≡◌, refl, ◌⊎◌, inl,
  inr,
}
use mquery_fcs.Query.Basic.{BinaryOperatorQuery}
use mquery_fcs.Query.FcsQl
use mquery_fcs.Query.Ranges.{LineRange, calculate_partial_ranges, pid_list}
use mquery_fcs.Rdb.{ConcQueryArgs}
use mquery_fcs.Result.{GoError, rows_range_out_of_conc, message, ConcResult}
use mquery_fcs.Result.RoundRobin.{
  RoundRobinLineSel, new_sel, rsc_set_error_at, set_rsc_lines, all_has_out_of_range_error,
  get_first_error, has_fatal_error, next, curr_rsc_name, curr_line,
}

error_message-Holds : (L : Type 0) (e : Option GoError) → Holds {L = L} Any (error_message e)
error_message-Holds L none = tt
error_message-Holds L (some e) = tt

module _ {L : Type 0} where
  pub found_or-Holds :
      (ans : SrResponse L) (status : ℕ) (c : Option CorpusSetup)
      → ans.records ≡ []
      → (status ≡ 200) ⊎ (status ≡ 500)
      → Holds Any (found_or ans status c)
  found_or-Holds ans status none h s = inr (h, refl, s)
  found_or-Holds ans status (some c) h s = tt

  pub no_errors-Holds :
      (ans : SrResponse L) (es : List String) → ans.records ≡ [] → Holds Any (no_errors ans es)
  no_errors-Holds ans [] h = tt
  no_errors-Holds ans (e ∷ es) h = inr (h, refl, inl refl)

  pub awaited-Holds :
      (ans : SrResponse L) (p : Published L) → ans.records ≡ [] → Holds Any (awaited ans p)
  awaited-Holds ans (not_published e) h = inr (h, refl, inr refl)
  awaited-Holds ans (result r) h = tt

  generate_basic_query-Holds :
      (res : CorpusSetup) (p : Parsed BinaryOperatorQuery) (ans : SrResponse L) (q : String)
      → ans.records ≡ []
      → Holds Any (generate_basic_query res p ans q)
  generate_basic_query-Holds res (syntax_error e) ans q h = inr (h, refl, inl refl)
  generate_basic_query-Holds res (parsed b) ans q h = tt

  generate_fcs_query-Holds :
      (res : CorpusSetup) (p : Parsed FcsQl.Query) (ans : SrResponse L) (q : String)
      → ans.records ≡ []
      → Holds Any (generate_fcs_query res p ans q)
  generate_fcs_query-Holds res (syntax_error e) ans q h = inr (h, refl, inl refl)
  generate_fcs_query-Holds res (parsed b) ans q h = tt

  note_error-Holds :
      (ans : SrResponse L) (i : ℕ) (e : Option GoError) (s : RoundRobinLineSel L)
      → ans.records ≡ []
      → Holds Any (note_error ans i e s)
  note_error-Holds ans i none s h = tt
  note_error-Holds ans i (some rows_range_out_of_conc) s h =
      unpanicked-Holds L (rsc_set_error_at i none s)
  note_error-Holds ans i (some (message m)) s h = inr (h, refl, inr refl)

  fill_results-Holds :
      (ans : SrResponse L) (i : ℕ) (rs : List (String × ConcResult L)) (total : ℕ)
      (s : RoundRobinLineSel L)
      → ans.records ≡ []
      → Holds Any (fill_results ans i rs total s)
  unfolding fill_results
  fill_results-Holds ans i [] total s h = tt
  fill_results-Holds ans i ((n, c) ∷ rs) total s h =
      bind-Holds Any Any (note_error ans i c.error s) _ (note_error-Holds ans i c.error s h)
        (λ noted _.
          bind-Holds Any Any (unpanicked (set_rsc_lines n c noted)) _
            (unpanicked-Holds L (set_rsc_lines n c noted))
            (λ filled _. fill_results-Holds ans (i + 1) rs (total + c.conc_size) filled h))

  pub check_results-Holds :
      (ans : SrResponse L) (s : RoundRobinLineSel L)
      → ans.records ≡ []
      → Holds Any (check_results ans s)
  check_results-Holds ans s h =
      let told = error_message-Holds L (get_first_error s) in
      if-Holds Any (all_has_out_of_range_error s) _ _
        (bind-Holds Any Any (error_message (get_first_error s)) _ told
          (λ _ _. inr (h, refl, inl refl)))
        (if-Holds Any (has_fatal_error s) _ _
          (bind-Holds Any Any (error_message (get_first_error s)) _ told
            (λ _ _. inr (h, refl, inl refl)))
          tt)

  pub make_records-Holds :
      (cs : List CorpusSetup) (ans : SrResponse L) (left p : ℕ) (s : RoundRobinLineSel L)
      → ans.records ≡ []
      → Holds Any (make_records cs ans left p s)
  unfolding make_records
  make_records-Holds cs ans zero p s h = tt
  make_records-Holds cs ans (suc left) p s h =
      bind-Holds Any Any (unpanicked (next s)) _ (unpanicked-Holds L (next s)) (λ n _.
        if-Holds Any n.0 _ _
          (bind-Holds Any Any (unpanicked (curr_rsc_name n.1)) _
            (unpanicked-Holds L (curr_rsc_name n.1))
            (λ name _.
              bind-Holds Any Any (found_or ans 500 (get_resource cs name)) _
                (found_or-Holds ans 500 (get_resource cs name) h (inr refl))
                (λ res _.
                  bind-Holds Any Any (unpanicked (curr_line n.1)) _
                    (unpanicked-Holds L (curr_line n.1))
                    (λ pointer _.
                      bind-Holds Any Any (unpanicked pointer) _ (unpanicked-Holds L pointer)
                        (λ line _.
                          bind-Holds Any Any (make_records cs ans left (p + 1) n.1) _
                            (make_records-Holds cs ans left (p + 1) n.1 h) (λ _ _. tt))))))
          tt)

  deliver-Holds :
      (cs : List CorpusSetup) (ans : SrResponse L) (r : SearchRequest) (s : RoundRobinLineSel L)
      → Clean ans
      → Holds WellFormed (deliver cs ans r s)
  unfolding deliver finish
  deliver-Holds cs ans r s c =
      bind-Holds Any WellFormed (check_results ans s) _ (check_results-Holds ans s c.records)
        (λ _ _.
          bind-Holds Any WellFormed (make_records cs ans r.maximum_records r.start_record s) _
            (make_records-Holds cs ans r.maximum_records r.start_record s c.records)
            (λ _ _. inl (refl, c.diagnostics)))

module _ {L : Type 0} (parse_basic : String → Parsed BinaryOperatorQuery)
    (parse_fcs : String → Parsed FcsQl.Query) (publish : ConcQueryArgs → Published L) where
  translate_query-Holds :
      (ans : SrResponse L) (res : CorpusSetup) (q t : String)
      → ans.records ≡ []
      → Holds Any (translate_query parse_basic parse_fcs publish ans res q t)
  translate_query-Holds ans res q t h =
      if-Holds Any (str_eq t query_type_cql) _ _
        (generate_basic_query-Holds res (parse_basic q) ans q h)
        (if-Holds Any (str_eq t query_type_fcs) _ _
          (generate_fcs_query-Holds res (parse_fcs q) ans q h) (inr (h, refl, inl refl)))

  publish_all-Holds :
      (conf : CorporaSetup) (ans : SrResponse L) (r : SearchRequest) (t : String)
      (xs : List LineRange)
      → ans.records ≡ []
      → Holds Any (publish_all parse_basic parse_fcs publish conf ans r t xs)
  unfolding publish_all
  publish_all-Holds conf ans r t [] h = tt
  publish_all-Holds conf ans r t (x ∷ xs) h =
      bind-Holds Any Any (found_or ans 200 (get_resource conf.resources x.rsc)) _
        (found_or-Holds ans 200 (get_resource conf.resources x.rsc) h (inl refl))
        (λ res _.
          bind-Holds Any Any (translate_query parse_basic parse_fcs publish ans res r.fcs_query t) _
            (translate_query-Holds ans res r.fcs_query t h)
            (λ g _. bind-Holds Any Any (no_errors ans g.1) _ (no_errors-Holds ans g.1 h) (λ _ _.
              bind-Holds Any Any (awaited ans (publish _)) _ (awaited-Holds ans (publish _) h)
                (λ _ _.
                  bind-Holds Any Any (publish_all parse_basic parse_fcs publish conf ans r t xs) _
                    (publish_all-Holds conf ans r t xs h) (λ _ _. tt)))))

  -- `searchRetrieve` of version 2.0 panics or comes to a response that either has the status 200 and no
  -- diagnostics, or has exactly one diagnostic, no records and the status 200 or 500.
  pub search_retrieve-WellFormed :
      (conf : CorporaSetup) (ps : Params)
      → Holds WellFormed (search_retrieve parse_basic parse_fcs publish conf ps)
  unfolding search_retrieve
  search_retrieve-WellFormed conf ps =
      let t = default_query ps "queryType" query_type_cql in
      bind-Holds CleanEcho WellFormed (check_request conf ps) _ (check_request-Holds L conf ps)
        (λ (ans, r) c.
          bind-Holds Any WellFormed
            (unpanicked (calculate_partial_ranges r.corpora (r.start_record - 1) r.maximum_records))
            _
            (unpanicked-Holds L
              (calculate_partial_ranges r.corpora (r.start_record - 1) r.maximum_records))
            (λ xs _.
              bind-Holds Any WellFormed (publish_all parse_basic parse_fcs publish conf ans r t xs)
                _ (publish_all-Holds conf ans r t xs c.records)
                (λ rs _.
                  bind-Holds Any WellFormed
                    (fill_results ans 0 rs 0 (new_sel r.maximum_records (pid_list xs))) _
                    (fill_results-Holds ans 0 rs 0 (new_sel r.maximum_records (pid_list xs))
                      c.records)
                    (λ filled _.
                      deliver-Holds conf.resources (record ans { number_of_records = filled.0 }) r
                        filled.1 (record { diagnostics = c.diagnostics; records = c.records })))))
