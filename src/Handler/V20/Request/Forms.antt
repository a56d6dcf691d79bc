-- ===== src/Handler/V20/Request/Forms.antt =====
-- The responses to requests that the checks refuse.
use mquery_fcs.Corpus.CommonAttrs.{get_common_pos_attr_names}
use mquery_fcs.Corpus.Resources.{get_resource_by_pid}
use mquery_fcs.Corpus.Setup.{CorpusSetup}
use mquery_fcs.General.Request.{record_schema}
use mquery_fcs.Handler.Params.{Params, atoi, query, default_query}
use mquery_fcs.Handler.V20.Args.{fetch_context, validate_search_retr_arg}
use mquery_fcs.Handler.V20.Request.{
  CorporaSetup, SearchRequest, check_names, check_query, check_positive, parse_int, check_schema,
  read_maximum, check_limit, corpora_of_pids, choose_corpora, check_corpora, first_again,
  attrs_to_retrieve, with_corpora, with_maximum, check_request, less_than_one,
  max_records_internal_limit,
}
use mquery_fcs.Handler.V20.Responses.Forms.{Clean, Holds, Any, bind-Holds, if-Holds}
use mquery_fcs.Handler.V20.Responses.{SrResponse, new_response, ◌>>=◌, ◌>>◌}
use mquery_fcs.Handler.V20.Scan.{refused}
use mquery_fcs.Prelude.Integers.{Integer}
use mquery_fcs.Prelude.{ℕ, ltb, str_eq, String, List, [], ◌∷◌, ◌≡◌, refl, inl, inr, Option-cases}

first_again-Holds : (L : Type 0) (l : List String) → Holds {L = L} Any (first_again l)
first_again-Holds L [] = tt
first_again-Holds L (a ∷ l) = tt

module _ {L : Type 0} where
  check_names-Holds :
      (ans : SrResponse L) (ps : Params) → ans.records ≡ [] → Holds Any (check_names ans ps)
  check_names-Holds ans ps h = elim (Option-cases (refused validate_search_retr_arg ps)) [
    | inl e ↦ rw (check_names, e) tt
    | inr (r, e) ↦ rw (check_names, e) (inr (h, refl, inl refl))
  ]

  pub check_query-Holds :
      (ans : SrResponse L) (q : String) → ans.records ≡ [] → Holds Any (check_query ans q)
  check_query-Holds ans q h = if-Holds Any (str_eq q "") _ _ (inr (h, refl, inl refl)) tt

  pub parse_int-Holds :
      (ans : SrResponse L) (name x : String) → ans.records ≡ [] → Holds Any (parse_int ans name x)
  parse_int-Holds ans name x h = elim (Option-cases (atoi x)) [
    | inl e ↦ rw (parse_int, e) (inr (h, refl, inl refl))
    | inr (n, e) ↦ rw (parse_int, e) tt
  ]

  pub check_positive-Holds :
      (ans : SrResponse L) (name : String) (n : Integer)
      → ans.records ≡ []
      → Holds Any (check_positive ans name n)
  check_positive-Holds ans name n h =
      if-Holds Any (less_than_one n) _ _ (inr (h, refl, inl refl)) tt

  check_schema-Holds :
      (ans : SrResponse L) (x : String) → ans.records ≡ [] → Holds Any (check_schema ans x)
  check_schema-Holds ans x h =
      if-Holds Any (str_eq x record_schema) _ _ tt (inr (h, refl, inl refl))

  read_maximum-Holds :
      (ans : SrResponse L) (n : Integer) (x : String)
      → ans.records ≡ []
      → Holds Any (read_maximum ans n x)
  read_maximum-Holds ans n x h =
      if-Holds Any (str_eq x "") _ _ tt (parse_int-Holds ans "maximumRecords" x h)

  check_limit-Holds :
      (ans : SrResponse L) (m : ℕ) → ans.records ≡ [] → Holds Any (check_limit ans m)
  check_limit-Holds ans m h =
      if-Holds Any (ltb max_records_internal_limit m) _ _ (inr (h, refl, inl refl)) tt

  corpora_of_pids-Holds :
      (ans : SrResponse L) (cs : List CorpusSetup) (pids : List String)
      → Clean ans
      → Holds Any (corpora_of_pids ans cs pids)
  corpora_of_pids-Holds ans cs [] c = tt
  corpora_of_pids-Holds ans cs (pid ∷ pids) c = elim (Option-cases (get_resource_by_pid cs pid)) [
    | inl e ↦ rw (corpora_of_pids, e) (inl (refl, c.diagnostics))
    | inr (r, e) ↦
        rw (corpora_of_pids, e)
          (bind-Holds Any Any (corpora_of_pids ans cs pids) _ (corpora_of_pids-Holds ans cs pids c)
            (λ _ _. tt))
  ]

  choose_corpora-Holds :
      (ans : SrResponse L) (cs : List CorpusSetup) (pids : List String)
      → Clean ans
      → Holds Any (choose_corpora ans cs pids)
  choose_corpora-Holds ans cs [] c = tt
  choose_corpora-Holds ans cs (pid ∷ pids) c = corpora_of_pids-Holds ans cs (pid ∷ pids) c

  check_corpora-Holds :
      (ans : SrResponse L) (cs : List String) → ans.records ≡ [] → Holds Any (check_corpora ans cs)
  check_corpora-Holds ans [] h = inr (h, refl, inl refl)
  check_corpora-Holds ans (c ∷ cs) h = tt

  attrs_to_retrieve-Holds :
      (ans : SrResponse L) (cs : List CorpusSetup) (corpora : List String)
      → ans.records ≡ []
      → Holds Any (attrs_to_retrieve ans cs corpora)
  attrs_to_retrieve-Holds ans cs corpora h =
      elim (Option-cases (get_common_pos_attr_names cs corpora)) [
        | inl e ↦ rw (attrs_to_retrieve, e) (inr (h, refl, inr refl))
        | inr (l, e) ↦ rw (attrs_to_retrieve, e) (first_again-Holds L l)
      ]

  abbrev pub CleanEcho : SrResponse L × SearchRequest → Type 0
  CleanEcho x = Clean x.0

  with_corpora-Holds :
      (conf : CorporaSetup) (ps : Params) (echo : SrResponse L) (q : String) (s m : ℕ)
      → Clean echo
      → Holds CleanEcho (with_corpora conf ps echo q s m)
  unfolding with_corpora
  with_corpora-Holds conf ps echo q s m c =
      bind-Holds Any CleanEcho (choose_corpora echo conf.resources (fetch_context ps)) _
        (choose_corpora-Holds echo conf.resources (fetch_context ps) c)
        (λ o _.
          bind-Holds Any CleanEcho (check_corpora echo o) _ (check_corpora-Holds echo o c.records)
            (λ _ _.
              bind-Holds Any CleanEcho (attrs_to_retrieve echo conf.resources o) _
                (attrs_to_retrieve-Holds echo conf.resources o c.records) (λ _ _. c)))

  pub with_maximum-Holds :
      (conf : CorporaSetup) (ps : Params) (echo : SrResponse L) (q : String) (s : ℕ)
      → Clean echo
      → Holds CleanEcho (with_maximum conf ps echo q s)
  unfolding with_maximum
  with_maximum-Holds conf ps echo q s c =
      let schema = default_query ps "recordSchema" record_schema in
      let maximum = query ps "maximumRecords" in
      bind-Holds Any CleanEcho (check_schema echo schema) _
        (check_schema-Holds echo schema c.records)
        (λ _ _.
          bind-Holds Any CleanEcho (read_maximum echo conf.maximum_records maximum) _
            (read_maximum-Holds echo conf.maximum_records maximum c.records)
            (λ x _.
              bind-Holds Any CleanEcho (check_positive echo "maximumRecords" x) _
                (check_positive-Holds echo "maximumRecords" x c.records)
                (λ m _.
                  bind-Holds Any CleanEcho (check_limit echo m) _
                    (check_limit-Holds echo m c.records)
                    (λ _ _. with_corpora-Holds conf ps echo q s m c))))

module _ (L : Type 0) where
  -- The checks behind those of the names, which both versions have in common.
  pub checks-Holds :
      (conf : CorporaSetup) (ps : Params)
      → Holds CleanEcho (do
        let q = query ps "query"
        let ans : SrResponse L = record new_response { echoed_query = q }
        check_query new_response q
        start ← parse_int ans "startRecord" (default_query ps "startRecord" "1")
        s ← check_positive ans "startRecord" start
        with_maximum conf ps (record ans { echoed_start_record = s }) q s)
  checks-Holds conf ps =
      let q = query ps "query" in
      let ans : SrResponse L = record new_response { echoed_query = q } in
      let start = default_query ps "startRecord" "1" in
      bind-Holds Any CleanEcho (check_query new_response q) _
        (check_query-Holds new_response q refl)
        (λ _ _.
          bind-Holds Any CleanEcho (parse_int ans "startRecord" start) _
            (parse_int-Holds ans "startRecord" start refl)
            (λ n _.
              bind-Holds Any CleanEcho (check_positive ans "startRecord" n) _
                (check_positive-Holds ans "startRecord" n refl)
                (λ s _.
                  with_maximum-Holds conf ps (record ans { echoed_start_record = s }) q s
                    (record { diagnostics = refl; records = refl }))))

  pub check_request-Holds :
      (conf : CorporaSetup) (ps : Params) → Holds CleanEcho (check_request {L = L} conf ps)
  unfolding check_request
  check_request-Holds conf ps =
      bind-Holds Any CleanEcho (check_names new_response ps) _
        (check_names-Holds new_response ps refl) (λ _ _. checks-Holds conf ps)
