-- ===== src/Handler/V20/Search/Failures.antt =====
-- `searchRetrieve` of version 2.0 where a worker meets an error.
use mquery_fcs.General.Errors.{dc_query_cannot_process}
use mquery_fcs.Handler.Params.{Params, default_query}
use mquery_fcs.Handler.V20.Args.{query_type_cql}
use mquery_fcs.Handler.V20.Request.{CorporaSetup, SearchRequest, check_request}
use mquery_fcs.Handler.V20.Responses.{SrResponse, Step, panicked, answered, going, dflt_msg, ◌>>=◌}
use mquery_fcs.Handler.V20.Search.{
  Parsed, Published, found_or, no_errors, awaited, translate_query, fill_results, publish_all,
  search_retrieve,
}
use mquery_fcs.Prelude.{
  ℕ, ◌+◌, ◌-◌, String, Option, none, some, List, [], ◌∷◌, ◌≡◌, ◌≢◌, refl, ap, sym, ◌∙◌, inl, inr,
  Option-cases,
}
use mquery_fcs.Prelude.Text.{concat}
use mquery_fcs.Corpus.Resources.{get_resource}
use mquery_fcs.Result.RoundRobin.Filling.{IsOpen, set_rsc_lines-IsOpen, new_sel-IsOpen}
use mquery_fcs.Result.RoundRobin.Setup.{names_of}
use mquery_fcs.Query.Basic.{BinaryOperatorQuery}
use mquery_fcs.Query.FcsQl
use mquery_fcs.Query.Ranges.{LineRange, calculate_partial_ranges, pid_list}
use mquery_fcs.Rdb.{ConcQueryArgs, transmitted, transmitted_error}
use mquery_fcs.Result.{GoError, error_text, ConcResult}
use mquery_fcs.Result.RoundRobin.{RoundRobinLineSel, new_sel}

abbrev pub or_else : Option GoError → Option GoError → Option GoError
or_else none e = e
or_else (some d) e = some d

none≢some : {e : GoError} → none ≢ some e
none≢some h = cc

some-injective : {d e : GoError} → some d ≡ some e → d ≡ e
some-injective h = cc

module _ {L : Type 0} where
  -- The results as they arrive from the workers.
  abbrev pub transmitted_all : List (String × ConcResult L) → List (String × ConcResult L)
  transmitted_all [] = []
  transmitted_all ((n, c) ∷ rs) = (n, transmitted c) ∷ transmitted_all rs

  -- The first error that a worker met.
  abbrev pub first_error : List (String × ConcResult L) → Option GoError
  first_error [] = none
  first_error ((n, c) ∷ rs) = or_else c.error (first_error rs)

  -- The refusal with the text of the error.
  abbrev pub refusal : SrResponse L → GoError → SrResponse L
  refusal ans e = record ans {
    status = 500;
    diagnostics =
        dflt_msg dc_query_cannot_process
          (concat ("TransmittedError(*errors.errorString: " ∷ error_text e ∷ ")" ∷ []));
  }

  fill_results-refusal :
      (ans : SrResponse L) (e : GoError) (i : ℕ) (rs : List (String × ConcResult L)) (total : ℕ)
      (s : RoundRobinLineSel L)
      → IsOpen (names_of rs) s
      → first_error rs ≡ some e
      → fill_results ans i (transmitted_all rs) total s ≡ answered (refusal ans e)
  unfolding fill_results transmitted transmitted_error
  fill_results-refusal ans e i [] total s o h = absurd (none≢some h)
  fill_results-refusal ans e i ((n, c) ∷ rs) total s o h = elim (Option-cases c.error) [
    | inr (d, k) ↦ rw (k, some-injective (rw (first_error, k) at h)) refl
    | inl k ↦
        let filled = set_rsc_lines-IsOpen n (names_of rs) (record c { error = none }) s o in
        rw (k) (
          rw (filled.1) (
            fill_results-refusal ans e (i + 1) rs (total + c.conc_size) filled.0 filled.2
              (rw (first_error, k) at h)))
  ]

  names_of-transmitted :
      (rs : List (String × ConcResult L)) → names_of (transmitted_all rs) ≡ names_of rs
  names_of-transmitted [] = refl
  names_of-transmitted ((n, c) ∷ rs) = ap (◌∷◌ n) (names_of-transmitted rs)

  -- The results that are there have these names.
  abbrev Named : List String → Step L (List (String × ConcResult L)) → Type 0
  Named ns panicked = Unit
  Named ns (answered s) = Unit
  Named ns (going rs) = names_of rs ≡ ns

  bind-Named {ℓ} :
      {A : Type ℓ} (ns : List String) (m : Step L A) (f : A → Step L (List (String × ConcResult L)))
      → ((a : A) → Named ns (f a))
      → Named ns (m >>= f)
  bind-Named ns panicked f h = tt
  bind-Named ns (answered s) f h = tt
  bind-Named ns (going a) f h = h a

  cons-Named :
      (n : String) (c : ConcResult L) (ns : List String) (m : Step L (List (String × ConcResult L)))
      → Named ns m
      → Named (n ∷ ns) (m >>= λ rest. going ((n, c) ∷ rest))
  cons-Named n c ns panicked h = tt
  cons-Named n c ns (answered s) h = tt
  cons-Named n c ns (going rs) h = ap (◌∷◌ n) h

module _ {L : Type 0} (parse_basic : String → Parsed BinaryOperatorQuery)
    (parse_fcs : String → Parsed FcsQl.Query) (publish : ConcQueryArgs → Published L) where
  -- There is a result for each range, under the name of its corpus.
  publish_all-Named :
      (conf : CorporaSetup) (ans : SrResponse L) (r : SearchRequest) (t : String)
      (xs : List LineRange)
      → Named (pid_list xs) (publish_all parse_basic parse_fcs publish conf ans r t xs)
  unfolding publish_all
  publish_all-Named conf ans r t [] = refl
  publish_all-Named conf ans r t (x ∷ xs) =
      bind-Named (x.rsc ∷ pid_list xs) (found_or ans 200 (get_resource conf.resources x.rsc)) _
        (λ res.
          bind-Named (x.rsc ∷ pid_list xs)
            (translate_query parse_basic parse_fcs publish ans res r.fcs_query t) _
            (λ g. bind-Named (x.rsc ∷ pid_list xs) (no_errors ans g.1) _ (λ _.
              bind-Named (x.rsc ∷ pid_list xs) (awaited ans (publish _)) _ (λ answer.
                cons-Named x.rsc answer (pid_list xs) _ (publish_all-Named conf ans r t xs)))))

  -- On a request that passes the checks and whose queries are published, if the workers meet errors and
  -- send them the way they do, `searchRetrieve` of version 2.0 does not panic and shows no
  -- records: it is the refusal with the status 500 and the first of the errors.
  pub search_retrieve-refused :
      (conf : CorporaSetup) (ps : Params) (ans : SrResponse L) (r : SearchRequest)
      (xs : List LineRange) (rs : List (String × ConcResult L)) (e : GoError)
      → check_request conf ps ≡ going (ans, r)
      → calculate_partial_ranges r.corpora (r.start_record - 1) r.maximum_records ≡ some xs
      → publish_all parse_basic parse_fcs publish conf ans r
          (default_query ps "queryType" query_type_cql)
          xs
        ≡ going (transmitted_all rs)
      → first_error rs ≡ some e
      → search_retrieve parse_basic parse_fcs publish conf ps ≡ answered (refusal ans e)
  unfolding search_retrieve
  search_retrieve-refused conf ps ans r xs rs e q c p h =
      let names : names_of rs ≡ pid_list xs =
        sym (names_of-transmitted rs)
        ∙ rw p at (publish_all-Named conf ans r (default_query ps "queryType" query_type_cql) xs) in
      let o : IsOpen (names_of rs) (new_sel r.maximum_records (pid_list xs)) =
        rw (sym names) (new_sel-IsOpen r.maximum_records (names_of rs)) in
      let f = fill_results-refusal ans e 0 rs 0 (new_sel r.maximum_records (pid_list xs)) o h in
      rw (q, c, p, f) refl
