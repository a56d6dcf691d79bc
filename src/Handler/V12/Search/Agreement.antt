-- ===== src/Handler/V12/Search/Agreement.antt =====
-- `searchRetrieve` of version 1.2 and of version 2.0 on the same request.
use mquery_fcs.Corpus.Resources.{get_resource}
use mquery_fcs.Corpus.Setup.{CorpusSetup}
use mquery_fcs.General.Request.{conformant_unprocessable_entity}
use mquery_fcs.Handler.Params.{Params, get_query, query}
use mquery_fcs.Handler.V12.Args.{validate_search_retr_arg}
use mquery_fcs.Handler.V12.Search.{
  check_names, check_request, translate_query, note_error, fill_results, finish, deliver,
  publish_all, search_retrieve,
}
use mquery_fcs.Handler.V20
use mquery_fcs.Handler.V20.Request.Bounds.{going-bind, going-injective, check_request-InBounds}
use mquery_fcs.Handler.V20.Request.{CorporaSetup, SearchRequest}
use mquery_fcs.Handler.V20.Responses.{
  SrResponse, new_response, Step, panicked, answered, going, unpanicked, ◌>>=◌,
}
use mquery_fcs.Handler.V20.Scan.{refused}
use mquery_fcs.Handler.V20.Search.{
  Parsed, parsed, Published, not_published, result, found_or, no_errors, awaited, check_results,
  make_records,
}
use mquery_fcs.Prelude.{
  ℕ, ◌+◌, ◌-◌, str_eq, eq_iff, String, Option, none, some, List, [], ◌∷◌, ◌≡◌, ◌≢◌, refl, ap, sym,
  ◌∙◌, ◌⊎◌, inl, inr, Bool-cases, Option-cases,
}
use mquery_fcs.Query.Basic.{BinaryOperatorQuery}
use mquery_fcs.Query.FcsQl
use mquery_fcs.Query.Ranges.{LineRange, calculate_partial_ranges, pid_list}
use mquery_fcs.Rdb.{ConcQueryArgs}
use mquery_fcs.Result.{GoError, rows_range_out_of_conc, ConcResult}
use mquery_fcs.Result.RoundRobin.{RoundRobinLineSel, new_sel, set_rsc_lines}

-- No other error than that of the range.
abbrev pub OnlyRange : Option GoError → Type 0
OnlyRange e = (e ≡ none) ⊎ (e ≡ some rows_range_out_of_conc)

not_known : validate_search_retr_arg "queryType" ≢ none
unfolding validate_search_retr_arg
not_known h = cc

-- Names that version 1.2 knows do not have the type of the query.
no_query_type :
    (ps : Params) → refused validate_search_retr_arg ps ≡ none → get_query ps "queryType" ≡ none
unfolding get_query
no_query_type [] h = refl
no_query_type ((k, v) ∷ ps) h = elim (Option-cases (validate_search_retr_arg k)) [
  | inr (e, r) ↦ absurd (some≢none (rw (refused, r) at h))
  | inl r ↦ elim (Bool-cases (str_eq k "queryType")) [
    | inl t ↦
        absurd (not_known (ap validate_search_retr_arg (sym ((eq_iff k "queryType").0 t)) ∙ r))
    | inr f ↦ rw f (no_query_type ps (rw (refused, r) at h))
  ]
]
  where
    some≢none : {x : String × String} → some x ≢ none
    some≢none h = cc

module _ {L : Type 0} where
  -- The response without the next position, where there is one.
  abbrev pub without_next : Step L (SrResponse L) → Step L (SrResponse L)
  without_next panicked = panicked
  without_next (answered r) = answered r
  without_next (going r) = going (record r { next_record_position = 0 })

  abbrev pub AllOnlyRange : List (String × ConcResult L) → Type 0
  AllOnlyRange [] = Unit
  AllOnlyRange ((n, c) ∷ rs) = OnlyRange c.error × AllOnlyRange rs

  bind-cong {ℓ κ} :
      {A : Type ℓ} {B : Type κ} (m : Step L A) (f g : A → Step L B)
      → ((a : A) → f a ≡ g a)
      → (m >>= f) ≡ (m >>= g)
  bind-cong panicked f g h = refl
  bind-cong (answered r) f g h = refl
  bind-cong (going a) f g h = h a

  without_next-bind {ℓ} :
      {A : Type ℓ} (m : Step L A) (f g : A → Step L (SrResponse L))
      → ((a : A) → m ≡ going a → without_next (f a) ≡ g a)
      → without_next (m >>= f) ≡ (m >>= g)
  without_next-bind panicked f g h = refl
  without_next-bind (answered r) f g h = refl
  without_next-bind (going a) f g h = h a refl

  check_request-V20 :
      (conf : CorporaSetup) (ps : Params)
      → refused validate_search_retr_arg ps ≡ none
      → refused V20.Args.validate_search_retr_arg ps ≡ none
      → check_request {L = L} conf ps ≡ V20.Request.check_request conf ps
  unfolding check_request mquery_fcs.Handler.V20.Request.check_request
  check_request-V20 conf ps h k =
      let n : check_names {L = L} new_response ps ≡ going tt = rw (check_names, h) refl in
      let m : V20.Request.check_names {L = L} new_response ps ≡ going tt =
        rw (V20.Request.check_names, k) refl in
      rw (n, m) refl

  fill_results-V20 :
      (ans : SrResponse L) (i : ℕ) (rs : List (String × ConcResult L)) (total : ℕ)
      (s : RoundRobinLineSel L)
      → AllOnlyRange rs
      → V20.Search.fill_results ans i rs total s ≡ fill_results i rs total s
  unfolding fill_results mquery_fcs.Handler.V20.Search.fill_results
  fill_results-V20 ans i [] total s h = refl
  fill_results-V20 ans i ((n, c) ∷ rs) total s h = bind-cong' (note_error-V20 c.error h.0) (λ noted.
      bind-cong (unpanicked (set_rsc_lines n c noted)) _ _
        (λ filled. fill_results-V20 ans (i + 1) rs (total + c.conc_size) filled h.1))
    where
      note_error-V20 :
          (e : Option GoError) → OnlyRange e → V20.Search.note_error ans i e s ≡ note_error i e s
      note_error-V20 e (inl q) = rw q refl
      note_error-V20 e (inr q) = rw q refl

      bind-cong' :
          {A B : Type 0} {m m' : Step L A} {f g : A → Step L B}
          → m ≡ m'
          → ((a : A) → f a ≡ g a)
          → (m >>= f) ≡ (m' >>= g)
      bind-cong' {m = m} {f = f} {g = g} e h = bind-cong m f g h ∙ ap (λ x. x >>= g) e

  deliver-V20 :
      (cs : List CorpusSetup) (ans : SrResponse L) (r : SearchRequest) (s : RoundRobinLineSel L)
      → without_next (V20.Search.deliver cs ans r s) ≡ deliver cs ans r s
  unfolding deliver finish mquery_fcs.Handler.V20.Search.deliver
      mquery_fcs.Handler.V20.Search.finish
  deliver-V20 cs ans r s = without_next-bind (check_results ans s) _ _ (λ _ _.
      without_next-bind (make_records cs ans r.maximum_records r.start_record s) _ _ (λ _ _. refl))

  results-V20 :
      (cs : List CorpusSetup) (ans : SrResponse L) (r : SearchRequest)
      (rs : List (String × ConcResult L)) (s : RoundRobinLineSel L)
      → AllOnlyRange rs
      → without_next (do
        filled ← V20.Search.fill_results ans 0 rs 0 s
        V20.Search.deliver cs (record ans { number_of_records = filled.0 }) r filled.1)
        ≡ (do
          filled ← fill_results 0 rs 0 s
          deliver cs (record ans { number_of_records = filled.0 }) r filled.1)
  results-V20 cs ans r rs s h = rw (fill_results-V20 ans 0 rs 0 s h) (
      without_next-bind (fill_results 0 rs 0 s) _ _
        (λ filled _. deliver-V20 cs (record ans { number_of_records = filled.0 }) r filled.1))

  awaited-result :
      (ans : SrResponse L) (p : Published L) (c : ConcResult L)
      → awaited ans p ≡ going c
      → p ≡ result c
  awaited-result ans (not_published e) c h = cc
  awaited-result ans (result r) c h = ap result (sym (going-injective h))

module _ {L : Type 0} (parse_basic : String → Parsed BinaryOperatorQuery)
    (parse_fcs : String → Parsed FcsQl.Query) (publish : ConcQueryArgs → Published L) where
  publish_all-V20 :
      (conf : CorporaSetup) (ans : SrResponse L) (r : SearchRequest) (rngs : List LineRange)
      (b : BinaryOperatorQuery)
      → parse_basic r.fcs_query ≡ parsed b
      → V20.Search.publish_all parse_basic parse_fcs publish conf ans r "cql" rngs
        ≡ publish_all parse_basic publish conf ans r rngs
  unfolding publish_all mquery_fcs.Handler.V20.Search.publish_all
  publish_all-V20 conf ans r [] b h = refl
  publish_all-V20 conf ans r (rng ∷ rngs) b h = rw (h, publish_all-V20 conf ans r rngs b h) refl

  publish_all-AllOnlyRange :
      (conf : CorporaSetup) (ans : SrResponse L) (r : SearchRequest) (rngs : List LineRange)
      (rs : List (String × ConcResult L))
      → ((x : ConcQueryArgs) (c : ConcResult L) → publish x ≡ result c → OnlyRange c.error)
      → publish_all parse_basic publish conf ans r rngs ≡ going rs
      → AllOnlyRange rs
  unfolding publish_all
  publish_all-AllOnlyRange conf ans r [] rs n h = rw (going-injective h) tt
  publish_all-AllOnlyRange conf ans r (rng ∷ rngs) rs n h =
      let a =
        going-bind
          (found_or ans conformant_unprocessable_entity (get_resource conf.resources rng.rsc)) _ rs
          h in
      let g = going-bind (translate_query parse_basic publish ans a.0 r.fcs_query) _ rs a.2 in
      let u = going-bind (no_errors ans g.0.1) _ rs g.2 in
      let c = going-bind (awaited ans (publish _)) _ rs u.2 in
      let k = going-bind (publish_all parse_basic publish conf ans r rngs) _ rs c.2 in
      rw (going-injective k.2)
        (n _ c.0 (awaited-result ans _ c.0 c.1), publish_all-AllOnlyRange conf ans r rngs k.0 n k.1)

  ranges-V20 :
      (conf : CorporaSetup) (ans : SrResponse L) (r : SearchRequest) (xs : List LineRange)
      (b : BinaryOperatorQuery)
      → parse_basic r.fcs_query ≡ parsed b
      → ((x : ConcQueryArgs) (c : ConcResult L) → publish x ≡ result c → OnlyRange c.error)
      → let s : RoundRobinLineSel L = new_sel r.maximum_records (pid_list xs) in
        without_next (do
          results ← V20.Search.publish_all parse_basic parse_fcs publish conf ans r "cql" xs
          filled ← V20.Search.fill_results ans 0 results 0 s
          V20.Search.deliver conf.resources
              (record ans { number_of_records = filled.0 })
              r
              filled.1)
        ≡ (do
          results ← publish_all parse_basic publish conf ans r xs
          filled ← fill_results 0 results 0 s
          deliver conf.resources (record ans { number_of_records = filled.0 }) r filled.1)
  ranges-V20 conf ans r xs b p n =
      let s : RoundRobinLineSel L = new_sel r.maximum_records (pid_list xs) in
      rw (publish_all-V20 conf ans r xs b p) (
        without_next-bind (publish_all parse_basic publish conf ans r xs) _ _ (λ rs e.
          results-V20 conf.resources ans r rs s (publish_all-AllOnlyRange conf ans r xs rs n e)))

  -- On a request whose parameters both versions know and whose query parses as a basic query, if no
  -- result has another error than that of its range: `searchRetrieve` of version 1.2 comes to what
  -- that of version 2.0 comes to, a panic or a refusal included, with the next position left out.
  pub search_retrieve-V20 :
      (conf : CorporaSetup) (ps : Params) (b : BinaryOperatorQuery)
      → refused validate_search_retr_arg ps ≡ none
      → refused V20.Args.validate_search_retr_arg ps ≡ none
      → parse_basic (query ps "query") ≡ parsed b
      → ((x : ConcQueryArgs) (c : ConcResult L) → publish x ≡ result c → OnlyRange c.error)
      → without_next (V20.Search.search_retrieve parse_basic parse_fcs publish conf ps)
        ≡ search_retrieve parse_basic publish conf ps
  unfolding search_retrieve mquery_fcs.Handler.V20.Search.search_retrieve
  search_retrieve-V20 conf ps b h k p n =
      rw (check_request-V20 {L = L} conf ps h k, no_query_type ps h)
        (without_next-bind (V20.Request.check_request conf ps) _ _ (λ (ans, r) q.
          without_next-bind
            (unpanicked (calculate_partial_ranges r.corpora (r.start_record - 1) r.maximum_records))
            _ _
            (λ xs _.
              ranges-V20 conf ans r xs b
                (ap parse_basic (check_request-InBounds conf ps ans r q).searched ∙ p) n)))
