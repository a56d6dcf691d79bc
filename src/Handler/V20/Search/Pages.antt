-- ===== src/Handler/V20/Search/Pages.antt =====
-- The records of a search in which every corpus answers: they are those of the page by turns.
use mquery_fcs.Corpus.Resources.{get_resource}
use mquery_fcs.Corpus.Setup.{CorpusSetup}
use mquery_fcs.Handler.Params.{Params, default_query}
use mquery_fcs.Handler.V20.Args.{query_type_cql}
use mquery_fcs.Handler.V20.Request.{CorporaSetup, SearchRequest, check_request}
use mquery_fcs.Handler.V20.Request.Bounds.{check_request-InBounds}
use mquery_fcs.Handler.V20.Responses.{SrRecord, SrResponse, Step, going, ◌>>=◌}
use mquery_fcs.Handler.V20.Search.{
  Parsed, Published, found_or, note_error, check_results, make_records, finish, deliver,
  publish_all, fill_results, search_retrieve,
}
use mquery_fcs.Prelude
use mquery_fcs.Prelude.{
  ℕ, zero, suc, ◌+◌, ◌-◌, ◌<◌, ◌==◌, if◌then◌else◌, String, Bool, true, false, Option, none, some,
  List, [], ◌∷◌, length, take, drop, ◌≡◌, ◌≢◌, refl, ap, sym, ◌∙◌, inl, inr, Bool-cases,
  Option-cases, arith,
}
use mquery_fcs.Query.Basic.{BinaryOperatorQuery}
use mquery_fcs.Query.FcsQl
use mquery_fcs.Query.Ranges.{LineRange, calculate_partial_ranges, pid_list}
use mquery_fcs.Rdb.{ConcQueryArgs}
use mquery_fcs.Result.{ConcResult}
use mquery_fcs.Result.RoundRobin.{
  RoundRobinLineSel, new_sel, set_rsc_lines, all_has_out_of_range_error, count_out_of_range,
  all_err, next, curr_rsc_name, curr_line,
}
use mquery_fcs.Result.RoundRobin.Cells.{collect, read_lines}
use mquery_fcs.Result.RoundRobin.Setup.{Distinct, filled_items, set_all, sel}
use mquery_fcs.Search.Paging
use mquery_fcs.Search.Paging.{by_turns}
use mquery_fcs.Search.Paging.Turns.{page-Filled}

some-injective {ℓ} : {A : Type ℓ} {a b : A} → some a ≡ some b → a ≡ b
some-injective h = cc

none≢some {ℓ} : {A : Type ℓ} {a : A} → ◌≢◌ {A = Option A} none (some a)
none≢some h = cc

-- What a chain of steps that do not panic has passed through.
some-bind {ℓ κ} :
    {A : Type ℓ} {B : Type κ} (m : Option A) (f : A → Option B) (b : B)
    → Prelude.◌>>=◌ m f ≡ some b
    → (a : A) × (m ≡ some a) × (f a ≡ some b)
some-bind none f b h = absurd (none≢some h)
some-bind (some a) f b h = (a, refl, h)

module _ {L : Type 0} where
  -- A record for each line, at consecutive positions.
  unfoldable pub records_of :
      List CorpusSetup → SrResponse L → ℕ → List (String × L) → Step L (List (SrRecord L))
  records_of cs ans position [] = going []
  records_of cs ans position ((name, line) ∷ lines) = do
    res ← found_or ans 500 (get_resource cs name)
    rest ← records_of cs ans (position + 1) lines
    going (record { pid = res.pid; resource = res; line = line; record_position = position } ∷ rest)

  made :
      (cs : List CorpusSetup) (ans : SrResponse L) (left p : ℕ) (s r : RoundRobinLineSel L)
      (name : String) (line : L) (more : List (String × L))
      → next s ≡ some (true, r)
      → curr_rsc_name r ≡ some name
      → curr_line r ≡ some (some line)
      → make_records cs ans left (p + 1) r ≡ records_of cs ans (p + 1) more
      → make_records cs ans (suc left) p s ≡ records_of cs ans p ((name, line) ∷ more)
  unfolding make_records records_of
  made cs ans left p s r name line more e n l k = rw (e, n, l, k) refl

  make_record :
      (cs : List CorpusSetup) (ans : SrResponse L) (left p : ℕ) (s : RoundRobinLineSel L)
      (ls : List (String × L)) (found : Bool) (r : RoundRobinLineSel L)
      → ((k : List (String × L))
          → read_lines left r ≡ some k
          → make_records cs ans left (p + 1) r ≡ records_of cs ans (p + 1) k)
      → next s ≡ some (found, r)
      → read_lines (suc left) s ≡ some ls
      → make_records cs ans (suc left) p s ≡ records_of cs ans p ls
  unfolding make_records read_lines records_of
  make_record cs ans left p s ls true r again e h =
      let a = some-bind (curr_rsc_name r) _ ls (rw (read_lines, e) at h) in
      let b = some-bind (curr_line r) _ ls a.2 in
      let c = some-bind b.0 _ ls b.2 in
      let d = some-bind (read_lines left r) _ ls c.2 in
      let shown : curr_line r ≡ some (some c.0) = b.1 ∙ ap some c.1 in
      made cs ans left p s r a.0 c.0 d.0 e a.1 shown (again d.0 d.1)
      ∙ ap (records_of cs ans p) (some-injective d.2)
  make_record cs ans left p s ls false r again e h =
      rw (← some-injective (rw (read_lines, e) at h)) (rw e refl)

  make_records-read_lines :
      (cs : List CorpusSetup) (ans : SrResponse L) (left p : ℕ) (s : RoundRobinLineSel L)
      (ls : List (String × L))
      → read_lines left s ≡ some ls
      → make_records cs ans left p s ≡ records_of cs ans p ls
  unfolding make_records read_lines records_of
  make_records-read_lines cs ans zero p s ls h = rw (sym (some-injective h)) refl
  make_records-read_lines cs ans (suc left) p s ls h = elim (Option-cases (next s)) [
    | inl e ↦ absurd (none≢some (rw (read_lines, e) at h))
    | inr ((found, r), e) ↦
        make_record cs ans left p s ls found r
          (λ k. make_records-read_lines cs ans left (p + 1) r k) e h
  ]

  NoErrors : List (String × ConcResult L) → Type 0
  NoErrors [] = Unit
  NoErrors ((n, c) ∷ rs) = (c.error ≡ none) × NoErrors rs

  unfoldable pub total_size : List (String × ConcResult L) → ℕ
  total_size [] = 0
  total_size ((n, c) ∷ rs) = c.conc_size + total_size rs

  fill_results-set_all :
      (ans : SrResponse L) (i : ℕ) (rs : List (String × ConcResult L)) (total : ℕ)
      (s s' : RoundRobinLineSel L)
      → NoErrors rs
      → set_all rs s ≡ some s'
      → fill_results ans i rs total s ≡ going (total + total_size rs, s')
  unfolding fill_results set_all total_size NoErrors
  fill_results-set_all ans i [] total s s' n h =
      rw (sym (some-injective h)) (ap (λ t. going (t, s)) (omega arith))
  fill_results-set_all ans i ((name, c) ∷ rs) total s s' n h =
      elim (Option-cases (set_rsc_lines name c s)) [
        | inl e ↦ absurd (none≢some (rw (set_all, e) at h))
        | inr (r, e) ↦
            let q : note_error ans i c.error s ≡ going s = ap (λ x. note_error ans i x s) n.0 in
            rw (q, e)
              (fill_results-set_all ans (i + 1) rs (total + c.conc_size) r s' n.1
                  (rw (set_all, e) at h)
                ∙ ap (λ t. going (t, s')) (omega arith))
      ]

  not_failed : (rs : List (String × ConcResult L)) → count_out_of_range (filled_items rs) ≡ 0
  unfolding count_out_of_range
  not_failed [] = refl
  not_failed ((n, c) ∷ rs) = omega (arith, not_failed rs)

  check_results-filled :
      (ans : SrResponse L) (rs : List (String × ConcResult L)) (m : ℕ)
      → 0 < length (filled_items rs)
      → check_results ans (sel m (filled_items rs)) ≡ going tt
  unfolding all_has_out_of_range_error all_err
  check_results-filled ans [] m h = absurd (omega arith)
  check_results-filled ans ((n, c) ∷ rs) m h =
      let q : all_has_out_of_range_error (sel m (filled_items ((n, c) ∷ rs))) ≡ false =
        ground (arith, not_failed ((n, c) ∷ rs)) in
      rw q refl

  answered-NoErrors :
      (answer : LineRange → ConcResult L) (xs : List LineRange)
      → ((rg : LineRange) → (answer rg).error ≡ none)
      → NoErrors (Paging.answered answer xs)
  unfolding NoErrors Paging.answered
  answered-NoErrors answer [] h = tt
  answered-NoErrors answer (x ∷ xs) h = (h x, answered-NoErrors answer xs h)

module _ {L : Type 0} (parse_basic : String → Parsed BinaryOperatorQuery)
    (parse_fcs : String → Parsed FcsQl.Query) (publish : ConcQueryArgs → Published L) where
  -- For a request of different corpora that passes the checks, where the queries for its ranges are
  -- published and answered without errors, and each answer has the corpus's lines from the start of
  -- the range on, as many as were asked for at most: the response has a record for each line that
  -- taking one line of each corpus in turn gives at the visits of the page, and the number of the
  -- lines that the answers count.
  pub search_retrieve-records_of :
      (conf : CorporaSetup) (ps : Params) (ans : SrResponse L) (r : SearchRequest)
      (conc : String → List L) (answer : LineRange → ConcResult L) (xs : List LineRange)
      → check_request conf ps ≡ going (ans, r)
      → Distinct r.corpora
      → calculate_partial_ranges r.corpora (r.start_record - 1) r.maximum_records ≡ some xs
      → publish_all parse_basic parse_fcs publish conf ans r
          (default_query ps "queryType" query_type_cql)
          xs
        ≡ going (Paging.answered answer xs)
      → ((rg : LineRange) → (answer rg).lines ≡ take r.maximum_records (drop rg.from (conc rg.rsc)))
      → ((rg : LineRange) → (answer rg).error ≡ none)
      → search_retrieve parse_basic parse_fcs publish conf ps ≡ (do
        let counted = record ans { number_of_records = total_size (Paging.answered answer xs) }
        records ←
            records_of conf.resources counted r.start_record
              (collect (by_turns conc r.corpora) (r.start_record - 1) r.maximum_records)
        going (finish counted r.start_record records))
  unfolding search_retrieve deliver
  search_retrieve-records_of conf ps ans r conc answer xs q d e p h n =
      let m = r.maximum_records in
      let o = r.start_record - 1 in
      let b = check_request-InBounds conf ps ans r q in
      let f = page-Filled conc r.corpora o m answer b.corpora d h in
      let same : f.0 ≡ xs = some-injective (sym f.1.ranges ∙ e) in
      let rs = Paging.answered answer xs in
      let s = sel m (filled_items rs) in
      let filled : set_all rs (new_sel m (pid_list xs)) ≡ some s = rw same at f.1.filled in
      let read : read_lines m s ≡ some (collect (by_turns conc r.corpora) o m) =
        rw same at f.1.read in
      let size : 0 < length (filled_items rs) = rw same at f.1.size in
      let results =
        fill_results-set_all ans 0 rs 0 (new_sel m (pid_list xs)) s (answered-NoErrors answer xs n)
          filled in
      let total : 0 + total_size rs ≡ total_size rs = omega arith in
      let counted : SrResponse L = record ans { number_of_records = total_size rs } in
      rw
        (
          q,
          e,
          p,
          results,
          total,
          check_results-filled counted rs m size,
          make_records-read_lines conf.resources counted m r.start_record s _ read,
        )
        refl
