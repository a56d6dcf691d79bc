-- ===== src/Handler/V20/Search/Positions.antt =====
-- The positions in the responses of `searchRetrieve`.
use mquery_fcs.Corpus.Resources.{get_resource}
use mquery_fcs.Corpus.Setup.{CorpusSetup}
use mquery_fcs.Handler.Params.{Params, default_query}
use mquery_fcs.Handler.V20.Args.{query_type_cql}
use mquery_fcs.Handler.V20.Request.{CorporaSetup, SearchRequest, check_request}
use mquery_fcs.Handler.V20.Request.Bounds.{going-bind, going-injective, check_request-InBounds}
use mquery_fcs.Handler.V20.Responses.{SrRecord, SrResponse, going, unpanicked}
use mquery_fcs.Handler.V20.Search.{
  Parsed, Published, found_or, check_results, make_records, finish, deliver, publish_all,
  fill_results, search_retrieve,
}
use mquery_fcs.Prelude.{
  ℕ, zero, suc, ◌+◌, ◌-◌, ◌≤◌, ◌<◌, ltb, ltb→lt, String, List, [], ◌∷◌, length, ◌≡◌, refl, ◌⊎◌, inl,
  inr, Bool-cases, arith,
}
use mquery_fcs.Query.Basic.{BinaryOperatorQuery}
use mquery_fcs.Query.FcsQl
use mquery_fcs.Query.Ranges.{calculate_partial_ranges, pid_list}
use mquery_fcs.Rdb.{ConcQueryArgs}
use mquery_fcs.Result.RoundRobin.{RoundRobinLineSel, new_sel, next, curr_rsc_name, curr_line}

module _ {L : Type 0} where
  -- Records at consecutive positions.
  abbrev pub Consecutive : ℕ → List (SrRecord L) → Type 0
  Consecutive p [] = Unit
  Consecutive p (x ∷ xs) = (x.record_position ≡ p) × Consecutive (p + 1) xs

  make_records-Consecutive :
      (cs : List CorpusSetup) (ans : SrResponse L) (left p : ℕ) (sel : RoundRobinLineSel L)
      (xs : List (SrRecord L))
      → make_records cs ans left p sel ≡ going xs
      → Consecutive p xs × (length xs ≤ left)
  unfolding make_records
  make_records-Consecutive cs ans zero p sel xs h = rw (going-injective h) (tt, omega arith)
  make_records-Consecutive cs ans (suc left) p sel xs h =
      let n = going-bind (unpanicked (next sel)) _ xs h in
      elim (Bool-cases n.0.0) [
        | inl t ↦
            let a = going-bind (unpanicked (curr_rsc_name n.0.1)) _ xs (rw t at n.2) in
            let b = going-bind (found_or ans 500 (get_resource cs a.0)) _ xs a.2 in
            let c = going-bind (unpanicked (curr_line n.0.1)) _ xs b.2 in
            let d = going-bind (unpanicked c.0) _ xs c.2 in
            let e = going-bind (make_records cs ans left (p + 1) n.0.1) _ xs d.2 in
            let rest = make_records-Consecutive cs ans left (p + 1) n.0.1 e.0 e.1 in
            rw (going-injective e.2) ((refl, rest.0), omega (arith, rest.1))
        | inr f ↦ rw (going-injective (rw f at n.2)) (tt, omega arith)
      ]

  -- Where the client is sent for more: nowhere, or behind the records it has, while there are lines
  -- left.
  pub record InOrder (ans : SrResponse L) (m : ℕ) : Type 0 where
    positions : Consecutive ans.echoed_start_record ans.records
    bounded : length ans.records ≤ m
    onward :
        (ans.next_record_position ≡ 0)
        ⊎ ((ans.next_record_position ≡ ans.echoed_start_record + length ans.records)
            × (ans.next_record_position ≤ ans.number_of_records))

  deliver-InOrder :
      (cs : List CorpusSetup) (ans resp : SrResponse L) (r : SearchRequest)
      (sel : RoundRobinLineSel L)
      → ans.echoed_start_record ≡ r.start_record
      → 0 < r.start_record
      → deliver cs ans r sel ≡ going resp
      → InOrder resp r.maximum_records
  unfolding deliver finish
  deliver-InOrder cs ans resp r sel s 0<s h =
      let c = going-bind (check_results ans sel) _ resp h in
      let x = going-bind (make_records cs ans r.maximum_records r.start_record sel) _ resp c.2 in
      let k = make_records-Consecutive cs ans r.maximum_records r.start_record sel x.0 x.1 in
      rw (going-injective x.2) (record {
        positions = rw s k.0;
        bounded = k.1;
        onward = elim (Bool-cases (ltb (length x.0 + r.start_record - 1) ans.number_of_records)) [
          | inl t ↦ inr (rw t (rw s (omega arith)), rw t (ground (arith, ltb→lt _ _ t)))
          | inr f ↦ inl (rw f refl)
        ];
      })

module _ {L : Type 0} (parse_basic : String → Parsed BinaryOperatorQuery)
    (parse_fcs : String → Parsed FcsQl.Query) (publish : ConcQueryArgs → Published L) where
  -- A search that ends with records numbers them from the start that it echoes, has at most 1000 of them, and
  -- sends the client either nowhere or to the position behind its last record, which is then one that
  -- the results have.
  pub search_retrieve-InOrder :
      (conf : CorporaSetup) (ps : Params) (resp : SrResponse L)
      → search_retrieve parse_basic parse_fcs publish conf ps ≡ going resp
      → InOrder resp 1000
  unfolding search_retrieve
  search_retrieve-InOrder conf ps resp h =
      let q = going-bind (check_request conf ps) _ resp h in
      let ans = q.0.0 in
      let r = q.0.1 in
      let b = check_request-InBounds conf ps ans r q.1 in
      let g =
        going-bind
          (unpanicked (calculate_partial_ranges r.corpora (r.start_record - 1) r.maximum_records)) _
          resp q.2 in
      let w =
        going-bind
          (publish_all parse_basic parse_fcs publish conf ans r
            (default_query ps "queryType" query_type_cql) g.0)
          _ resp g.2 in
      let f =
        going-bind (fill_results ans 0 w.0 0 (new_sel r.maximum_records (pid_list g.0))) _ resp
          w.2 in
      let o =
        deliver-InOrder conf.resources (record ans { number_of_records = f.0.0 }) resp r f.0.1
          b.echoed.1 b.start f.2 in
      record {
        positions = o.positions;
        bounded = omega (arith, o.bounded, b.maximum.1);
        onward = o.onward;
      }
