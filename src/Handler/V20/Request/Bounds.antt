-- ===== src/Handler/V20/Request/Bounds.antt =====
-- What holds of every request that is searched for.
use mquery_fcs.Corpus.Setup.{CorpusSetup}
use mquery_fcs.Corpus.CommonAttrs.{get_common_pos_attr_names}
use mquery_fcs.General.Request.{record_schema}
use mquery_fcs.Handler.Params.{Params, query, default_query}
use mquery_fcs.Prelude.Integers.{Integer}
use mquery_fcs.Handler.V20.Args.{fetch_context, validate_search_retr_arg}
use mquery_fcs.Handler.V20.Responses.{
  SrResponse, new_response, Step, panicked, answered, going, ◌>>=◌,
}
use mquery_fcs.Handler.V20.Request.{
  CorporaSetup, SearchRequest, check_request, with_corpora, with_maximum, check_names, check_query,
  check_positive, check_limit, check_corpora, first_again, attrs_to_retrieve, check_schema,
  parse_int, read_maximum, choose_corpora,
}
use mquery_fcs.Handler.V20.Scan.{refused}
use mquery_fcs.Prelude.{
  ℕ, ◌≤◌, ◌<◌, eq_iff, String, none, List, [], ◌∷◌, length, ◌≡◌, ◌≢◌, refl, ap, sym, ◌∙◌,
  Option-cases, inl, inr, arith,
}

module _ {L : Type 0} where
  panicked≢going {ℓ} : {A : Type ℓ} {a : A} → ◌≢◌ {A = Step L A} panicked (going a)
  panicked≢going h = cc

  answered≢going {ℓ} :
      {A : Type ℓ} {r : SrResponse L} {a : A} → ◌≢◌ {A = Step L A} (answered r) (going a)
  answered≢going h = cc

  pub going-injective {ℓ} : {A : Type ℓ} {a b : A} → ◌≡◌ {A = Step L A} (going a) (going b) → b ≡ a
  going-injective h = cc

  -- What a chain that goes on has passed through.
  pub going-bind {ℓ κ} :
      {A : Type ℓ} {B : Type κ} (m : Step L A) (f : A → Step L B) (b : B)
      → (m >>= f) ≡ going b
      → (a : A) × (m ≡ going a) × (f a ≡ going b)
  going-bind panicked f b h = absurd (panicked≢going h)
  going-bind (answered r) f b h = absurd (answered≢going h)
  going-bind (going a) f b h = (a, refl, h)

  check_positive-lt :
      (ans : SrResponse L) (name : String) (n : Integer) (m : ℕ)
      → check_positive ans name n ≡ going m
      → 0 < m
  check_positive-lt ans name n m h = ground (arith, h)

  check_limit-le :
      (ans : SrResponse L) (m : ℕ) (u : Unit {0}) → check_limit ans m ≡ going u → m ≤ 1000
  check_limit-le ans m u h = ground (arith, h)

  check_query-some :
      (ans : SrResponse L) (q : String) (u : Unit {0}) → check_query ans q ≡ going u → q ≢ ""
  check_query-some ans q u h = λ e. ground (arith, eq_iff q "", h)

  check_corpora-some :
      (ans : SrResponse L) (l : List String) (u : Unit {0})
      → check_corpora ans l ≡ going u
      → 0 < length l
  check_corpora-some ans [] u h = cc
  check_corpora-some ans (x ∷ l) u h = omega arith

  check_names-none :
      (ans : SrResponse L) (ps : Params) (u : Unit {0})
      → check_names ans ps ≡ going u
      → refused validate_search_retr_arg ps ≡ none
  check_names-none ans ps u h = elim (Option-cases (refused validate_search_retr_arg ps)) [
    | inl e ↦ e
    | inr (r, e) ↦ absurd (answered≢going (rw (check_names, e) at h))
  ]

  first_again-some : (l k : List String) → first_again {L = L} l ≡ going k → 0 < length k
  first_again-some [] k h = absurd (panicked≢going h)
  first_again-some (a ∷ l) k h = rw (going-injective h) (omega arith)

  attrs-some :
      (ans : SrResponse L) (cs : List CorpusSetup) (corpora k : List String)
      → attrs_to_retrieve ans cs corpora ≡ going k
      → 0 < length k
  attrs-some ans cs corpora k h = elim (Option-cases (get_common_pos_attr_names cs corpora)) [
    | inl e ↦ absurd (answered≢going (rw (attrs_to_retrieve, e) at h))
    | inr (l, e) ↦ first_again-some l k (rw (attrs_to_retrieve, e) at h)
  ]

  -- What the part behind the numbers makes of them.
  record Chosen (ps : Params) (echo : SrResponse L) (q : String) (s : ℕ) (ans : SrResponse L)
      (r : SearchRequest) : Type 0 where
    corpora : 0 < length r.corpora
    attrs : 0 < length r.retrieve_attrs
    asked : r.fcs_query ≡ q
    start : r.start_record ≡ s
    echoed : ans ≡ echo

  with_corpora-Chosen :
      (conf : CorporaSetup) (ps : Params) (echo : SrResponse L) (q : String) (s m : ℕ)
      (ans : SrResponse L) (r : SearchRequest)
      → with_corpora conf ps echo q s m ≡ going (ans, r)
      → Chosen ps echo q s ans r × (r.maximum_records ≡ m)
  unfolding with_corpora
  with_corpora-Chosen conf ps echo q s m ans r h =
      let o = going-bind (choose_corpora echo conf.resources (fetch_context ps)) _ (ans, r) h in
      let k = going-bind (check_corpora echo o.0) _ (ans, r) o.2 in
      let a = going-bind (attrs_to_retrieve echo conf.resources o.0) _ (ans, r) k.2 in
      let found : SearchRequest = record {
        fcs_query = q;
        start_record = s;
        maximum_records = m;
        corpora = o.0;
        retrieve_attrs = a.0;
      } in
      let e : (ans, r) ≡ (echo, found) = going-injective a.2 in
      (
        record {
          corpora = rw (ap (λ x. x.1.corpora) e) (check_corpora-some echo o.0 k.0 k.1);
          attrs = rw (ap (λ x. x.1.retrieve_attrs) e) (attrs-some echo conf.resources o.0 a.0 a.1);
          asked = ap (λ x. x.1.fcs_query) e;
          start = ap (λ x. x.1.start_record) e;
          echoed = ap (λ x. x.0) e;
        },
        ap (λ x. x.1.maximum_records) e,
      )

  with_maximum-Chosen :
      (conf : CorporaSetup) (ps : Params) (echo : SrResponse L) (q : String) (s : ℕ)
      (ans : SrResponse L) (r : SearchRequest)
      → with_maximum conf ps echo q s ≡ going (ans, r)
      → Chosen ps echo q s ans r × (0 < r.maximum_records) × (r.maximum_records ≤ 1000)
  unfolding with_maximum
  with_maximum-Chosen conf ps echo q s ans r h =
      let c =
        going-bind (check_schema echo (default_query ps "recordSchema" record_schema)) _ (ans, r)
          h in
      let x =
        going-bind (read_maximum echo conf.maximum_records (query ps "maximumRecords")) _ (ans, r)
          c.2 in
      let m = going-bind (check_positive echo "maximumRecords" x.0) _ (ans, r) x.2 in
      let l = going-bind (check_limit echo m.0) _ (ans, r) m.2 in
      let w = with_corpora-Chosen conf ps echo q s m.0 ans r l.2 in
      let lo = check_positive-lt echo "maximumRecords" x.0 m.0 m.1 in
      let hi = check_limit-le echo m.0 l.0 l.1 in (w.0, rw w.1 lo, rw w.1 hi)

  -- What is known of a request that is searched for.
  pub record InBounds (ps : Params) (ans : SrResponse L) (r : SearchRequest) : Type 0 where
    pub names : refused validate_search_retr_arg ps ≡ none
    pub asked : r.fcs_query ≢ ""
    pub searched : r.fcs_query ≡ query ps "query"
    pub start : 0 < r.start_record
    pub maximum : (0 < r.maximum_records) × (r.maximum_records ≤ 1000)
    pub corpora : 0 < length r.corpora
    pub attrs : 0 < length r.retrieve_attrs
    pub echoed : (ans.echoed_query ≡ query ps "query") × (ans.echoed_start_record ≡ r.start_record)

  -- A request that passes the checks has known parameters only, a query, a start at 1 or later, from 1
  -- to 1000 records, a corpus and an attribute; it searches for its query, and the response echoes
  -- its query and its start.
  pub check_request-InBounds :
      (conf : CorporaSetup) (ps : Params) (ans : SrResponse L) (r : SearchRequest)
      → check_request conf ps ≡ going (ans, r)
      → InBounds ps ans r
  unfolding check_request
  check_request-InBounds conf ps ans r h =
      let first : SrResponse L = record new_response { echoed_query = query ps "query" } in
      let n = going-bind (check_names new_response ps) _ (ans, r) h in
      let q = going-bind (check_query new_response (query ps "query")) _ (ans, r) n.2 in
      let s =
        going-bind (parse_int first "startRecord" (default_query ps "startRecord" "1")) _ (ans, r)
          q.2 in
      let p = going-bind (check_positive first "startRecord" s.0) _ (ans, r) s.2 in
      let echo : SrResponse L = record first { echoed_start_record = p.0 } in
      let c = with_maximum-Chosen conf ps echo (query ps "query") p.0 ans r p.2 in
      record {
        names = check_names-none new_response ps n.0 n.1;
        asked = rw c.0.asked (check_query-some new_response (query ps "query") q.0 q.1);
        searched = c.0.asked;
        start = rw c.0.start (check_positive-lt first "startRecord" s.0 p.0 p.1);
        maximum = (c.1, c.2);
        corpora = c.0.corpora;
        attrs = c.0.attrs;
        echoed = (
          ap (λ x. x.echoed_query) c.0.echoed,
          ap (λ x. x.echoed_start_record) c.0.echoed ∙ sym c.0.start,
        );
      }
