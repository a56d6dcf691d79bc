-- ===== src/Handler/V12/Search/Failures.antt =====
-- `searchRetrieve` of version 1.2 where a worker meets an error.
use mquery_fcs.Handler.Params.{Params}
use mquery_fcs.Handler.V12.Search.{check_request, fill_results, publish_all, search_retrieve}
use mquery_fcs.Handler.V20.Request.{CorporaSetup, SearchRequest}
use mquery_fcs.Handler.V20.Responses.{SrResponse, Step, panicked, going, unpanicked, ◌>>=◌}
use mquery_fcs.Handler.V20.Search.Failures.{transmitted_all}
use mquery_fcs.Handler.V20.Search.{Parsed, Published}
use mquery_fcs.Prelude.{
  ℕ, ◌+◌, ◌-◌, String, Option, none, some, List, [], ◌∷◌, ◌≡◌, refl, ◌⊎◌, inl, inr, Option-cases,
}
use mquery_fcs.Query.Basic.{BinaryOperatorQuery}
use mquery_fcs.Query.Ranges.{LineRange, calculate_partial_ranges, pid_list}
use mquery_fcs.Rdb.{ConcQueryArgs, transmitted, transmitted_error}
use mquery_fcs.Result.{GoError, ConcResult}
use mquery_fcs.Result.RoundRobin.{RoundRobinLineSel, new_sel, set_rsc_lines}

module _ {L : Type 0} where
  -- A worker met an error.
  abbrev pub SomeFailed : List (String × ConcResult L) → Type 0
  SomeFailed [] = ⊥
  SomeFailed ((n, c) ∷ rs) = ((e : GoError) × (c.error ≡ some e)) ⊎ SomeFailed rs

  bind-panicked {ℓ κ} :
      {A : Type ℓ} {B : Type κ} (m : Option A) (f : A → Step L B)
      → ((a : A) → f a ≡ panicked)
      → (unpanicked m >>= f) ≡ panicked
  bind-panicked none f h = refl
  bind-panicked (some a) f h = h a

  fill_results-panicked :
      (i : ℕ) (rs : List (String × ConcResult L)) (total : ℕ) (s : RoundRobinLineSel L)
      → SomeFailed rs
      → fill_results i (transmitted_all rs) total s ≡ panicked
  unfolding fill_results transmitted transmitted_error
  fill_results-panicked i [] total s h = absurd h
  fill_results-panicked i ((n, c) ∷ rs) total s (inl (e, h)) = rw h refl
  fill_results-panicked i ((n, c) ∷ rs) total s (inr h) = elim (Option-cases c.error) [
    | inr (e, k) ↦ rw k refl
    | inl k ↦ rw k (
        bind-panicked (set_rsc_lines n _ s) _
          (λ filled. fill_results-panicked (i + 1) rs (total + c.conc_size) filled h))
  ]

  -- On a request that passes the checks and whose queries are published, if a worker meets any error,
  -- be it that of the range, and sends it the way the workers do, `searchRetrieve` of version 1.2
  -- panics.
  pub search_retrieve-panicked :
      (parse_basic : String → Parsed BinaryOperatorQuery) (publish : ConcQueryArgs → Published L)
      (conf : CorporaSetup) (ps : Params) (ans : SrResponse L) (r : SearchRequest)
      (xs : List LineRange) (rs : List (String × ConcResult L))
      → check_request conf ps ≡ going (ans, r)
      → calculate_partial_ranges r.corpora (r.start_record - 1) r.maximum_records ≡ some xs
      → publish_all parse_basic publish conf ans r xs ≡ going (transmitted_all rs)
      → SomeFailed rs
      → search_retrieve parse_basic publish conf ps ≡ panicked
  unfolding search_retrieve
  search_retrieve-panicked parse_basic publish conf ps ans r xs rs q e p h =
      rw (q, e, p, fill_results-panicked 0 rs 0 (new_sel r.maximum_records (pid_list xs)) h) refl
