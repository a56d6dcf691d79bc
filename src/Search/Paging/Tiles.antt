-- ===== src/Search/Paging/Tiles.antt =====
-- How the pages of one search fit together.
use native.Mathlib.Nat.{add-zero, zero-add}
use mquery_fcs.Prelude.{
  ℕ, zero, suc, ◌+◌, ◌<◌, ◌≡◌, ap, inl, inr, String, Option, some, List, ◌∷◌, ◌++◌, length, take,
  drop, Option-cases, arith, ◌>>=◌,
}
use mquery_fcs.Query.Ranges.{LineRange}
use mquery_fcs.Result.{ConcResult}
use mquery_fcs.Result.RoundRobin.Cells.{collect}
use mquery_fcs.Result.RoundRobin.Setup.{Distinct}
use mquery_fcs.Search.Paging.{page, by_turns}
use mquery_fcs.Search.Paging.Turns.{page-by_turns}

module _ {A : Type 0} (c : ℕ → Option A) where
  collect-append : (i a b : ℕ) → collect c i (a + b) ≡ collect c i a ++ collect c (i + a) b
  unfolding collect
  collect-append i zero b = rw (zero-add b) (rw (add-zero i))
  collect-append i (suc a) b =
      let q : suc a + b ≡ suc (a + b) = omega arith in
      let r : i + suc a ≡ suc i + a = omega arith in
      rw (q, r)
        (elim (Option-cases (c i)) [
          | inl e ↦ rw (e, collect) (collect-append (suc i) a b)
          | inr (x, e) ↦ rw (e, collect) (ap (◌∷◌ x) (collect-append (suc i) a b))
        ])

module _ {L : Type 0} (conc : String → List L) (rscs : List String)
    (answer : ℕ → LineRange → ConcResult L) (0<n : 0 < length rscs) (d : Distinct rscs)
    (answers : (m : ℕ) (rg : LineRange)
      → (answer m rg).lines ≡ take m (drop rg.from (conc rg.rsc))) where
  -- With at least one corpus, all of them different, and answers that hold the lines of the corpus from
  -- the start of the range on, as many as were asked for at most:
  -- a page of `a` visits and the page of `b` visits that begins where it ends are together the page
  -- of `a + b` visits: no line is lost between them and none is repeated.
  pub pages_tile :
      (o a b : ℕ)
      → page (answer (a + b)) rscs o (a + b)
        ≡ (do xs ← page (answer a) rscs o a; ys ← page (answer b) rscs (o + a) b; some (xs ++ ys))
  pages_tile o a b =
      rw (page-by_turns conc rscs o (a + b) (answer (a + b)) 0<n d (answers (a + b))) (
        rw (page-by_turns conc rscs o a (answer a) 0<n d (answers a)) (
          rw (page-by_turns conc rscs (o + a) b (answer b) 0<n d (answers b))
            (ap some (collect-append (by_turns conc rscs) o a b))))
