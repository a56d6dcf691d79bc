-- ===== src/Search/Paging/Turns.antt =====
-- A page holds the lines of its stretch of the order by turns.
use native.Mathlib.Nat.{mod-lt, div-add-mod', add-zero, zero-add, div-le_self}
use mquery_fcs.Prelude.{
  ℕ, zero, suc, ◌+◌, ◌*◌, ◌/◌, ◌%◌, ◌≤◌, ◌<◌, ◌≡◌, refl, ap, sym, ◌∙◌, inl, inr, Option-cases,
  String, Option, some, List, [], ◌∷◌, length, take, drop, get_elem?, get_elem?-some,
  get_elem?-take, get_elem?-drop, get_elem?-lt, arith,
}
use mquery_fcs.Prelude.Division.{div-mod_unique}
use mquery_fcs.Query.Ranges.{LineRange, calculate_partial_ranges, pid_list}
use mquery_fcs.Query.Ranges.Laws.{range_at, calculate_partial_ranges-range_at}
use mquery_fcs.Result.{ConcResult}
use mquery_fcs.Result.RoundRobin.Cells.{collect, cell, read_lines}
use mquery_fcs.Result.RoundRobin.{new_sel}
use mquery_fcs.Result.RoundRobin.Setup.{
  Distinct, names_of, filled_item, filled_items, merge_lem, set_all, set_all-new_sel, sel, merge,
}
use mquery_fcs.Search.Paging.{answered, page, by_turns}
use mquery_fcs.Search.Paging.Distinctness.{
  Distinct-IsInjective, IsInjective-Distinct, turn_injective,
}
use mquery_fcs.Search.Paging.Tables.{Tabulates, tabulate-Tabulates}

collect-cong {ℓ} :
    {A : Type ℓ} (c d : ℕ → Option A) (i k n : ℕ)
    → ((e : ℕ) → i ≤ e → e < i + n → c e ≡ d (k + e))
    → collect c i n ≡ collect d (k + i) n
unfolding collect
collect-cong c d i k zero h = refl
collect-cong c d i k (suc n) h =
    let q : k + suc i ≡ suc (k + i) = omega arith in
    let rest = collect-cong c d (suc i) k n (λ e l u. h e (omega arith) (omega arith)) in
    let now = h i (omega arith) (omega arith) in
    elim (Option-cases (d (k + i))) [
      | inl e ↦ rw (now ∙ e, collect) (rw (e, collect) (rw (← q) rest))
      | inr (a, e) ↦ rw (now ∙ e, collect) (rw (e, collect) (rw (← q) (ap (◌∷◌ a) rest)))
    ]

-- Corpus `(offset + k % n) % n`, whose part begins at line `(offset + k % n) / n`, shows at its line
-- `k / n` the line number `offset + k` by turns.
turn_of_visit :
    (o n k : ℕ) → 0 < n → ((o + k % n) % n ≡ (o + k) % n) × ((o + k % n) / n + k / n ≡ (o + k) / n)
turn_of_visit o n k h =
    let t = o + k % n in
    let e : o + k ≡ (t / n + k / n) * n + t % n =
      grind (arith, div-add-mod' k n, div-add-mod' t n) in
    let (d, r) = div-mod_unique (t / n + k / n) n (t % n) (mod-lt t h) in
    (sym (ap (λ x. x % n) e ∙ r), sym (ap (λ x. x / n) e ∙ d))

module _ {L : Type 0} (answer : LineRange → ConcResult L) where
  length-answered : (xs : List LineRange) → length (filled_items (answered answer xs)) ≡ length xs
  unfolding answered
  length-answered [] = refl
  length-answered (x ∷ xs) = ap suc (length-answered xs)

  get-answered :
      (xs : List LineRange) (i : ℕ) (rg : LineRange)
      → get_elem? xs i ≡ some rg
      → get_elem? (filled_items (answered answer xs)) i ≡ some (filled_item rg.rsc (answer rg))
  unfolding answered
  get-answered [] i rg h = cc
  get-answered (x ∷ xs) zero rg h = cc
  get-answered (x ∷ xs) (suc i) rg h = get-answered xs i rg h

  get-names :
      (xs : List LineRange) (i : ℕ) (s : String)
      → get_elem? (names_of (answered answer xs)) i ≡ some s
      → (rg : LineRange) × (get_elem? xs i ≡ some rg) × (rg.rsc ≡ s)
  unfolding answered
  get-names [] i s h = cc
  get-names (x ∷ xs) zero s h = (x, refl, cc)
  get-names (x ∷ xs) (suc i) s h = get-names xs i s h

module _ {L : Type 0} (conc : String → List L) (rscs : List String) (o m : ℕ)
    (answer : LineRange → ConcResult L) (0<n : 0 < length rscs) where
  range_some : (j : ℕ) → (rg : LineRange) × (range_at rscs o m j ≡ some rg)
  range_some j =
      let (rsc, e) = get_elem?-some rscs ((o + j) % length rscs) (mod-lt (o + j) 0<n) in
      (record { rsc = rsc; from = (o + j) / length rscs; to = (o + j) / length rscs + m }, rw e)

  ranges :
      (xs : List LineRange) × (calculate_partial_ranges rscs o m ≡ some xs)
      × Tabulates (range_at rscs o m) 0 (length rscs) xs
  ranges =
      let (xs, e, t) =
        tabulate-Tabulates (range_at rscs o m) 0 (length rscs) (λ j l u. range_some j) in
      (xs, calculate_partial_ranges-range_at rscs o m 0<n ∙ e, t)

  module _ (xs : List LineRange) (t : Tabulates (range_at rscs o m) 0 (length rscs) xs) where
    base-size : length (filled_items (answered answer xs)) ≡ length rscs
    base-size = length-answered answer xs ∙ t.size

    at_place : (j : ℕ) → j < length rscs → get_elem? xs j ≡ range_at rscs o m j
    at_place j l = t.at j l ∙ ap (range_at rscs o m) (zero-add j)

    name_of_place :
        (j : ℕ) (s : String)
        → get_elem? (names_of (answered answer xs)) j ≡ some s
        → (j < length rscs) × (get_elem? rscs ((o + j) % length rscs) ≡ some s)
    name_of_place j s h =
        let (rg, e, n) = get-names answer xs j s h in
        let l : j < length rscs = omega (arith, get_elem?-lt xs j e, t.size) in
        (l, rsc_of_range j rg s (sym (at_place j l) ∙ e) n)
      where
        rsc_of_range :
            (j : ℕ) (rg : LineRange) (s : String)
            → range_at rscs o m j ≡ some rg
            → rg.rsc ≡ s
            → get_elem? rscs ((o + j) % length rscs) ≡ some s
        rsc_of_range j rg s e n = ground arith

    answered-Distinct : Distinct rscs → Distinct (names_of (answered answer xs))
    answered-Distinct d = IsInjective-Distinct _ (λ i j s p q.
        let (li, ei) = name_of_place i s p in
        let (lj, ej) = name_of_place j s q in
        turn_injective o (length rscs) i j li lj (Distinct-IsInjective rscs d _ _ s ei ej))

    -- What visit number `k` of the page shows.
    cell-turn :
        ((rg : LineRange) → (answer rg).lines ≡ take m (drop rg.from (conc rg.rsc)))
        → (k : ℕ) → k < m
        → cell (filled_items (answered answer xs)) k ≡ by_turns conc rscs (o + k)
    unfolding cell by_turns
    cell-turn h k k<m =
        let n = length rscs in
        let i = k % n in
        let (rsc, e) = get_elem?-some rscs ((o + i) % n) (mod-lt (o + i) 0<n) in
        let (turn, row) = turn_of_visit o n k 0<n in
        let rg : LineRange = record { rsc = rsc; from = (o + i) / n; to = (o + i) / n + m } in
        let here : get_elem? xs i ≡ some rg = at_place i (mod-lt k 0<n) ∙ rw e in
        let line : get_elem? (answer rg).lines (k / n) ≡ get_elem? (conc rsc) ((o + k) / n) =
          rw (h rg) (
            get_elem?-take m (drop rg.from (conc rsc)) (k / n) (omega (arith, div-le_self k n))
            ∙ get_elem?-drop rg.from (conc rsc) (k / n)
            ∙ ap (get_elem? (conc rsc)) row) in
        rw base-size (rw (get-answered answer xs i rg here) (rw line (rw (← turn) (rw e))))

  -- With at least one corpus, all of them different, and answers that hold the lines of the corpus from
  -- the start of the range on, as many as were asked for at most:
  -- the page has the lines number `offset`, …, `offset + m - 1` of the order by turns, those that
  -- there are.
  pub page-by_turns :
      Distinct rscs
      → ((rg : LineRange) → (answer rg).lines ≡ take m (drop rg.from (conc rg.rsc)))
      → page answer rscs o m ≡ some (collect (by_turns conc rscs) o m)
  unfolding page
  page-by_turns d h =
      let (xs, e, t) = ranges in
      rw e (
        merge_lem (answered answer xs) m (answered-Distinct xs t d)
        ∙ ap some (
            collect-cong (cell (filled_items (answered answer xs))) (by_turns conc rscs) 0 o m
              (λ k l u. cell-turn xs t h k (omega arith))
            ∙ ap (λ j. collect (by_turns conc rscs) j m) (add-zero o)))

  names_of-answered : (xs : List LineRange) → names_of (answered answer xs) ≡ pid_list xs
  unfolding answered
  names_of-answered [] = refl
  names_of-answered (x ∷ xs) = ap (◌∷◌ x.rsc) (names_of-answered xs)

  -- The ranges of the page, the selector that holds their answers, and what is read from it.
  pub record Filled (xs : List LineRange) : Type 0 where
    pub ranges : calculate_partial_ranges rscs o m ≡ some xs
    pub size : 0 < length (filled_items (answered answer xs))
    pub filled :
        set_all (answered answer xs) (new_sel m (pid_list xs))
        ≡ some (sel m (filled_items (answered answer xs)))
    pub read :
        read_lines m (sel m (filled_items (answered answer xs)))
        ≡ some (collect (by_turns conc rscs) o m)

  pub page-Filled :
      Distinct rscs
      → ((rg : LineRange) → (answer rg).lines ≡ take m (drop rg.from (conc rg.rsc)))
      → (xs : List LineRange) × Filled xs
  unfolding page merge
  page-Filled d h =
      let (xs, e, t) = ranges in
      let rs = answered answer xs in
      let f : set_all rs (new_sel m (names_of rs)) ≡ some (sel m (filled_items rs)) =
        set_all-new_sel rs m (answered-Distinct xs t d) in
      (
        xs,
        record {
          ranges = e;
          size = rw (base-size xs t) 0<n;
          filled = rw (names_of-answered xs) at f;
          read = rw (e, f) at page-by_turns d h;
        },
      )
