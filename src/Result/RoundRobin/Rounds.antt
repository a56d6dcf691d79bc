-- ===== src/Result/RoundRobin/Rounds.antt =====
-- One call of `Next` runs through the visits up to the first that has a line to show.
use native.Mathlib.Nat.{mod-lt}
use mquery_fcs.Prelude.{
  ℕ, zero, suc, ◌+◌, ◌-◌, ◌/◌, ◌%◌, ◌≤◌, ◌<◌, ◌≡◌, refl, ap, ◌∙◌, ◌⊎◌, inl, inr, ltb, if◌then◌else◌,
  String, Bool, true, false, Option, none, some, List, [], ◌∷◌, length, get_elem?, get_elem?-none,
  get_elem?-some, Bool-cases, arith, ltb→lt, lt→ltb,
}
use mquery_fcs.Result.RoundRobin.{Item, RoundRobinLineSel, advance}
use mquery_fcs.Result.RoundRobin.Cells.{
  collect, collect-none, collect-skip, collect-take, cell, quiet_round,
}
use mquery_fcs.Result.RoundRobin.Visits.{
  state_at, visited, visit_item-visited, advance_step, item_now, index_next, arrive_next,
}

-- Behind the last visit nothing is left.
pub collect_end : {A : Type 0} (c : ℕ → Option A) (k m : ℕ) → m ≤ k → collect c k (m - k) ≡ []
collect_end c k m h = collect-none c k (m - k) (λ e l u. absurd (omega arith))

module _ {L : Type 0} where
  abbrev passed : RoundRobinLineSel L → RoundRobinLineSel L
  passed r = record r { next_output_line_idx = r.next_output_line_idx + 1 }

  advance_full :
      (j : ℕ) (r : RoundRobinLineSel L)
      → r.max_lines ≤ r.next_output_line_idx
      → advance (suc j) r ≡ some (false, passed r)
  unfolding advance
  advance_full j r h = rw (lt→ltb r.max_lines (r.next_output_line_idx + 1) (omega arith), advance)

module _ {L : Type 0} (base : List (Item L)) (m : ℕ) where
  -- The call stopped at visit `j`, the first from `k` on that has a line.
  pub record Found (k : ℕ) (res : Option (Bool × RoundRobinLineSel L)) : Type 0 where
    pub visit : ℕ
    pub line : String × L
    pub after : k ≤ visit
    pub within : visit < m
    pub returns : res ≡ some (true, state_at base m (suc visit))
    pub shows : cell base visit ≡ some line
    pub splits :
        collect (cell base) k (m - k) ≡ line ∷ collect (cell base) (suc visit) (m - suc visit)

  -- No visit from `k` on has a line.
  pub record Ended (k : ℕ) (res : Option (Bool × RoundRobinLineSel L)) : Type 0 where
    pub last : RoundRobinLineSel L
    pub returns : res ≡ some (false, last)
    pub nothing : collect (cell base) k (m - k) ≡ []

  abbrev pub Outcome : ℕ → Option (Bool × RoundRobinLineSel L) → Type 0
  Outcome k res = Found k res ⊎ Ended k res

  pub Outcome-skip :
      (k : ℕ) {res later : Option (Bool × RoundRobinLineSel L)}
      → k < m
      → cell base k ≡ none
      → res ≡ later
      → Outcome (suc k) later
      → Outcome k res
  Outcome-skip k k<m hidden e (inl f) = inl (record {
    visit = f.visit;
    line = f.line;
    after = omega arith;
    within = f.within;
    returns = e ∙ f.returns;
    shows = f.shows;
    splits = collect-skip (cell base) k m k<m hidden ∙ f.splits;
  })
  Outcome-skip k k<m hidden e (inr f) = inr (record {
    last = f.last;
    returns = e ∙ f.returns;
    nothing = collect-skip (cell base) k m k<m hidden ∙ f.nothing;
  })

module _ {L : Type 0} (base : List (Item L)) (m : ℕ) (0<n : 0 < length base) where
  module _ (k : ℕ) (k<m : k < m) (b : Item L)
      (here : get_elem? base (k % length base) ≡ some b) where
    visit_now :
        (j : ℕ)
        → 0 < k
        → advance (suc j) (state_at base m k) ≡ (
            if ltb (k / length base) (length b.lines.lines)
            then some (true, state_at base m (suc k))
            else advance j (state_at base m (suc k)))
    visit_now j 0<k =
        let now = visited (k / length base) b in
        let at : get_elem? (state_at base m k).items
              (((state_at base m k).curr_idx + 1) % length (state_at base m k).items)
            ≡ some now =
          ap (get_elem? (state_at base m k).items) (index_next base m k 0<n b here 0<k)
          ∙ item_now base m k 0<n b here in
        advance_step j (state_at base m k) now at (unfold state_at in k<m)
        ∙ rw ((visit_item-visited (k / length base) b).1, arrive_next base m k 0<n b here 0<k)

    pub cell-shown :
        ltb (k / length base) (length b.lines.lines) ≡ true
        → (x : String × L) × (cell base k ≡ some x)
    unfolding cell
    cell-shown h =
        let (line, e) = get_elem?-some b.lines.lines (k / length base) (ltb→lt _ _ h) in
        ((b.name, line), rw here (rw e))

    pub cell-hidden : ltb (k / length base) (length b.lines.lines) ≡ false → cell base k ≡ none
    unfolding cell
    cell-hidden h = rw here (rw (get_elem?-none b.lines.lines (k / length base) (ground arith)))

  -- The rest of a round that began at visit `start` with nothing shown since.
  pub advance-Outcome :
      (start j k : ℕ)
      → 0 < k
      → k ≤ m
      → k + j ≡ start + length base
      → ((e : ℕ) → start ≤ e → e < k → cell base e ≡ none)
      → Outcome base m k (advance j (state_at base m k))
  unfolding advance
  advance-Outcome start zero k 0<k k≤m round quiet = inr (record {
    last = state_at base m k;
    returns = refl;
    nothing = collect-none (cell base) k (m - k) (λ e l u.
        quiet_round base start 0<n (λ x a b. quiet x a (omega arith)) (suc e) e (omega arith)
          (omega arith));
  })
  advance-Outcome start (suc j) k 0<k k≤m round quiet = elim (Bool-cases (ltb k m)) [
    | inl more ↦
        let k<m = ltb→lt k m more in
        let (b, here) = get_elem?-some base (k % length base) (mod-lt k 0<n) in
        elim (Bool-cases (ltb (k / length base) (length b.lines.lines))) [
          | inl h ↦
              let (x, e) = cell-shown k k<m b here h in
              inl (record {
                visit = k;
                line = x;
                after = omega arith;
                within = k<m;
                returns = visit_now k k<m b here j 0<k ∙ rw h;
                shows = e;
                splits = collect-take (cell base) k m k<m x e;
              })
          | inr h ↦
              Outcome-skip base m k k<m (cell-hidden k k<m b here h)
                (visit_now k k<m b here j 0<k ∙ rw h)
                (advance-Outcome start j (suc k) (omega arith) (omega arith) (omega arith)
                  (λ e l u. quiet_until k e quiet (cell-hidden k k<m b here h) l u))
        ]
    | inr full ↦ inr (record {
      last = passed (state_at base m k);
      returns = advance_full j (state_at base m k) (unfold state_at in ground arith);
      nothing = collect_end (cell base) k m (ground arith);
    })
  ]
    where
      quiet_until :
          (k e : ℕ)
          → ((x : ℕ) → start ≤ x → x < k → cell base x ≡ none)
          → cell base k ≡ none
          → start ≤ e
          → e < suc k
          → cell base e ≡ none
      quiet_until k e quiet now l u = elim (Bool-cases (ltb e k)) [
        | inl h ↦ quiet e l (ltb→lt e k h)
        | inr h ↦ let q : e ≡ k = ground arith in rw q now
      ]
