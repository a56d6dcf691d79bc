-- ===== src/Result/RoundRobin/Reading.antt =====
-- The reading loop delivers the visits that have a line, in order.
use native.Mathlib.Nat.{zero-div, mod-lt}
use mathlib.Core.Path.{subst}
use mquery_fcs.Prelude.{
  ℕ, zero, suc, ◌+◌, ◌-◌, ◌/◌, ◌%◌, ◌≤◌, ◌<◌, ◌≡◌, refl, ap, sym, ◌∙◌, ◌⊎◌, inl, inr, ltb, leb,
  if◌then◌else◌, String, true, false, ◌||◌, ◌==◌, some, List, [], ◌∷◌, length, get_elem?, set,
  get_elem?-some, Bool-cases, Option-cases, arith, le→leb, lt→not-leb,
}
use mquery_fcs.Result.RoundRobin.{
  Item, RoundRobinLineSel, curr_line, curr_rsc_name, all_empty, next_from, next, advance,
}
use mquery_fcs.Result.RoundRobin.Cells.{
  collect, collect-none, collect-take, cell, cell-all_empty, read_lines,
}
use mquery_fcs.Result.RoundRobin.Rounds.{
  Outcome, Outcome-skip, collect_end, cell-shown, cell-hidden, advance-Outcome,
}
use mquery_fcs.Result.RoundRobin.Visits.{
  state_at, visited, marked, length-marked, item_now, items_next, current_next,
}

module _ {L : Type 0} where
  same_lines : (c : ℕ) (it : Item L) → (visited c it).lines ≡ it.lines
  same_lines zero it = refl
  same_lines (suc c) it = refl

  all_empty-marked :
      (c : ℕ → ℕ) (i : ℕ) (its : List (Item L)) → all_empty (marked c i its) ≡ all_empty its
  unfolding marked all_empty
  all_empty-marked c i [] = refl
  all_empty-marked c i (it ∷ its) = rw (same_lines (c i) it) (
      ap (λ b. if ltb 0 (length it.lines.lines) then false else b) (all_empty-marked c (suc i) its))

  next_full :
      (r : RoundRobinLineSel L)
      → r.max_lines ≤ r.next_output_line_idx
      → next r ≡ some (false, record r { next_output_line_idx = r.next_output_line_idx + 1 })
  unfolding next
  next_full r h = rw (le→leb r.max_lines r.next_output_line_idx h)

  next_empty :
      (r : RoundRobinLineSel L)
      → r.next_output_line_idx < r.max_lines
      → (length r.items == 0 || all_empty r.items) ≡ true
      → next r ≡ some (false, r)
  unfolding next
  next_empty r h e = rw (lt→not-leb r.max_lines r.next_output_line_idx h, e)

  next_item :
      (r : RoundRobinLineSel L) (it : Item L)
      → r.next_output_line_idx < r.max_lines
      → (length r.items == 0 || all_empty r.items) ≡ false
      → get_elem? r.items r.curr_idx ≡ some it
      → next r ≡ next_from it r
  unfolding next
  next_item r it h e g = rw (lt→not-leb r.max_lines r.next_output_line_idx h, e, g)

  no_items : (its : List (Item L)) → (length its == 0 || all_empty its) ≡ all_empty its
  unfolding all_empty
  no_items [] = refl
  no_items (it ∷ its) = ground arith

  curr_line_at :
      (r : RoundRobinLineSel L) (it : Item L)
      → r.next_output_line_idx ≤ r.max_lines
      → get_elem? r.items r.curr_idx ≡ some it
      → curr_line r ≡ some (get_elem? it.lines.lines it.curr_line)
  unfolding curr_line
  curr_line_at r it h g = rw (lt→not-leb (r.max_lines + 1) r.next_output_line_idx (omega arith), g)

  next_from_started :
      (it : Item L) (r : RoundRobinLineSel L)
      → it.started ≡ true
      → next_from it r ≡ advance (length r.items) r
  unfolding next_from
  next_from_started it r h = rw h

  next_from_fresh :
      (it : Item L) (r begun : RoundRobinLineSel L)
      → it.started ≡ false
      → record r {
        next_output_line_idx = r.next_output_line_idx + 1;
        items = set r.items r.curr_idx (record it { started = true });
      }
        ≡ begun
      → next_from it r ≡ (
          if ltb 0 (length it.lines.lines)
          then some (true, begun)
          else advance (length r.items) begun)
  unfolding next_from
  next_from_fresh it r begun h e = rw (h, e)

  filled : (its : List (Item L)) → all_empty its ≡ false → 0 < length its
  unfolding all_empty
  filled [] h = cc
  filled (it ∷ its) h = omega arith

  some-length :
      (its : List (Item L)) (i : ℕ) (b : Item L) → get_elem? its i ≡ some b → 0 < length its
  some-length [] i b h = cc
  some-length (x ∷ its) i b h = omega arith

  -- A cell with a line has a resource.
  cell_cases :
      (base : List (Item L)) (k : ℕ) (x : String × L)
      → cell base k ≡ some x
      → (b : Item L) × (get_elem? base (k % length base) ≡ some b)
        × (get_elem? b.lines.lines (k / length base) ≡ some x.1)
        × (b.name ≡ x.0)
  unfolding cell
  cell_cases base k x h = elim (Option-cases (get_elem? base (k % length base))) [
    | inl e ↦ let h' = rw e at h in cc
    | inr (b, e) ↦ let h' = rw e at h in (b, e, ground arith, ground arith)
  ]

module _ {L : Type 0} (base : List (Item L)) (m : ℕ) (0<n : 0 < length base) where
  items_length : (k : ℕ) → length (state_at base m k).items ≡ length base
  unfolding state_at
  items_length k = length-marked _ 0 base

  module _ (b : Item L) (here : get_elem? base (0 % length base) ≡ some b) where
    begin : RoundRobinLineSel L
    begin = record (state_at base m 0) {
      next_output_line_idx = (state_at base m 0).next_output_line_idx + 1;
      items =
          set (state_at base m 0).items (state_at base m 0).curr_idx
            (record (visited 0 b) { started = true });
    }

    -- The first call of `Next` begins with the visit of the first resource.
    begin-state_at : begin ≡ state_at base m 1
    unfolding begin state_at
    begin-state_at i = record {
      items =
          (ap (λ c. set (state_at base m 0).items (0 % length base) (visited (suc c) b))
                (sym (zero-div (length base)))
              ∙ items_next base m 0 0<n b here)
            i;
      curr_idx = (0 - 1) % length base;
      max_lines = m;
      next_output_line_idx = 1;
    }

    first_item :
        get_elem? (state_at base m 0).items (state_at base m 0).curr_idx ≡ some (visited 0 b)
    unfolding state_at
    first_item =
        item_now base m 0 0<n b here ∙ ap (λ c. some (visited c b)) (zero-div (length base))

    next_from_first : next_from (visited 0 b) (state_at base m 0) ≡ (
        if ltb 0 (length b.lines.lines)
        then some (true, state_at base m 1)
        else advance (length base) (state_at base m 1))
    unfolding begin
    next_from_first =
        next_from_fresh (visited 0 b) (state_at base m 0) (state_at base m 1) refl begin-state_at
        ∙ rw items_length

    zeroth : {A : Type 0} (f : ℕ → A) → f (0 / length base) ≡ f 0
    zeroth f = ap f (zero-div (length base))

    from_first : 0 < m → Outcome base m 0 (next_from (visited 0 b) (state_at base m 0))
    from_first 0<m = elim (Bool-cases (ltb 0 (length b.lines.lines))) [
      | inl h ↦
          let (x, e) =
            cell-shown base m 0<n 0 0<m b here (zeroth (λ c. ltb c (length b.lines.lines)) ∙ h) in
          inl (record {
            visit = 0;
            line = x;
            after = omega arith;
            within = 0<m;
            returns = next_from_first ∙ rw h;
            shows = e;
            splits = collect-take (cell base) 0 m 0<m x e;
          })
      | inr h ↦
          Outcome-skip base m 0 0<m
            (cell-hidden base m 0<n 0 0<m b here (zeroth (λ c. ltb c (length b.lines.lines)) ∙ h))
            (next_from_first ∙ rw h)
            (advance-Outcome base m 0<n 1 (length base) 1 (omega arith) (omega arith) refl
              (λ e l u. absurd (omega arith)))
    ]

  -- Behind the guards, `Next` shows the first line from visit `k` on.
  next_from-Outcome :
      (k : ℕ)
      → k < m
      → (it : Item L) × (get_elem? (state_at base m k).items (state_at base m k).curr_idx ≡ some it)
        × Outcome base m k (next_from it (state_at base m k))
  next_from-Outcome zero k<m =
      let (b, here) = get_elem?-some base (0 % length base) (mod-lt 0 0<n) in
      (visited 0 b, first_item b here, from_first b here k<m)
  next_from-Outcome (suc k) k<m =
      let (b, here) = get_elem?-some base (k % length base) (mod-lt k 0<n) in
      let it = visited (suc (k / length base)) b in
      let r = state_at base m (suc k) in
      (
        it,
        current_next base m k 0<n b here,
        subst (Outcome base m (suc k))
            (sym (next_from_started it r refl ∙ ap (λ n. advance n r) (items_length (suc k))))
            (advance-Outcome base m 0<n (suc k) (length base) (suc k) (omega arith) (omega arith)
              refl (λ e l u. absurd (omega arith))),
      )

module _ {L : Type 0} (base : List (Item L)) (m : ℕ) where
  next-Outcome : (k : ℕ) → Outcome base m k (next (state_at base m k))
  next-Outcome k = elim (Bool-cases (leb m k)) [
    | inl full ↦ inr (record {
      last = record (state_at base m k) {
        next_output_line_idx = (state_at base m k).next_output_line_idx + 1;
      };
      returns = next_full (state_at base m k) (unfold state_at in ground arith);
      nothing = collect_end (cell base) k m (ground arith);
    })
    | inr more ↦ behind_bound k (ground arith) (Bool-cases (all_empty base))
  ]
    where
      guard :
          (k : ℕ)
          → (length (state_at base m k).items == 0 || all_empty (state_at base m k).items)
            ≡ all_empty base
      guard k = no_items _ ∙ (unfold state_at in all_empty-marked _ 0 base)

      behind_bound :
          (k : ℕ)
          → k < m
          → (all_empty base ≡ true) ⊎ (all_empty base ≡ false)
          → Outcome base m k (next (state_at base m k))
      behind_bound k k<m (inl e) = inr (record {
        last = state_at base m k;
        returns = next_empty (state_at base m k) (unfold state_at in k<m) (guard k ∙ e);
        nothing = collect-none (cell base) k (m - k) (λ x l u. cell-all_empty base x e);
      })
      behind_bound k k<m (inr e) =
          let (it, here, o) = next_from-Outcome base m (filled base e) k k<m in
          subst (Outcome base m k)
            (sym (next_item (state_at base m k) it (unfold state_at in k<m) (guard k ∙ e) here)) o

  -- What `CurrRscName` and `CurrLine` give after a visit that has a line.
  curr-shown :
      (k : ℕ) (x : String × L)
      → k < m
      → cell base k ≡ some x
      → (curr_rsc_name (state_at base m (suc k)) ≡ some x.0)
        × (curr_line (state_at base m (suc k)) ≡ some (some x.1))
  unfolding curr_rsc_name curr_line
  curr-shown k x k<m h =
      let (b, here, line, name) = cell_cases base k x h in
      let now = current_next base m k (some-length base (k % length base) b here) b here in
      (
        rw now (ap some name),
        curr_line_at (state_at base m (suc k)) _ (unfold state_at in k<m) now ∙ ap some line,
      )

  -- With at least so many lines allowed as visits are left, the loop delivers all that they show.
  read_lines-from :
      (left k : ℕ)
      → m - k ≤ left
      → read_lines left (state_at base m k) ≡ some (collect (cell base) k (m - k))
  unfolding read_lines
  read_lines-from zero k h = ap some (sym (collect_end (cell base) k m (omega arith)))
  read_lines-from (suc left) k h = elim (next-Outcome k) [
    | inl f ↦
        let (name, line) = curr-shown f.visit f.line f.within f.shows in
        rw (f.returns, read_lines)
          (rw name (
            rw line
              (rw (read_lines-from left (suc f.visit) (omega (arith, f.after))) (rw f.splits))))
    | inr f ↦ rw (f.returns, read_lines) (ap some (sym f.nothing))
  ]

  -- From the beginning.
  pub read_lines-state_at :
      (left : ℕ) → m ≤ left → read_lines left (state_at base m 0) ≡ some (collect (cell base) 0 m)
  read_lines-state_at left h =
      let all : m - 0 ≡ m = omega arith in
      read_lines-from left 0 (omega arith) ∙ ap (λ j. some (collect (cell base) 0 j)) all
