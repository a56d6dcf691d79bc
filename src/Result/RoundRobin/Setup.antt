-- ===== src/Result/RoundRobin/Setup.antt =====
-- Filling a new selector with one result for each resource, as the handlers do it, and reading it.
use native.Mathlib.Nat.{zero-mod}
use text.Mathlib.TextPositions.{eq_refl}
use mquery_fcs.Prelude.{
  ℕ, suc, ◌≡◌, refl, sym, ◌⊎◌, inl, inr, str_eq, String, false, Option, none, some, List, [], ◌∷◌,
  map, length, Bool-cases, Option-cases, arith, ◌>>=◌,
}
use mquery_fcs.Result.{ConcResult}
use mquery_fcs.Result.RoundRobin.{
  Item, RoundRobinLineSel, new_item, new_sel, any_started, put_lines, set_rsc_lines,
}
use mquery_fcs.Result.RoundRobin.Cells.{collect, cell, read_lines}
use mquery_fcs.Result.RoundRobin.Reading.{read_lines-state_at}
use mquery_fcs.Result.RoundRobin.Visits.{state_at, visits_to, marked}

-- The text does not stand in the list.
abbrev pub NotIn : String → List String → Type 0
NotIn s [] = Unit
NotIn s (t ∷ ts) = (str_eq t s ≡ false) × (str_eq s t ≡ false) × NotIn s ts

abbrev pub Distinct : List String → Type 0
Distinct [] = Unit
Distinct (t ∷ ts) = NotIn t ts × Distinct ts

pub none_started : (L : Type 0) (ns : List String) → any_started (map (new_item {L = L}) ns) ≡ false
unfolding any_started
none_started L [] = refl
none_started L (n ∷ ns) = none_started L ns

module _ {L : Type 0} where
  abbrev pub filled_item : String → ConcResult L → Item L
  filled_item n c = record { name = n; curr_line = 0; err = none; lines = c; started = false }

  -- The items of a selector that holds these results.
  abbrev pub filled_items : List (String × ConcResult L) → List (Item L)
  filled_items [] = []
  filled_items ((n, c) ∷ rs) = filled_item n c ∷ filled_items rs

  abbrev pub names_of : List (String × ConcResult L) → List String
  names_of [] = []
  names_of ((n, c) ∷ rs) = n ∷ names_of rs

  -- `SetRscLines` for each result in turn.
  unfoldable pub set_all :
      List (String × ConcResult L) → RoundRobinLineSel L → Option (RoundRobinLineSel L)
  set_all [] r = some r
  set_all ((n, c) ∷ rs) r = do r' ← set_rsc_lines n c r; set_all rs r'

  abbrev pub IsFresh : List (Item L) → Type 0
  IsFresh [] = Unit
  IsFresh (it ∷ its) = (it.started ≡ false) × (it.curr_line ≡ 0) × IsFresh its

  -- `NewRoundRobinLineSel` with other items.
  abbrev pub sel : ℕ → List (Item L) → RoundRobinLineSel L
  sel m its = record { items = its; curr_idx = 0; max_lines = m; next_output_line_idx = 0 }

  marked-IsFresh : (i : ℕ) (its : List (Item L)) → IsFresh its → marked (λ _. 0) i its ≡ its
  unfolding marked
  marked-IsFresh i [] f j = []
  marked-IsFresh i (it ∷ its) f j =
      record it { started = sym f.0 j; curr_line = sym f.1 j } ∷ marked-IsFresh (suc i) its f.2 j

  -- A selector that no `Next` has touched stands before the first visit.
  pub fresh-state_at : (its : List (Item L)) (m : ℕ) → IsFresh its → state_at its m 0 ≡ sel m its
  unfolding state_at visits_to
  fresh-state_at its m f i = record {
    items = marked-IsFresh 0 its f i;
    curr_idx = zero-mod (length its) i;
    max_lines = m;
    next_output_line_idx = 0;
  }

  filled-IsFresh : (rs : List (String × ConcResult L)) → IsFresh (filled_items rs)
  filled-IsFresh [] = tt
  filled-IsFresh ((n, c) ∷ rs) = (refl, refl, filled-IsFresh rs)

  put_lines-cons :
      (it : Item L) (n : String) (c : ConcResult L) (its : List (Item L))
      → str_eq it.name n ≡ false
      → put_lines n c (it ∷ its) ≡ (do rest ← put_lines n c its; some (it ∷ rest))
  unfolding put_lines
  put_lines-cons it n c its h = rw h

  -- An item with another name stays in front.
  set_rsc_lines-cons :
      (m : ℕ) (it : Item L) (n : String) (c : ConcResult L) (its : List (Item L))
      → it.started ≡ false
      → str_eq it.name n ≡ false
      → set_rsc_lines n c (sel m (it ∷ its))
        ≡ (do r ← set_rsc_lines n c (sel m its); some (record r { items = it ∷ r.items }))
  unfolding set_rsc_lines any_started
  set_rsc_lines-cons m it n c its s h = rw s (elim (Bool-cases (any_started its)) [
    | inl e ↦ rw e
    | inr e ↦
        rw e (rw h (elim (Option-cases (put_lines n c its)) [ inl o ↦ rw o | inr (x, o) ↦ rw o ]))
  ])

  set_rsc_lines_cases :
      (m : ℕ) (n : String) (c : ConcResult L) (its : List (Item L))
      → (set_rsc_lines n c (sel m its) ≡ none)
        ⊎ ((x : List (Item L)) × (set_rsc_lines n c (sel m its) ≡ some (sel m x)))
  unfolding set_rsc_lines
  set_rsc_lines_cases m n c its = elim (Bool-cases (any_started its)) [
    | inl e ↦ inl (rw e)
    | inr e ↦ elim (Option-cases (put_lines n c its)) [
      | inl o ↦ inl (rw (e, o))
      | inr (x, o) ↦ inr (x, rw (e, o))
    ]
  ]

  set_all-cons :
      (rs : List (String × ConcResult L)) (m : ℕ) (it : Item L) (its : List (Item L))
      → it.started ≡ false
      → NotIn it.name (names_of rs)
      → set_all rs (sel m (it ∷ its))
        ≡ (do r ← set_all rs (sel m its); some (record r { items = it ∷ r.items }))
  unfolding set_all
  set_all-cons [] m it its s h = refl
  set_all-cons ((n, c) ∷ rs) m it its s h =
      rw (set_rsc_lines-cons m it n c its s h.1) (elim (set_rsc_lines_cases m n c its) [
        | inl e ↦ rw e
        | inr (x, e) ↦ rw e (set_all-cons rs m it x s h.2)
      ])

  set_first :
      (m : ℕ) (n : String) (c : ConcResult L) (ns : List String)
      → set_rsc_lines n c (sel m (map new_item (n ∷ ns)))
        ≡ some (sel m (filled_item n c ∷ map new_item ns))
  unfolding set_rsc_lines
  set_first m n c ns = rw (none_started L (n ∷ ns)) (unfold put_lines in rw (eq_refl n))

  -- With distinct names every result ends at its resource, in the order of the resources.
  pub set_all-new_sel :
      (rs : List (String × ConcResult L)) (m : ℕ)
      → Distinct (names_of rs)
      → set_all rs (new_sel m (names_of rs)) ≡ some (sel m (filled_items rs))
  unfolding set_all new_sel
  set_all-new_sel [] m d = refl
  set_all-new_sel ((n, c) ∷ rs) m d = rw (set_first m n c (names_of rs)) (
      rw (set_all-cons rs m (filled_item n c) (map new_item (names_of rs)) refl d.0)
        (rw (set_all-new_sel rs m d.1)))

  -- The handlers' way from results to lines: a new selector, filled and read.
  unfoldable pub merge : ℕ → List (String × ConcResult L) → Option (List (String × L))
  merge m rs = do r ← set_all rs (new_sel m (names_of rs)); read_lines m r

  -- A new selector for resources of different names, filled with a result for each and read for up to
  -- `m` lines, does not panic. It gives what the visits 0 to `m - 1` show, where visit `k` shows line
  -- `k / n` of resource number `k % n` of the `n` resources, and nothing if there is no such line.
  pub merge_lem :
      (rs : List (String × ConcResult L)) (m : ℕ)
      → Distinct (names_of rs)
      → merge m rs ≡ some (collect (cell (filled_items rs)) 0 m)
  unfolding merge
  merge_lem rs m d = rw (set_all-new_sel rs m d) (
      rw (← fresh-state_at (filled_items rs) m (filled-IsFresh rs))
        (read_lines-state_at (filled_items rs) m m (omega arith)))
