-- ===== src/Result/RoundRobin/Cells.antt =====
-- What each visit of the selector has to show, and the reading loop that a handler runs over it.
use native.Mathlib.Numerals.{add-one}
use mquery_fcs.Prelude.Division.{add_divisor}
use mquery_fcs.Prelude.{
  ℕ, zero, suc, ◌+◌, ◌-◌, ◌/◌, ◌%◌, ◌≤◌, ◌<◌, ◌≡◌, refl, ap, sym, ◌∙◌, inl, inr, ltb, if◌then◌else◌,
  String, true, Option, none, some, List, [], ◌∷◌, length, get_elem?, get_elem?-none, Bool-cases,
  Option-cases, arith, ◌>>=◌,
}
use mquery_fcs.Result.RoundRobin.{
  Item, RoundRobinLineSel, curr_line, curr_rsc_name, all_empty, next,
}

-- The values among c k, c (k + 1), …, `n` of them.
unfoldable pub collect {ℓ} : {A : Type ℓ} → (ℕ → Option A) → ℕ → ℕ → List A
collect c k zero = []
collect c k (suc n) = elim (c k) [ none ↦ collect c (suc k) n | some a ↦ a ∷ collect c (suc k) n ]

module _ {ℓ} {A : Type ℓ} (c : ℕ → Option A) where
  pub collect-none : (k n : ℕ) → ((e : ℕ) → k ≤ e → e < k + n → c e ≡ none) → collect c k n ≡ []
  unfolding collect
  collect-none k zero h = refl
  collect-none k (suc n) h =
      rw (h k (omega arith) (omega arith), collect)
        (collect-none (suc k) n (λ e l u. h e (omega arith) (omega arith)))

  module _ (k m : ℕ) (k<m : k < m) where
    rest_length : m - k ≡ suc (m - suc k)
    rest_length = omega arith

    pub collect-skip : c k ≡ none → collect c k (m - k) ≡ collect c (suc k) (m - suc k)
    unfolding collect
    collect-skip h = rw rest_length (rw (h, collect))

    pub collect-take :
        (a : A) → c k ≡ some a → collect c k (m - k) ≡ a ∷ collect c (suc k) (m - suc k)
    unfolding collect
    collect-take a h = rw rest_length (rw (h, collect))

module _ {L : Type 0} where
  -- The reading loop: at most so many lines, each with the name of its resource.
  unfoldable pub read_lines : ℕ → RoundRobinLineSel L → Option (List (String × L))
  read_lines zero r = some []
  read_lines (suc left) r = elim (next r) [
    | none ↦ none
    | some (found, r') ↦
        let rest = read_lines left r' in
        if found
        then (do
          name ← curr_rsc_name r'
          pointer ← curr_line r'
          line ← pointer
          more ← rest
          some ((name, line) ∷ more))
        else some []
  ]

  -- Visit number `k` goes to resource `k % n` and asks for its line `k / n`.
  unfoldable pub cell : List (Item L) → ℕ → Option (String × L)
  cell base k = do
    b ← get_elem? base (k % length base)
    line ← get_elem? b.lines.lines (k / length base)
    some (b.name, line)

  no_line :
      (its : List (Item L)) (i : ℕ) (b : Item L) (j : ℕ)
      → all_empty its ≡ true
      → get_elem? its i ≡ some b
      → get_elem? b.lines.lines j ≡ none
  unfolding all_empty
  no_line [] i b j h e = cc
  no_line (x ∷ its) zero b j h e =
      let q : x ≡ b = cc in rw (← q) (get_elem?-none x.lines.lines j (ground arith))
  no_line (x ∷ its) (suc i) b j h e = no_line its i b j (ground arith) e

  pub cell-all_empty : (base : List (Item L)) (k : ℕ) → all_empty base ≡ true → cell base k ≡ none
  unfolding cell
  cell-all_empty base k h = elim (Option-cases (get_elem? base (k % length base))) [
    | inl e ↦ rw e
    | inr (b, e) ↦ rw e (rw (no_line base (k % length base) b (k / length base) h e))
  ]

  no_later_line : (xs : List L) (i : ℕ) → get_elem? xs i ≡ none → get_elem? xs (suc i) ≡ none
  no_later_line [] i h = refl
  no_later_line (x ∷ xs) zero h = cc
  no_later_line (x ∷ xs) (suc i) h = no_later_line xs i h

  not_shown :
      (xs : List L) (i : ℕ) (name : String)
      → ◌>>=◌ {B = String × L} (get_elem? xs i) (λ line. some (name, line)) ≡ none
      → get_elem? xs i ≡ none
  not_shown xs i name h = ground arith

  -- Once a resource has no line to show, it has none a round later.
  cell-later :
      (base : List (Item L)) (k : ℕ)
      → 0 < length base
      → cell base k ≡ none
      → cell base (k + length base) ≡ none
  unfolding cell
  cell-later base k 0<n h =
      let n = length base in
      let (d, r) = add_divisor k n 0<n in
      rw (d, r, add-one)
        (elim (Option-cases (get_elem? base (k % n))) [
          | inl e ↦ rw e
          | inr (b, e) ↦ rw e (
              rw (
                no_later_line b.lines.lines (k / n)
                  (not_shown b.lines.lines (k / n) b.name (rw e at h))))
        ])

  -- A round with nothing to show is followed by nothing.
  pub quiet_round :
      (base : List (Item L)) (k : ℕ)
      → 0 < length base
      → ((e : ℕ) → k ≤ e → e < k + length base → cell base e ≡ none)
      → (f e : ℕ) → e < f
      → k ≤ e
      → cell base e ≡ none
  quiet_round base k 0<n h zero e l u = absurd (omega arith)
  quiet_round base k 0<n h (suc f) e l u = elim (Bool-cases (ltb e (k + length base))) [
    | inl within ↦ h e u (ground arith)
    | inr beyond ↦
        let n = length base in
        let earlier : e - n + n ≡ e = ground arith in
        ap (cell base) (sym earlier)
        ∙ cell-later base (e - n) 0<n
            (quiet_round base k 0<n h f (e - n) (omega arith) (ground arith))
  ]
