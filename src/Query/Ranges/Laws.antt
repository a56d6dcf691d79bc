-- ===== src/Query/Ranges/Laws.antt =====
-- The ranges against the global numbering of the lines by turns.
use mathlib.Core.Option
use native.Mathlib.Nat.{mod-lt, div-add-mod', mod-eq_of_lt}
use mquery_fcs.Prelude.{
  ℕ, zero, suc, ◌+◌, ◌-◌, ◌*◌, ◌/◌, ◌%◌, ◌<◌, ◌≡◌, refl, ap, sym, ◌∙◌, inl, inr, ltb, ltb→lt,
  if◌then◌else◌, String, false, Option, none, some, List, [], ◌∷◌, map, length, get_elem?,
  get_elem?-map, Bool-cases, arith, ◌>>=◌, ◌==◌,
}
use mquery_fcs.Prelude.Division.{div-mod_unique}
use mquery_fcs.Query.Ranges.{LineRange, bump, tabulate, start_range, calculate_partial_ranges}

-- Line number `offset + j` of the page by turns: it is line `(offset + j) / n` of corpus number
-- `(offset + j) % n`, and the range begins with it.
abbrev pub range_at : List String → ℕ → ℕ → ℕ → Option LineRange
range_at rscs offset limit j = do
  rsc ← get_elem? rscs ((offset + j) % length rscs)
  some (record {
    rsc = rsc;
    from = (offset + j) / length rscs;
    to = (offset + j) / length rscs + limit;
  })

tabulate-cong {ℓ} :
    {A : Type ℓ} (f g : ℕ → Option A) (i k : ℕ)
    → ((j : ℕ) → j < i + k → f j ≡ g j)
    → tabulate f i k ≡ tabulate g i k
unfolding tabulate
tabulate-cong f g i zero h = refl
tabulate-cong f g i (suc k) h =
    rw (h i (omega arith)) (rw (tabulate-cong f g (suc i) k (λ j l. h j (omega arith))))

-- What the second loop makes of range `i` when it moves the first `k`.
bumped : ℕ → ℕ → LineRange → LineRange
bumped k i r = if ltb i k then record r { from = r.from + 1; to = r.to + 1 } else r

get_elem?-bump :
    (k : ℕ) (rs : List LineRange) (i : ℕ)
    → get_elem? (bump k rs) i ≡ Option.map (bumped k i) (get_elem? rs i)
unfolding bump bumped
get_elem?-bump zero [] i = refl
get_elem?-bump zero (r ∷ rs) zero = refl
get_elem?-bump zero (r ∷ rs) (suc i) =
    elim (get_elem? rs i) as (λ o. o ≡ Option.map (bumped 0 (suc i)) o) [
      | none ↦ refl
      | some x ↦ ground arith
    ]
get_elem?-bump (suc k) [] i = refl
get_elem?-bump (suc k) (r ∷ rs) zero = ground arith
get_elem?-bump (suc k) (r ∷ rs) (suc i) =
    rw (get_elem?-bump k rs i)
      (elim (get_elem? rs i)
        as (λ o. Option.map (bumped k i) o ≡ Option.map (bumped (suc k) (suc i)) o) [
          | none ↦ refl
          | some x ↦ ground arith
        ])

-- Turning the list by the remainder of the offset starts it at the offset.
turned :
    (o n i : ℕ)
    → i < n
    → ((i + o % n) % n ≡ (o + i) % n)
      × (o / n + (if ltb ((i + o % n) % n) (o % n) then 1 else 0) ≡ (o + i) / n)
turned o n i h = elim (Bool-cases (ltb (i + o % n) n)) [
  | inl l ↦
      let l' : i + o % n < n = ltb→lt (i + o % n) n l in
      let e : o + i ≡ o / n * n + (i + o % n) = omega (arith, div-add-mod' o n) in
      let (d, r) = div-mod_unique (o / n) n (i + o % n) l' in
      let s = mod-eq_of_lt l' in
      (s ∙ sym (ap (λ t. t % n) e ∙ r), ground (arith, s, ap (λ t. t / n) e, d))
  | inr l ↦
      let m = i + o % n - n in
      let below : m < n = ground (arith, mod-lt o {m = n}) in
      let e : o + i ≡ (o / n + 1) * n + m = ground (arith, div-add-mod' o n) in
      let f : i + o % n ≡ 1 * n + m = ground arith in
      let (d, r) = div-mod_unique (o / n + 1) n m below in
      let s = ap (λ t. t % n) f ∙ (div-mod_unique 1 n m below).1 in
      (s ∙ sym (ap (λ t. t % n) e ∙ r), ground (arith, s, ap (λ t. t / n) e, d, mod-lt o {m = n}))
]

not_empty : (n : ℕ) → 0 < n → (n == 0) ≡ false
not_empty n h = ground arith

same :
    (rscs : List String) (o limit j : ℕ)
    → j < length rscs
    → get_elem?
        (bump (o % length rscs) (map (start_range (o / length rscs) limit) rscs))
        ((j + o % length rscs) % length rscs)
      ≡ range_at rscs o limit j
unfolding bumped
same rscs o limit j l =
    let n = length rscs in
    let (turn, carry) = turned o n j l in
    let carry' = rw turn at carry in
    rw get_elem?-bump (
      rw get_elem?-map (
        rw turn
          (elim (get_elem? rscs ((o + j) % n))
            as (λ x.
              Option.map (bumped (o % n) ((o + j) % n)) (Option.map (start_range (o / n) limit) x)
              ≡ ◌>>=◌ {B = LineRange} x (λ rsc.
                some (record { rsc = rsc; from = (o + j) / n; to = (o + j) / n + limit }))) [
                  | none ↦ refl
                  | some rsc ↦ ground (arith, carry')
                ])))

-- With at least one corpus, corpus number j of the result is number (offset + j) % n of the n corpora,
-- and its range starts at line (offset + j) / n and has the length of the limit.
pub calculate_partial_ranges-range_at :
    (rscs : List String) (offset limit : ℕ)
    → 0 < length rscs
    → calculate_partial_ranges rscs offset limit
      ≡ tabulate (range_at rscs offset limit) 0 (length rscs)
unfolding calculate_partial_ranges
calculate_partial_ranges-range_at rscs offset limit h =
    rw (not_empty (length rscs) h)
      (tabulate-cong _ _ 0 (length rscs) (λ j l. same rscs offset limit j (omega arith)))
