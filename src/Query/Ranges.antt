-- ===== src/Query/Ranges.antt =====
-- query/rngcalc.go: the part of a page that each corpus is asked for.
-- Numbers are the non-negative `int`s that the handlers pass, with no bound.
pub mod Laws
use mquery_fcs.Prelude.{
  ℕ, zero, suc, ◌+◌, ◌/◌, ◌%◌, ◌==◌, if◌then◌else◌, String, Option, none, some, List, [], ◌∷◌, map,
  length, get_elem?, ◌>>=◌,
}

pub record LineRange : Type 0 where
  pub rsc : String
  pub from : ℕ
  pub to : ℕ

-- `Resources` and `PIDList`, which are the same function.
abbrev pub resources : List LineRange → List String
resources [] = []
resources (v ∷ vs) = v.rsc ∷ resources vs

abbrev pub pid_list : List LineRange → List String
pid_list [] = []
pid_list (v ∷ vs) = v.rsc ∷ pid_list vs

-- The loop that moves the first ranges by one; there are at least so many of them.
unfoldable pub bump : ℕ → List LineRange → List LineRange
bump zero rs = rs
bump (suc k) [] = []
bump (suc k) (r ∷ rs) = record r { from = r.from + 1; to = r.to + 1 } ∷ bump k rs

-- The list of f i, f (i + 1), …, `k` of them; `none` if one of them panics.
unfoldable pub tabulate {ℓ} : {A : Type ℓ} → (ℕ → Option A) → ℕ → ℕ → Option (List A)
tabulate f i zero = some []
tabulate f i (suc k) = do x ← f i; rest ← tabulate f (suc i) k; some (x ∷ rest)

-- The range that the first loop gives to each resource.
abbrev pub start_range : ℕ → ℕ → String → LineRange
start_range start limit rsc = record { rsc = rsc; from = start; to = start + limit }

-- `CalculatePartialRanges`; `none` is the division by zero of an empty resource list.
unfoldable pub calculate_partial_ranges : List String → ℕ → ℕ → Option (List LineRange)
unfolding bump tabulate
calculate_partial_ranges rsc_list offset limit =
    let num_rsc = length rsc_list in
    let common_start = offset / num_rsc in
    let remaind = offset % num_rsc in
    let ans = bump remaind (map (start_range common_start limit) rsc_list) in
    if num_rsc == 0 then none else tabulate (λ i. get_elem? ans ((i + remaind) % num_rsc)) 0 num_rsc
