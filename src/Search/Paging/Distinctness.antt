-- ===== src/Search/Paging/Distinctness.antt =====
-- Resource names that are distinct stay so when the list is turned.
use native.Mathlib.Nat.{div-add-mod'}
use mquery_fcs.Prelude.{
  ℕ, zero, suc, ◌+◌, ◌%◌, ◌<◌, ◌≡◌, ◌≢◌, refl, ap, String, some, List, [], ◌∷◌, get_elem?, arith,
  eq_iff,
}
use mquery_fcs.Result.RoundRobin.Setup.{NotIn, Distinct}

abbrev pub IsInjective : List String → Type 0
IsInjective xs = (i j : ℕ) (s : String) → get_elem? xs i ≡ some s → get_elem? xs j ≡ some s → i ≡ j

NotIn-get : (s : String) (xs : List String) (i : ℕ) → NotIn s xs → get_elem? xs i ≢ some s
NotIn-get s [] i h e = cc
NotIn-get s (x ∷ xs) zero h e = ground (arith, eq_iff x s)
NotIn-get s (x ∷ xs) (suc i) h e = NotIn-get s xs i h.2 e

pub Distinct-IsInjective : (xs : List String) → Distinct xs → IsInjective xs
Distinct-IsInjective [] d i j s p q = cc
Distinct-IsInjective (x ∷ xs) d zero zero s p q = refl
Distinct-IsInjective (x ∷ xs) d zero (suc j) s p q = absurd (NotIn-get x xs j d.0 (ground arith))
Distinct-IsInjective (x ∷ xs) d (suc i) zero s p q = absurd (NotIn-get x xs i d.0 (ground arith))
Distinct-IsInjective (x ∷ xs) d (suc i) (suc j) s p q =
    ap suc (Distinct-IsInjective xs d.1 i j s p q)

get-NotIn : (s : String) (xs : List String) → ((i : ℕ) → get_elem? xs i ≢ some s) → NotIn s xs
get-NotIn s [] h = tt
get-NotIn s (x ∷ xs) h = (
  ground (arith, eq_iff x s, h 0),
  ground (arith, eq_iff s x, h 0),
  get-NotIn s xs (λ i. h (suc i)),
)

pub IsInjective-Distinct : (xs : List String) → IsInjective xs → Distinct xs
IsInjective-Distinct [] h = tt
IsInjective-Distinct (x ∷ xs) h = (
  get-NotIn x xs (λ i e. ground (arith, h 0 (suc i) x refl e)),
  IsInjective-Distinct xs (λ i j s p q. ground (arith, h (suc i) (suc j) s p q)),
)

-- Different places of a turned list are different places of the list.
pub turn_injective : (o n i j : ℕ) → i < n → j < n → (o + i) % n ≡ (o + j) % n → i ≡ j
turn_injective o n i j hi hj e =
    let a = div-add-mod' (o + i) n in let b = div-add-mod' (o + j) n in grind arith
