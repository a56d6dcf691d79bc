-- ===== src/Search/Paging/Tables.antt =====
-- Reading a table that was filled place by place.
use native.Mathlib.Nat.{add-zero}
use mquery_fcs.Prelude.{
  ℕ, zero, suc, ◌+◌, ◌≤◌, ◌<◌, ◌≡◌, refl, ap, sym, ◌∙◌, Option, some, List, [], ◌∷◌, length,
  get_elem?, arith,
}
use mquery_fcs.Query.Ranges.{tabulate}

-- The table `xs` holds f i, f (i + 1), …, `k` of them.
pub record Tabulates {ℓ} {A : Type ℓ} (f : ℕ → Option A) (i k : ℕ) (xs : List A) : Type ℓ where
  pub size : length xs ≡ k
  pub at : (j : ℕ) → j < k → get_elem? xs j ≡ f (i + j)

at_cons {ℓ} :
    {A : Type ℓ} (f : ℕ → Option A) (i k : ℕ) (x : A) (xs : List A)
    → f i ≡ some x
    → Tabulates f (suc i) k xs
    → (j : ℕ) → j < suc k
    → get_elem? (x ∷ xs) j ≡ f (i + j)
at_cons f i k x xs e t zero l = rw add-zero (sym e)
at_cons f i k x xs e t (suc j) l =
    let q : suc i + j ≡ i + suc j = omega arith in t.at j (omega arith) ∙ ap f q

pub tabulate-Tabulates {ℓ} :
    {A : Type ℓ} (f : ℕ → Option A) (i k : ℕ)
    → ((j : ℕ) → i ≤ j → j < i + k → (x : A) × (f j ≡ some x))
    → (xs : List A) × (tabulate f i k ≡ some xs) × Tabulates f i k xs
unfolding tabulate
tabulate-Tabulates f i zero h = ([], refl, record { size = refl; at = λ j l. absurd (omega arith) })
tabulate-Tabulates f i (suc k) h =
    let (x, e) = h i (omega arith) (omega arith) in
    let (xs, r, t) = tabulate-Tabulates f (suc i) k (λ j l u. h j (omega arith) (omega arith)) in
    (x ∷ xs, rw e (rw r), record { size = ap suc t.size; at = at_cons f i k x xs e t })
