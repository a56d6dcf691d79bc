-- ===== src/Handler/V20/Responses/Forms.antt =====
-- The forms that the responses to a search have.
use mquery_fcs.Handler.V20.Responses.{
  SrResponse, Step, panicked, answered, going, ◌>>=◌, unpanicked,
}
use mquery_fcs.Prelude.{if◌then◌else◌, Bool, true, false, Option, none, some, [], length, ◌≡◌, ◌⊎◌}

-- A response with the status 200 and without diagnostics, or one with a single diagnostic, without
-- records and with the status 200 or 500.
abbrev pub WellFormed : {L : Type 0} → SrResponse L → Type 0
WellFormed r =
    ((r.status ≡ 200) × (r.diagnostics ≡ []))
    ⊎ ((r.records ≡ []) × (length r.diagnostics ≡ 1) × ((r.status ≡ 200) ⊎ (r.status ≡ 500)))

-- A response in the making.
pub record Clean {L : Type 0} (r : SrResponse L) : Type 0 where
  pub diagnostics : r.diagnostics ≡ []
  pub records : r.records ≡ []

abbrev pub Any {ℓ} : {A : Type ℓ} → A → Type 0
Any a = Unit

module _ {L : Type 0} where
  -- The response of a step that ends is well-formed, and the value of one that goes on has the property.
  abbrev pub Holds {ℓ} : {A : Type ℓ} → (A → Type 0) → Step L A → Type 0
  Holds Q panicked = Unit
  Holds Q (answered r) = WellFormed r
  Holds Q (going a) = Q a

  pub bind-Holds {ℓ κ} :
      {A : Type ℓ} {B : Type κ} (Q : A → Type 0) (R : B → Type 0) (m : Step L A) (f : A → Step L B)
      → Holds Q m
      → ((a : A) → Q a → Holds R (f a))
      → Holds R (m >>= f)
  bind-Holds Q R panicked f h k = tt
  bind-Holds Q R (answered r) f h k = h
  bind-Holds Q R (going a) f h k = k a h

  pub if-Holds {ℓ} :
      {A : Type ℓ} (Q : A → Type 0) (c : Bool) (m n : Step L A)
      → Holds Q m
      → Holds Q n
      → Holds Q (if c then m else n)
  if-Holds Q true m n h k = h
  if-Holds Q false m n h k = k

pub unpanicked-Holds {ℓ} :
    (L : Type 0) {A : Type ℓ} (m : Option A) → Holds {L = L} Any (unpanicked m)
unpanicked-Holds L none = tt
unpanicked-Holds L (some a) = tt
