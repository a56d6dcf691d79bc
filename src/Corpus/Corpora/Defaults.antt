-- ===== src/Corpus/Corpora/Defaults.antt =====
-- What the configuration of the corpora is like after its check.
use mquery_fcs.Corpus.Setup.{CorpusSetup, Checked, ok, err, validate, with_view_context}
use mquery_fcs.Corpus.Setup.Validity.{IsValid, validate-IsValid}
use mquery_fcs.Corpus.Corpora.{
  CorporaConf, ConfError, DirTest, Configured, valid, invalid, ◌>>=◌, of_resource,
  validate_resources, check_registry, check_maximum, check_context, validate_and_defaults,
}
use mquery_fcs.Prelude.{
  ◌≤◌, ◌<◌, ◌==◌, String, true, false, not, ◌&&◌, ltb, List, [], ◌∷◌, map, ◌≡◌, ◌≢◌, refl, ap, sym,
  ◌∙◌, ◌⊎◌, inl, inr, Bool-cases, arith,
}
use mquery_fcs.Prelude.Integers.{Integer}

pub valid-injective {ℓ} : {A : Type ℓ} {a b : A} → valid a ≡ valid b → b ≡ a
valid-injective h = cc

pub invalid≢valid {ℓ} :
    {A : Type ℓ} (e : ConfError) (a : A) → ◌≢◌ {A = Configured A} (invalid e) (valid a)
invalid≢valid e a h = cc

pub valid-bind {ℓ κ} :
    {A : Type ℓ} {B : Type κ} (m : Configured A) (f : A → Configured B) (b : B)
    → (m >>= f) ≡ valid b
    → (a : A) × (m ≡ valid a) × (f a ≡ valid b)
valid-bind (valid a) f b h = (a, refl, h)
valid-bind (invalid e) f b h = absurd (invalid≢valid e b h)

abbrev pub AllValid : List CorpusSetup → Type 0
AllValid [] = Unit
AllValid (c ∷ cs) = IsValid c × AllValid cs

pub of_resource-ok :
    (r : Checked CorpusSetup) (d : CorpusSetup) → of_resource r ≡ valid d → r ≡ ok d
of_resource-ok (ok c) d h = ap ok (sym (valid-injective h))
of_resource-ok (err e) d h = absurd (invalid≢valid _ d h)

validate_resources-AllValid :
    (cs ds : List CorpusSetup)
    → validate_resources cs ≡ valid ds
    → AllValid cs × (ds ≡ map with_view_context cs)
unfolding validate_resources
validate_resources-AllValid [] ds h = (tt, valid-injective h)
validate_resources-AllValid (c ∷ cs) ds h =
    let a = valid-bind (of_resource (validate c)) _ ds h in
    let b = valid-bind (validate_resources cs) _ ds a.2 in
    let v = (validate-IsValid c a.0).0 (of_resource-ok (validate c) a.0 a.1) in
    let rest = validate_resources-AllValid cs b.0 b.1 in
    (
      (v.0, rest.0),
      valid-injective b.2 ∙ ap (λ x. x ∷ b.0) v.1 ∙ ap (λ xs. with_view_context c ∷ xs) rest.1,
    )

abbrev pub InRange : Integer → Type 0
InRange n = (0 < n.magnitude) × ((n.negative ≡ true) ⊎ (n.magnitude ≤ 1000))

check_maximum-InRange : (n m : Integer) → check_maximum n ≡ valid m → InRange m
check_maximum-InRange n m h = elim (Bool-cases (n.magnitude == 0)) [
  | inl z ↦ rw (valid-injective (rw (check_maximum, z) at h)) (omega arith, inr (omega arith))
  | inr p ↦ elim (Bool-cases (not n.negative && ltb 1000 n.magnitude)) [
    | inl t ↦ absurd (invalid≢valid _ m (rw (check_maximum, p, t) at h))
    | inr f ↦ rw (valid-injective (rw (check_maximum, p, f) at h)) (
      ground (arith, p),
      elim (Bool-cases n.negative) [ inl b ↦ inl b | inr b ↦ inr (ground (arith, b, f)) ],
    )
  ]
]

abbrev pub Positive : Integer → Type 0
Positive n = (0 < n.magnitude) × (n.negative ≡ false)

check_context-Positive : (n m : Integer) → check_context n ≡ valid m → Positive m
check_context-Positive n m h = elim (Bool-cases (n.magnitude == 0)) [
  | inl z ↦ rw (valid-injective (rw (check_context, z) at h)) (omega arith, refl)
  | inr p ↦ elim (Bool-cases n.negative) [
    | inl t ↦ absurd (invalid≢valid _ m (rw (check_context, p, t) at h))
    | inr f ↦ rw (valid-injective (rw (check_context, p, f) at h)) (ground (arith, p), refl)
  ]
]

pub record IsReady (c d : CorporaConf) : Type 0 where
  maximum : InRange d.maximum_records
  context : Positive d.maximum_context
  pub all_valid : AllValid c.resources
  resources : d.resources ≡ map with_view_context c.resources

-- After a check that succeeds, the maximum of records is not 0 and is at most 1000 or negative, the
-- maximum context is positive, and all corpora are valid and have only a missing view context
-- structure filled in.
pub validate_and_defaults-IsReady :
    (is_dir : String → DirTest) (c d : CorporaConf)
    → validate_and_defaults is_dir c ≡ valid d
    → IsReady c d
unfolding validate_and_defaults
validate_and_defaults-IsReady is_dir c d h =
    let a = valid-bind (check_registry is_dir c.registry_dir) _ d h in
    let m = valid-bind (check_maximum c.maximum_records) _ d a.2 in
    let x = valid-bind (check_context c.maximum_context) _ d m.2 in
    let r = valid-bind (validate_resources c.resources) _ d x.2 in
    let e = valid-injective r.2 in
    let v = validate_resources-AllValid c.resources r.0 r.1 in
    record {
      maximum =
          rw (ap (λ y. y.maximum_records) e) (check_maximum-InRange c.maximum_records m.0 m.1);
      context =
          rw (ap (λ y. y.maximum_context) e) (check_context-Positive c.maximum_context x.0 x.1);
      all_valid = v.0;
      resources = ap (λ y. y.resources) e ∙ v.1;
    }
