-- ===== src/Corpus/Corpora/Twice.antt =====
-- The check of the configuration of the corpora runs twice when the server starts.
use mquery_fcs.Corpus.Corpora.Defaults.{valid-bind, invalid≢valid, valid-injective, of_resource-ok}
use mquery_fcs.Corpus.Corpora.{
  CorporaConf, DirTest, valid, of_resource, validate_resources, check_registry, check_maximum,
  check_context, validate_and_defaults,
}
use mquery_fcs.Corpus.Setup.Validity.{IsValid, validate-IsValid}
use mquery_fcs.Corpus.Setup.{CorpusSetup, ok, validate, with_view_context}
use mquery_fcs.Prelude.Integers.{Integer}
use mquery_fcs.Prelude.{
  ◌==◌, ltb, str_eq, String, not, ◌&&◌, List, [], ◌∷◌, ◌≡◌, refl, inl, inr, Bool-cases,
}

with_view_context-IsValid : (c : CorpusSetup) → IsValid c → IsValid (with_view_context c)
with_view_context-IsValid c v = elim (Bool-cases (str_eq c.view_context_struct "")) [
  | inl t ↦
      rw (with_view_context, t)
        (record {
          full_name = v.full_name;
          description = v.description;
          languages = v.languages;
          layers = v.layers;
          searchable = v.searchable;
        })
  | inr f ↦ rw (with_view_context, f) v
]

with_view_context-twice :
    (c : CorpusSetup) → with_view_context c ≡ with_view_context (with_view_context c)
with_view_context-twice c = elim (Bool-cases (str_eq c.view_context_struct "")) [
  | inl t ↦ rw (with_view_context, t) refl
  | inr f ↦ rw (with_view_context, f, f) refl
]

validate-twice : (c d : CorpusSetup) → validate c ≡ ok d → validate d ≡ ok d
validate-twice c d h =
    let v = (validate-IsValid c d).0 h in
    rw v.1 (
      (validate-IsValid (with_view_context c) (with_view_context c)).1
        (with_view_context-IsValid c v.0, with_view_context-twice c))

validate_resources-twice :
    (cs ds : List CorpusSetup) → validate_resources cs ≡ valid ds → validate_resources ds ≡ valid ds
unfolding validate_resources
validate_resources-twice [] ds h = rw (valid-injective h) refl
validate_resources-twice (c ∷ cs) ds h =
    let a = valid-bind (of_resource (validate c)) _ ds h in
    let b = valid-bind (validate_resources cs) _ ds a.2 in
    rw (valid-injective b.2) (
      rw
        (
          validate-twice c a.0 (of_resource-ok (validate c) a.0 a.1),
          validate_resources-twice cs b.0 b.1,
        )
        refl)

check_maximum-twice : (n m : Integer) → check_maximum n ≡ valid m → check_maximum m ≡ valid m
check_maximum-twice n m h = elim (Bool-cases (n.magnitude == 0)) [
  | inl z ↦ rw (valid-injective (rw (check_maximum, z) at h)) refl
  | inr p ↦ elim (Bool-cases (not n.negative && ltb 1000 n.magnitude)) [
    | inl t ↦ absurd (invalid≢valid _ m (rw (check_maximum, p, t) at h))
    | inr f ↦ rw (valid-injective (rw (check_maximum, p, f) at h)) (rw (check_maximum, p, f) refl)
  ]
]

check_context-twice : (n m : Integer) → check_context n ≡ valid m → check_context m ≡ valid m
check_context-twice n m h = elim (Bool-cases (n.magnitude == 0)) [
  | inl z ↦ rw (valid-injective (rw (check_context, z) at h)) refl
  | inr p ↦ elim (Bool-cases n.negative) [
    | inl t ↦ absurd (invalid≢valid _ m (rw (check_context, p, t) at h))
    | inr f ↦ rw (valid-injective (rw (check_context, p, f) at h)) (rw (check_context, p) refl)
  ]
]

-- A configuration of the corpora that the check has accepted and filled in is accepted by a further
-- check, which does not change it.
pub validate_and_defaults-twice :
    (is_dir : String → DirTest) (c d : CorporaConf)
    → validate_and_defaults is_dir c ≡ valid d
    → validate_and_defaults is_dir d ≡ valid d
unfolding validate_and_defaults
validate_and_defaults-twice is_dir c d h =
    let a = valid-bind (check_registry is_dir c.registry_dir) _ d h in
    let m = valid-bind (check_maximum c.maximum_records) _ d a.2 in
    let x = valid-bind (check_context c.maximum_context) _ d m.2 in
    let r = valid-bind (validate_resources c.resources) _ d x.2 in
    rw (valid-injective r.2) (
      rw
        (
          a.1,
          check_maximum-twice c.maximum_records m.0 m.1,
          check_context-twice c.maximum_context x.0 x.1,
          validate_resources-twice c.resources r.0 r.1,
        )
        refl)
