-- ===== src/Corpus/Setup/Validity.antt =====
-- What the check of a corpus setup accepts.
use mquery_fcs.Corpus.Setup.{
  CorpusSetup, SetupError, Checked, ◌>>=◌, check_en, check_languages, ok, err, check_basic, has_key,
  TextMap, missing_full_name, missing_full_name_en, missing_description, missing_description_en,
  with_view_context, validate,
}
use mquery_fcs.Corpus.Setup.Layers.{LayersOk, basic_count, checks-LayersOk, LayersOk-checks}
use mquery_fcs.Prelude.{
  ℕ, ◌<◌, ◌≡◌, ◌≢◌, ◌↔◌, refl, ap, sym, String, Bool, true, false, Option, none, some, List, arith,
}

unfoldable pub has_en : TextMap → Bool
has_en none = false
has_en (some m) = has_key "en" m

-- What a chain that succeeds has passed through.
ok-bind {ℓ κ} :
    {A : Type ℓ} {B : Type κ} (m : Checked A) (f : A → Checked B) (b : B)
    → (m >>= f) ≡ ok b
    → (a : A) × (m ≡ ok a) × (f a ≡ ok b)
ok-bind (ok a) f b h = (a, refl, h)
ok-bind (err e) f b h = absurd (err≢ok h)
  where
    err≢ok : err e ≢ ok b
    err≢ok h = cc

ok-injective {ℓ} : {A : Type ℓ} {a b : A} → ok a ≡ ok b → b ≡ a
ok-injective h = cc

check_en-ok :
    (m : TextMap) (e e' : SetupError) (u : Unit {0}) → check_en m e e' ≡ ok u → has_en m ≡ true
unfolding has_en
check_en-ok none e e' u h = cc
check_en-ok (some m) e e' u h = ground (arith, h)

ok-check_en : (m : TextMap) (e e' : SetupError) → has_en m ≡ true → check_en m e e' ≡ ok tt
unfolding has_en
ok-check_en none e e' h = cc
ok-check_en (some m) e e' h = ground (arith, h)

check_languages-ok : (l : Option (List String)) (u : Unit {0}) → check_languages l ≡ ok u → l ≢ none
check_languages-ok none u h = cc
check_languages-ok (some l) u h = λ q. cc

ok-check_languages : (l : Option (List String)) → l ≢ none → check_languages l ≡ ok tt
ok-check_languages none h = absurd (h refl)
ok-check_languages (some l) h = refl

check_basic-ok : (n : ℕ) (u : Unit {0}) → check_basic n ≡ ok u → 0 < n
check_basic-ok n u h = ground (arith, h)

ok-check_basic : (n : ℕ) → 0 < n → check_basic n ≡ ok tt
ok-check_basic n h = ground (arith, h)

-- What the check of a setup asks for: English texts, languages, known layers with one default
-- each, and an attribute for the basic search.
pub record IsValid (c : CorpusSetup) : Type 0 where
  pub full_name : has_en c.full_name ≡ true
  pub description : has_en c.description ≡ true
  pub languages : c.languages ≢ none
  pub layers : LayersOk c.pos_attrs c.pos_attrs
  pub searchable : 0 < basic_count c.pos_attrs

pub validate-IsValid :
    (c d : CorpusSetup) → validate c ≡ ok d ↔ (IsValid c × (d ≡ with_view_context c))
unfolding validate
validate-IsValid c d = (to, from)
  where
    to : validate c ≡ ok d → IsValid c × (d ≡ with_view_context c)
    to h =
        let a = ok-bind _ _ d h in
        let b = ok-bind _ _ d a.2 in
        let l = ok-bind _ _ d b.2 in
        let k = ok-bind _ _ d l.2 in
        let f = ok-bind _ _ d k.2 in
        let n = ok-bind _ _ d f.2 in
        let g = checks-LayersOk c.pos_attrs k.0.0 k.0.1 k.1 f.1 in
        (
          record {
            full_name = check_en-ok c.full_name _ _ a.0 a.1;
            description = check_en-ok c.description _ _ b.0 b.1;
            languages = check_languages-ok c.languages l.0 l.1;
            layers = g.0;
            searchable = rw (sym g.1) (check_basic-ok k.0.1 n.0 n.1);
          },
          ok-injective n.2,
        )

    from : IsValid c × (d ≡ with_view_context c) → validate c ≡ ok d
    from (v, e) =
        let l = LayersOk-checks c.pos_attrs v.layers in
        rw
          (
            ok-check_en c.full_name missing_full_name missing_full_name_en v.full_name,
            ok-check_en c.description missing_description missing_description_en v.description,
            ok-check_languages c.languages v.languages,
            l.1,
            l.2,
            ok-check_basic (basic_count c.pos_attrs) v.searchable,
          )
          (ap ok (sym e))
