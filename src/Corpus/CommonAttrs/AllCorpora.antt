-- ===== src/Corpus/CommonAttrs/AllCorpora.antt =====
-- The two ways to the attributes that all corpora have in common.
use mquery_fcs.Corpus.CommonAttrs.{
  collect_attrs, collect_corpora, collect_all, get_common_pos_attrs, get_common_pos_attrs2,
}
use mquery_fcs.Corpus.Layers.{PosAttr}
use mquery_fcs.Corpus.Resources.{get_corpora, get_resource}
use mquery_fcs.Corpus.Setup.{CorpusSetup}
use mquery_fcs.Prelude.{ℕ, suc, some, List, [], ◌∷◌, length, ◌≡◌, refl, ap}
use mquery_fcs.Result.RoundRobin.Setup.{NotIn, Distinct}
use text.Mathlib.TextPositions.{eq_refl}

AllFound : List CorpusSetup → List CorpusSetup → Type 0
AllFound sr [] = Unit
AllFound sr (c ∷ cs) = (get_resource sr c.id ≡ some c) × AllFound sr cs

AllFound-cons :
    (d : CorpusSetup) (sr cs : List CorpusSetup)
    → NotIn d.id (get_corpora cs)
    → AllFound sr cs
    → AllFound (d ∷ sr) cs
unfolding AllFound get_resource
AllFound-cons d sr [] n h = tt
AllFound-cons d sr (c ∷ cs) n h = (rw n.1 h.0, AllFound-cons d sr cs n.2 h.1)

Distinct-AllFound : (sr : List CorpusSetup) → Distinct (get_corpora sr) → AllFound sr sr
unfolding AllFound get_resource
Distinct-AllFound [] d = tt
Distinct-AllFound (c ∷ cs) d =
    (rw (eq_refl c.id) refl, AllFound-cons c cs cs d.0 (Distinct-AllFound cs d.1))

collect_corpora-all :
    (sr cs : List CorpusSetup) (m : List (ℕ × PosAttr))
    → AllFound sr cs
    → collect_corpora sr (get_corpora cs) m ≡ some (collect_all cs m)
unfolding AllFound collect_corpora
collect_corpora-all sr [] m h = refl
collect_corpora-all sr (c ∷ cs) m h =
    rw h.0 (collect_corpora-all sr cs (collect_attrs c.pos_attrs m) h.1)

length-get_corpora : (sr : List CorpusSetup) → length (get_corpora sr) ≡ length sr
length-get_corpora [] = refl
length-get_corpora (c ∷ cs) = ap suc (length-get_corpora cs)

-- If all corpora have identifiers of their own, the attributes that `GetCommonPosAttrs` finds for
-- the list of all corpora are those of `GetCommonPosAttrs2`, without an error.
pub get_common_pos_attrs-all :
    (sr : List CorpusSetup)
    → Distinct (get_corpora sr)
    → get_common_pos_attrs sr (get_corpora sr) ≡ some (get_common_pos_attrs2 sr)
unfolding get_common_pos_attrs get_common_pos_attrs2
get_common_pos_attrs-all sr d =
    rw (collect_corpora-all sr sr [] (Distinct-AllFound sr d), length-get_corpora sr) refl
