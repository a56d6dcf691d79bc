-- ===== src/Handler/V20/Explain/References.antt =====
-- Which layers the description of a server lists.
use mquery_fcs.Corpus.CommonAttrs.Shared.{
  named, all_named, AllOwnNames, get_common_pos_attrs2-named,
}
use mquery_fcs.Corpus.CommonAttrs.{get_common_pos_attrs2}
use mquery_fcs.Corpus.Layers.{PosAttr}
use mquery_fcs.Corpus.Setup.{CorpusSetup}
use mquery_fcs.Handler.V20.Explain.{SupportedLayer, supported_layer, endpoint_description}
use mquery_fcs.Prelude.{str_eq, String, Bool, false, ◌||◌, List, [], ◌∷◌, map, ◌≡◌, refl, ap, ◌∙◌}

-- A layer with the qualifier is listed.
abbrev pub qualified : String → List SupportedLayer → Bool
qualified n [] = false
qualified n (l ∷ ls) = str_eq l.qualifier n || qualified n ls

qualified-named :
    (n : String) (ps : List PosAttr) → qualified n (map supported_layer ps) ≡ named n ps
qualified-named n [] = refl
qualified-named n (p ∷ ps) = ap (λ b. str_eq p.name n || b) (qualified-named n ps)

-- If there is a corpus and each corpus has names of its own for its attributes, the description of the
-- endpoint lists a layer with a qualifier exactly if each corpus has an attribute of this name.
pub endpoint_description-qualified :
    (n : String) (c : CorpusSetup) (cs : List CorpusSetup)
    → AllOwnNames (c ∷ cs)
    → qualified n (endpoint_description (c ∷ cs)).supported_layers ≡ all_named n (c ∷ cs)
endpoint_description-qualified n c cs h =
    qualified-named n (get_common_pos_attrs2 (c ∷ cs)) ∙ get_common_pos_attrs2-named n c cs h
