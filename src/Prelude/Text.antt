-- ===== src/Prelude/Text.antt =====
-- Putting texts together, as `fmt.Sprintf` and the string builders do.
use Prim.Native.String
use Prim.Native.String.{String}
use mathlib.Core.List.{List, [], ◌∷◌, ◌++◌}
use mathlib.Core.Path.{◌≡◌, ap, sym, ◌∙◌}
use text.Mathlib.TextLemmas.{nil-append, append_assoc}

-- The texts one behind the other.
unfoldable pub concat : List String → String
concat [] = ""
concat (s ∷ ss) = String.◌++◌ s (concat ss)

pub concat-append : (ss ts : List String) → concat (ss ++ ts) ≡ String.◌++◌ (concat ss) (concat ts)
unfolding concat
concat-append [] ts = sym (nil-append (concat ts))
concat-append (s ∷ ss) ts =
    ap (String.◌++◌ s) (concat-append ss ts) ∙ sym (append_assoc s (concat ss) (concat ts))
