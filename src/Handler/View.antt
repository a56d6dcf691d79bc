-- ===== src/Handler/View.antt =====
-- handler/view.go: the endpoint with style sheets, whose paths `path.Join` puts together.
pub mod Slashes
pub mod Sheets
use Prim.Native.Char.{code}
use Prim.Native.String
use mquery_fcs.Handler.Params.{Params, split_at}
use mquery_fcs.Prelude.{◌==◌, str_eq, if◌then◌else◌, String, Bool, true, false, ◌||◌, List, [], ◌∷◌}
use mquery_fcs.Prelude.Text.{concat}

abbrev pub is_rooted : String → Bool
is_rooted String.[] = false
is_rooted (String.◌∷◌ c s) = code c == 47

-- The elements of a path behind `..`, the last one first: it takes the last one away, stays if there
-- is none to take away, and is dropped at the root.
abbrev pub backtrack : Bool → List String → List String
backtrack rooted [] = if rooted then [] else ".." ∷ []
backtrack rooted (e ∷ es) = if str_eq e ".." then ".." ∷ e ∷ es else es

-- The elements that `Clean` keeps, with those so far, the last one first.
unfoldable pub kept : Bool → List String → List String → List String
kept rooted [] done = done
kept rooted (e ∷ es) done = kept rooted es (
    if str_eq e "" || str_eq e "."
    then done
    else if str_eq e ".."
    then backtrack rooted done
    else e ∷ done)

-- The elements, which are listed from the last one on, with slashes between them.
unfoldable pub slashed : List String → String → String
slashed [] rest = rest
slashed (e ∷ []) rest = String.◌++◌ e rest
slashed (e ∷ es) rest = slashed es (concat ("/" ∷ e ∷ rest ∷ []))

abbrev pub assemble : Bool → List String → String
assemble rooted [] = if rooted then "/" else "."
assemble rooted (e ∷ es) =
    if rooted then String.◌++◌ "/" (slashed (e ∷ es) "") else slashed (e ∷ es) ""

-- `path.Clean` of a path that is not empty.
unfoldable pub clean : String → String
unfolding kept slashed split_at
clean path = assemble (is_rooted path) (kept (is_rooted path) (split_at 47 path "") [])

-- `path.Join` of a path and one that is not empty.
unfoldable pub join : String → String → String
unfolding clean
join base rest = if str_eq base "" then clean rest else clean (concat (base ∷ "/" ∷ rest ∷ []))

-- The style sheets that `ViewHandler.Handle` hands on, for each operation.
unfoldable pub style_sheets : String → Params
unfolding join
style_sheets assets =
    ("explain", join assets "ui/assets/xslt/explain.xslt")
    ∷ ("searchRetrieve", join assets "ui/assets/xslt/searchRetrieve.xslt")
    ∷ ("scan", join assets "ui/assets/xslt/scan.xslt")
    ∷ []
