-- ===== src/Tests/Searches.antt =====
-- A search through two corpora with three lines and one line.
use mquery_fcs.General.Errors.{FcsError, overthrow}
use mquery_fcs.General.Request.{
  FcsGeneralRequest, add_errors, has_fatal_error, add_errors-overthrow,
}
use mquery_fcs.Prelude.{
  ℕ, ◌≡◌, refl, str_eq, if◌then◌else◌, String, true, false, none, some, List, [], ◌∷◌, ◌++◌, take,
  drop, length, arith, ◌>>=◌,
}
use mquery_fcs.Query.Ranges.{LineRange, calculate_partial_ranges, tabulate}
use mquery_fcs.Query.Ranges.Laws.{range_at, calculate_partial_ranges-range_at}
use mquery_fcs.Result.{ConcResult}
use mquery_fcs.Result.RoundRobin.Cells.{collect, cell}
use mquery_fcs.Result.RoundRobin.Setup.{merge, merge_lem, filled_items}
use mquery_fcs.Search.Paging.{page, by_turns}
use mquery_fcs.Search.Paging.Turns.{page-by_turns}
use mquery_fcs.Search.Paging.Tiles.{pages_tile}

abbrev pub corpora : List String
corpora = "a" ∷ "b" ∷ []

abbrev pub lines_of : String → List String
lines_of s = if str_eq s "a" then "x0" ∷ "x1" ∷ "x2" ∷ [] else "y0" ∷ []

abbrev answer_to : ℕ → LineRange → ConcResult String
answer_to m rg = record {
  lines = take m (drop rg.from (lines_of rg.rsc));
  conc_size = length (lines_of rg.rsc);
  query = "";
  error = none;
}

page-by_turns_example :
    page (answer_to 4) corpora 1 4 ≡ some (collect (by_turns lines_of corpora) 1 4)
page-by_turns_example =
    page-by_turns lines_of corpora 1 4 (answer_to 4) (omega arith) ((refl, refl, tt), (tt, tt))
      (λ rg. refl)

abbrev results : List (String × ConcResult String)
results =
    ("b", answer_to 3 (record { rsc = "b"; from = 0; to = 3 }))
    ∷ ("a", answer_to 3 (record { rsc = "a"; from = 1; to = 4 }))
    ∷ []

merge_lem_example : merge 3 results ≡ some (collect (cell (filled_items results)) 0 3)
merge_lem_example = merge_lem results 3 ((refl, refl, tt), (tt, tt))

calculate_partial_ranges-range_at_example :
    calculate_partial_ranges corpora 3 10 ≡ tabulate (range_at corpora 3 10) 0 2
calculate_partial_ranges-range_at_example =
    calculate_partial_ranges-range_at corpora 3 10 (omega arith)

pages_tile_example :
    page (answer_to 4) corpora 0 4
    ≡ (do xs ← page (answer_to 2) corpora 0 2; ys ← page (answer_to 2) corpora 2 2; some (xs ++ ys))
pages_tile_example =
    pages_tile lines_of corpora answer_to (omega arith) ((refl, refl, tt), (tt, tt)) (λ m rg. refl)
      0 2 2

abbrev query_error : FcsError
query_error = record { type = 10; code = 10; ident = "query"; message = "" }

abbrev version_error : FcsError
version_error = record { type = 0; code = 5; ident = "2.0"; message = "" }

abbrev plain_request : FcsGeneralRequest
plain_request = record { version = "2.0"; errors = []; fatal = false; xslt = "" }

add_errors-overthrow_example :
    ((add_errors (version_error ∷ query_error ∷ version_error ∷ []) plain_request).errors
      ≡ query_error ∷ version_error ∷ [])
    × (has_fatal_error (add_errors (version_error ∷ query_error ∷ version_error ∷ []) plain_request)
        ≡ true)
unfolding overthrow
add_errors-overthrow_example =
    add_errors-overthrow (version_error ∷ []) query_error (version_error ∷ []) plain_request refl
      refl
