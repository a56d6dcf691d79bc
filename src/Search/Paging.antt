-- ===== src/Search/Paging.antt =====
-- One page of a search: the ranges of the corpora, the answers of the workers, and the lines taken
-- from them in turn. What a worker answers to a range is a parameter.
pub mod Distinctness
pub mod Tables
pub mod Turns
pub mod Tiles
use mquery_fcs.Prelude.{
  ℕ, ◌%◌, ◌/◌, String, Option, none, some, List, [], ◌∷◌, length, get_elem?, ◌>>=◌,
}
use mquery_fcs.Query.Ranges.{LineRange, calculate_partial_ranges}
use mquery_fcs.Result.{ConcResult}
use mquery_fcs.Result.RoundRobin.Setup.{merge}

module _ {L : Type 0} where
  -- The answers, each with the resource that it is for.
  unfoldable pub answered :
      (LineRange → ConcResult L) → List LineRange → List (String × ConcResult L)
  answered answer [] = []
  answered answer (rg ∷ rgs) = (rg.rsc, answer rg) ∷ answered answer rgs

  -- The lines of the page at `offset` that is to have up to `m` of them, if no answer has an error; a
  -- handler refuses the page at one, and a range behind the end of its corpus gives one.
  unfoldable pub page :
      (LineRange → ConcResult L) → List String → ℕ → ℕ → Option (List (String × L))
  page answer rscs offset m = do
    ranges ← calculate_partial_ranges rscs offset m
    merge m (answered answer ranges)

  -- All lines of all corpora by turns: the first of each corpus, the second of each, and so on;
  -- `conc` is the whole concordance of a corpus.
  unfoldable pub by_turns : (String → List L) → List String → ℕ → Option (String × L)
  by_turns conc rscs k = do
    rsc ← get_elem? rscs (k % length rscs)
    line ← get_elem? (conc rsc) (k / length rscs)
    some (rsc, line)
