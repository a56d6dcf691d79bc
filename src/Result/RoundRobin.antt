-- ===== src/Result/RoundRobin.antt =====
-- result/rscrr.go: lines of several results, taken in turn.
-- `none` is a panic: an index out of range, or a call of `panic`.
pub mod Visits
pub mod Cells
pub mod Rounds
pub mod Reading
pub mod Setup
pub mod Filling
use mquery_fcs.Prelude.Integers.{written}
use mquery_fcs.Prelude.Text.{concat}
use mquery_fcs.Prelude.{
  ℕ, zero, suc, ◌+◌, ◌%◌, ◌==◌, ltb, leb, str_eq, if◌then◌else◌, String, Bool, true, false, ◌&&◌,
  ◌||◌, Option, none, some, List, [], ◌∷◌, map, length, get_elem?, set, ◌>>=◌,
}
use mquery_fcs.Result.{GoError, rows_range_out_of_conc, error_text, ConcResult}

-- `item`.
pub record Item (L : Type 0) : Type 0 where
  pub name : String
  pub curr_line : ℕ
  pub err : Option GoError
  pub lines : ConcResult L
  pub started : Bool

pub record RoundRobinLineSel (L : Type 0) : Type 0 where
  pub items : List (Item L)
  pub curr_idx : ℕ
  pub max_lines : ℕ
  pub next_output_line_idx : ℕ

-- The zero value of `ConcResult`.
abbrev pub no_result : {L : Type 0} → ConcResult L
no_result = record { lines = []; conc_size = 0; query = ""; error = none }

abbrev pub new_item : {L : Type 0} → String → Item L
new_item n = record { name = n; curr_line = 0; err = none; lines = no_result; started = false }

abbrev pub has_err : Option GoError → Bool
has_err none = false
has_err (some _) = true

abbrev pub is_out_of_range : Option GoError → Bool
is_out_of_range none = false
is_out_of_range (some e) = str_eq (error_text e) (error_text rows_range_out_of_conc)

module _ {L : Type 0} where
  -- `NewRoundRobinLineSel`.
  unfoldable pub new_sel : ℕ → List String → RoundRobinLineSel L
  new_sel m names = record {
    items = map new_item names;
    curr_idx = 0;
    max_lines = m;
    next_output_line_idx = 0;
  }

  -- `DescribeCurr`.
  unfoldable pub describe_curr : RoundRobinLineSel L → Option String
  unfolding written
  describe_curr r = do
    it ← get_elem? r.items r.curr_idx
    let at = written (record { negative = false; magnitude = it.curr_line })
    some (concat ("resource [" ∷ it.name ∷ "][" ∷ at ∷ "]" ∷ []))

  -- `CurrLine`; the inner option is the pointer that it returns, `none` for `nil`.
  unfoldable pub curr_line : RoundRobinLineSel L → Option (Option L)
  curr_line r =
      if leb (r.max_lines + 1) r.next_output_line_idx
      then some none
      else do it ← get_elem? r.items r.curr_idx; some (get_elem? it.lines.lines it.curr_line)

  -- `CurrRscName`.
  unfoldable pub curr_rsc_name : RoundRobinLineSel L → Option String
  curr_rsc_name r = do it ← get_elem? r.items r.curr_idx; some it.name

  -- `CurrRscGetError`.
  unfoldable pub curr_rsc_get_error : RoundRobinLineSel L → Option (Option GoError)
  curr_rsc_get_error r = do it ← get_elem? r.items r.curr_idx; some it.err

  unfoldable pub any_started : List (Item L) → Bool
  any_started [] = false
  any_started (it ∷ its) = it.started || any_started its

  -- `iterationStarted`.
  abbrev pub iteration_started : RoundRobinLineSel L → Bool
  iteration_started r = any_started r.items

  -- The loop of `SetRscLines` over the items.
  unfoldable pub put_lines : String → ConcResult L → List (Item L) → Option (List (Item L))
  put_lines rsc c [] = none
  put_lines rsc c (it ∷ its) =
      if str_eq it.name rsc
      then some (record it { lines = c } ∷ its)
      else do rest ← put_lines rsc c its; some (it ∷ rest)

  -- `SetRscLines`.
  unfoldable pub set_rsc_lines :
      String → ConcResult L → RoundRobinLineSel L → Option (RoundRobinLineSel L)
  unfolding put_lines
  set_rsc_lines rsc c r =
      if iteration_started r
      then none
      else do items ← put_lines rsc c r.items; some (record r { items = items })

  -- `RscSetErrorAt`; the error that is set may be `nil`.
  unfoldable pub rsc_set_error_at :
      ℕ → Option GoError → RoundRobinLineSel L → Option (RoundRobinLineSel L)
  rsc_set_error_at idx e r = do
    it ← get_elem? r.items idx
    some (record r { items = set r.items idx (record it { err = e }) })

  unfoldable pub all_err : List (Item L) → Bool
  all_err [] = true
  all_err (it ∷ its) = has_err it.err && all_err its

  -- `HasFatalError`.
  abbrev pub has_fatal_error : RoundRobinLineSel L → Bool
  has_fatal_error r = all_err r.items

  unfoldable pub count_out_of_range : List (Item L) → ℕ
  count_out_of_range [] = 0
  count_out_of_range (it ∷ its) = (if is_out_of_range it.err then 1 else 0) + count_out_of_range its

  -- `AllHasOutOfRangeError`.
  unfoldable pub all_has_out_of_range_error : RoundRobinLineSel L → Bool
  unfolding count_out_of_range
  all_has_out_of_range_error r = count_out_of_range r.items == length r.items

  unfoldable pub first_err : List (Item L) → Option GoError
  first_err [] = none
  first_err (it ∷ its) = elim it.err [ none ↦ first_err its | some e ↦ some e ]

  -- `GetFirstError`.
  abbrev pub get_first_error : RoundRobinLineSel L → Option GoError
  get_first_error r = first_err r.items

  unfoldable pub all_empty : List (Item L) → Bool
  all_empty [] = true
  all_empty (it ∷ its) = if ltb 0 (length it.lines.lines) then false else all_empty its

  -- `IsEmpty`.
  abbrev pub is_empty : RoundRobinLineSel L → Bool
  is_empty r = all_empty r.items

  -- What a round of the loop of `Next` does to the item that it comes to, and whether the item then
  -- has a line to show.
  abbrev pub visit_item : Item L → Item L × Bool
  visit_item it =
      if it.started
      then (
        record it { curr_line = it.curr_line + 1 },
        ltb (it.curr_line + 1) (length it.lines.lines),
      )
      else (record it { started = true }, ltb 0 (length it.lines.lines))

  -- The selector after such a round.
  abbrev pub arrive : RoundRobinLineSel L → Item L → RoundRobinLineSel L
  arrive r it =
      let idx = (r.curr_idx + 1) % length r.items in
      record r {
        next_output_line_idx = r.next_output_line_idx + 1;
        curr_idx = idx;
        items = set r.items idx (visit_item it).0;
      }

  -- The `for` loop of `Next`, with the rounds left.
  unfoldable pub advance : ℕ → RoundRobinLineSel L → Option (Bool × RoundRobinLineSel L)
  advance zero r = some (false, r)
  advance (suc k) r =
      if ltb r.max_lines (r.next_output_line_idx + 1)
      then some (false, record r { next_output_line_idx = r.next_output_line_idx + 1 })
      else elim (get_elem? r.items ((r.curr_idx + 1) % length r.items)) [
        | none ↦ none
        | some it ↦
            let rest = advance k (arrive r it) in
            if (visit_item it).1 then some (true, arrive r it) else rest
      ]

  -- The part of `Next` behind its two guards.
  unfoldable pub next_from : Item L → RoundRobinLineSel L → Option (Bool × RoundRobinLineSel L)
  next_from it r =
      let begun = record r {
        next_output_line_idx = r.next_output_line_idx + 1;
        items = set r.items r.curr_idx (record it { started = true });
      } in
      if it.started
      then advance (length r.items) r
      else if ltb 0 (length it.lines.lines)
      then some (true, begun)
      else advance (length r.items) begun

  -- `Next`.
  unfoldable pub next : RoundRobinLineSel L → Option (Bool × RoundRobinLineSel L)
  unfolding next_from
  next r =
      if leb r.max_lines r.next_output_line_idx
      then some (false, record r { next_output_line_idx = r.next_output_line_idx + 1 })
      else if length r.items == 0 || is_empty r
      then some (false, r)
      else do it ← get_elem? r.items r.curr_idx; next_from it r
