-- ===== src/Result.antt =====
-- result/result.go and the errors that travel with a result.
pub mod RoundRobin
use mquery_fcs.Prelude.{ℕ, String, List, Option, length}

-- A Go error value: the variable `mango.ErrRowsRangeOutOfConc`, or one made from a message.
-- The first is recognised by identity (`==`), all by their text (`Error()`).
pub data GoError : Type 0 where
  rows_range_out_of_conc : GoError
  message : String → GoError

-- `Error()`.
abbrev pub error_text : GoError → String
error_text rows_range_out_of_conc = "rows range is out of concordance size"
error_text (message m) = m

-- `ConcResult`. The type of a concordance line is a parameter: nothing here looks into a line.
pub record ConcResult (L : Type 0) : Type 0 where
  pub lines : List L
  pub conc_size : ℕ
  pub query : String
  pub error : Option GoError

abbrev pub num_lines : {L : Type 0} → ConcResult L → ℕ
num_lines res = length res.lines
