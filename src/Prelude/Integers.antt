-- ===== src/Prelude/Integers.antt =====
-- The `int`s that may be negative, and how they are written.
use Prim.Native.Nat.{ℕ, zero, suc, ◌/◌, ◌%◌}
use Prim.Native.String
use Prim.Native.String.{String}
use mathlib.Core.Bool.{Bool}
use mquery_fcs.Prelude.Tests.{ltb, if◌then◌else◌}

-- An `int`.
pub record Integer : Type 0 where
  pub negative : Bool
  pub magnitude : ℕ

abbrev digit : ℕ → String
digit zero = "0"
digit (suc zero) = "1"
digit (suc (suc zero)) = "2"
digit (suc (suc (suc zero))) = "3"
digit (suc (suc (suc (suc zero)))) = "4"
digit (suc (suc (suc (suc (suc zero))))) = "5"
digit (suc (suc (suc (suc (suc (suc zero)))))) = "6"
digit (suc (suc (suc (suc (suc (suc (suc zero))))))) = "7"
digit (suc (suc (suc (suc (suc (suc (suc (suc zero)))))))) = "8"
digit n = "9"

-- The decimal digits in front of a text; a number has fewer digits than its successor.
unfoldable pub decimal : ℕ → ℕ → String → String
decimal zero n s = s
decimal (suc f) n s =
    let all = decimal f (n / 10) (String.◌++◌ (digit (n % 10)) s) in
    if ltb n 10 then String.◌++◌ (digit n) s else all

-- `%d`.
unfoldable pub written : Integer → String
unfolding decimal
written n =
    let digits = decimal (suc n.magnitude) n.magnitude "" in
    if n.negative then String.◌++◌ "-" digits else digits
