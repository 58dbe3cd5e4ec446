-- ===== src/Prelude/Floats.antt =====
-- Floating point numbers, which the language of these proofs lacks: the type and the operations that
-- the program uses are a parameter.
use mathlib.Core.Bool.{Bool}
use claude_code_gateway.Prelude.Int.{ℤ}

pub record Floats : Type 1 where
  pub Float : Type 0
  pub from_int : ℤ → Float
  pub to_int : Float → ℤ
  pub add : Float → Float → Float
  pub sub : Float → Float → Float
  pub mul : Float → Float → Float
  pub div : Float → Float → Float
  pub lt : Float → Float → Bool
  pub le : Float → Float → Bool
