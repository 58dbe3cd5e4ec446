-- ===== src/Pricing.antt =====
-- internal/pricing/pricing.go: the prices of models, by name or by pattern, and the cost of a call.
-- `path.Match` and `math.Round` are parameters.
use claude_code_gateway.Prelude.{
  String, Bool, List, [], ◌∷◌, ◌++◌, Option, none, some, if◌then◌else◌, string_eq,
}
use claude_code_gateway.Prelude.Floats.{Floats}
use claude_code_gateway.Prelude.GoMap.{GoMap, get, put}
use claude_code_gateway.Prelude.Int.{ℤ, pos}
use claude_code_gateway.Prelude.Text.{contains_any, to_lower}

module _ (F : Floats) where
  open F use {Float, from_int, add, mul, div}

  pub record Price : Type 0 where
    pub input_per_mtok : Float
    pub output_per_mtok : Float
    pub cache_read_per_mtok : Float
    pub cache_write_per_mtok : Float

  pub record PriceRule : Type 0 where
    pub pattern : String
    pub price : Price

  pub record Table : Type 0 where
    pub exact : GoMap String Price
    pub patterns : List PriceRule

  -- The loop of `New`.
  unfoldable pub add_rules : List PriceRule → Table → Table
  add_rules [] t = t
  add_rules (r ∷ rs) t = add_rules rs (
      if contains_any r.pattern "*?["
      then record t { patterns = t.patterns ++ r ∷ [] }
      else record t { exact = put t.exact (to_lower r.pattern) r.price })

  unfoldable pub new_table : List PriceRule → Table
  unfolding add_rules
  new_table rs = add_rules rs (record { exact = []; patterns = [] })

  -- The loop over the patterns; `glob` is `path.Match`.
  unfoldable pub match_pattern :
      (String → String → Option Bool) → String → List PriceRule → Option Price
  match_pattern glob model [] = none
  match_pattern glob model (r ∷ rs) =
      let rest = match_pattern glob model rs in
      elim (glob (to_lower r.pattern) model) [
        | none ↦ rest
        | some b ↦ if b then some r.price else rest
      ]

  unfoldable pub match_price : (String → String → Option Bool) → String → Table → Option Price
  unfolding match_pattern
  match_price glob model t = elim (get t.exact (to_lower model)) [
    | some p ↦ some p
    | none ↦ match_pattern glob (to_lower model) t.patterns
  ]

  abbrev pub millions : ℤ → Float
  millions n = div (from_int n) (from_int (pos 1_000_000))

  unfoldable pub cost : (Float → Float) → Price → ℤ → ℤ → ℤ → ℤ → Float
  cost round p input output cache_read cache_write =
      let c =
        add
          (add
            (add (mul (millions input) p.input_per_mtok) (mul (millions output) p.output_per_mtok))
            (mul (millions cache_read) p.cache_read_per_mtok))
          (mul (millions cache_write) p.cache_write_per_mtok) in
      div (round (mul c (from_int (pos 10_000)))) (from_int (pos 10_000))

  -- `costFor` of internal/server/handlers.go.
  unfoldable pub cost_for :
      (String → String → Option Bool) → (Float → Float) → Table → String → ℤ → ℤ → ℤ → ℤ → Float
  unfolding match_price cost
  cost_for glob round t model input output cache_read cache_write =
      elim (match_price glob model t) [
        | some p ↦ cost round p input output cache_read cache_write
        | none ↦ elim (match_price glob "default" t) [
          | some p ↦ cost round p input output cache_read cache_write
          | none ↦ from_int (pos 0)
        ]
      ]
