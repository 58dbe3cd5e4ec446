-- ===== src/Provider/Transform.antt =====
-- internal/provider/transform.go: the changes that a provider's configuration asks for in a request, as it
-- is decoded from JSON. `strconv.Atoi` and `strconv.ParseFloat` are parameters.
use Prim.Native.Char.{Char, code}
use Prim.Native.String.{◌++◌ as str_append}
use claude_code_gateway.Prelude.{
  ℕ, zero, suc, String, Bool, true, false, Option, none, some, List, [], ◌∷◌, ◌⊎◌, inl, inr,
  if◌then◌else◌, ◌==◌, string_eq, nat_eq, ◌||◌,
}
use claude_code_gateway.Prelude.Floats.{Floats}
use claude_code_gateway.Prelude.GoMap.{GoMap, get, put, delete}
use claude_code_gateway.Prelude.Int.{ℤ, pos, leb_ℤ}
use claude_code_gateway.Prelude.Text.{cut, trim_space}
pub mod Untouched
mod Examples

-- What is wrong with a specification.
pub data BadSpec : Type 0 where
  bad_set : String → BadSpec
  bad_cap : String → BadSpec
  no_effort : BadSpec
  unknown_transformer : String → BadSpec

abbrev pub onto_first : Char → List String → List String
onto_first c [] = String.◌∷◌ c "" ∷ []
onto_first c (s ∷ ss) = String.◌∷◌ c s ∷ ss

-- `strings.Split` by one character.
unfoldable pub split : ℕ → String → List String
split sep String.[] = "" ∷ []
split sep (String.◌∷◌ c s) =
    let rest = split sep s in if code c == sep then "" ∷ rest else onto_first c rest

module _ (F : Floats) where
  open F use {Float, from_int, lt}

  -- `any`, as JSON is decoded.
  mutual
    pub data Value : Type 0 where
      text : String → Value
      number : Float → Value
      flag : Bool → Value
      null : Value
      list : Values → Value
      object : Fields → Value

    pub data Values : Type 0 where
      no_values : Values
      item : Value → Values → Values

    pub data Fields : Type 0 where
      no_fields : Fields
      field : String → Value → Fields → Fields

  unfoldable pub field_of : Fields → String → Option Value
  field_of no_fields k = none
  field_of (field j v fs) k = if j == k then some v else field_of fs k

  unfoldable pub with_field : Fields → String → Value → Fields
  with_field no_fields k v = field k v no_fields
  with_field (field j w fs) k v = if j == k then field k v fs else field j w (with_field fs k v)

  abbrev pub TransformFunc : Type 0
  TransformFunc = GoMap String Value → GoMap String Value

  unfoldable pub set_field : String → Value → TransformFunc
  set_field k v m = put m k v

  abbrev pub capped : Float → Option Value → TransformFunc
  capped n (some (number mt)) m = if lt n mt then put m "max_tokens" (number n) else m
  capped n _ m = m

  unfoldable pub max_tokens_cap : ℤ → TransformFunc
  max_tokens_cap n m = capped (from_int n) (get m "max_tokens") m

  unfoldable pub drop_keys : List String → TransformFunc
  unfolding trim_space
  drop_keys [] m = m
  drop_keys (k ∷ ks) m = drop_keys ks (delete m (trim_space k))

  abbrev pub system_message : String → Value
  system_message s = object (field "role" (text "system") (field "content" (text s) no_fields))

  abbrev pub is_system : Option Value → Bool
  is_system (some (text r)) = r == "system"
  is_system _ = false

  -- The messages with the text put before the first, if that is a text of the system's, or else as a
  -- message of its own.
  abbrev pub prefixed_text : String → Fields → Values → Option Value → Values
  prefixed_text s first rest (some (text c)) =
      item (object (with_field first "content" (text (str_append s (str_append "\n\n" c))))) rest
  prefixed_text s first rest _ = item (system_message s) (item (object first) rest)

  abbrev pub prefixed : String → Value → Values → Values
  prefixed s (object first) rest =
      if is_system (field_of first "role")
      then prefixed_text s first rest (field_of first "content")
      else item (system_message s) (item (object first) rest)
  prefixed s v rest = item (system_message s) (item v rest)

  abbrev pub with_prefix : String → Option Value → TransformFunc
  with_prefix s (some (list (item v rest))) m = put m "messages" (list (prefixed s v rest))
  with_prefix s _ m = m

  unfoldable pub system_prefix : String → TransformFunc
  unfolding field_of with_field
  system_prefix s m = with_prefix s (get m "messages") m

  unfoldable pub apply_transforms : List TransformFunc → TransformFunc
  apply_transforms [] m = m
  apply_transforms (f ∷ fs) m = apply_transforms fs (f m)

  abbrev pub cap_of : String → Option ℤ → BadSpec ⊎ TransformFunc
  cap_of arg none = inl (bad_cap arg)
  cap_of arg (some n) = if leb_ℤ n (pos 0) then inl (bad_cap arg) else inr (max_tokens_cap n)

  abbrev pub and_more :
      BadSpec ⊎ TransformFunc → BadSpec ⊎ List TransformFunc → BadSpec ⊎ List TransformFunc
  and_more (inl e) rest = inl e
  and_more (inr f) (inl e) = inl e
  and_more (inr f) (inr fs) = inr (f ∷ fs)

  module _ (atoi : String → Option ℤ) (parse_float : String → Option Float) where
    unfoldable pub parse_scalar : String → Value
    parse_scalar v =
        if v == "true"
        then flag true
        else if v == "false"
        then flag false
        else if v == "null"
        then null
        else elim (parse_float v) [ some f ↦ number f | none ↦ text v ]

    -- One specification, by its name and its argument.
    unfoldable pub parse_spec : String → String → BadSpec ⊎ TransformFunc
    unfolding cut split set_field drop_keys system_prefix max_tokens_cap parse_scalar
    parse_spec name arg =
        let (k, v, ok) = cut b'=' arg in
        if name == "set"
        then if ok
          then if k == "" then inl (bad_set arg) else inr (set_field k (parse_scalar v))
          else inl (bad_set arg)
        else if name == "max_tokens_cap"
        then cap_of arg (atoi arg)
        else if name == "reasoning_effort"
        then if arg == "" then inl no_effort else inr (set_field "reasoning_effort" (text arg))
        else if name == "drop_keys"
        then inr (drop_keys (split b',' arg))
        else if name == "system_prefix"
        then inr (system_prefix arg)
        else inl (unknown_transformer name)

    unfoldable pub parse_transforms : List String → BadSpec ⊎ List TransformFunc
    unfolding cut parse_spec
    parse_transforms [] = inr []
    parse_transforms (spec ∷ specs) =
        let (name, arg, found) = cut b':' spec in
        and_more (parse_spec name arg) (parse_transforms specs)
