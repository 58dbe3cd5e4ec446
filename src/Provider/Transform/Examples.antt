-- ===== src/Provider/Transform/Examples.antt =====
-- Runs of internal/provider/transform.go, with the integers as the floats.
use claude_code_gateway.Prelude.{
  ◌≡◌, refl, String, none, some, Option, List, [], ◌∷◌, inl, inr, if◌then◌else◌, ◌==◌, string_eq,
}
use claude_code_gateway.Prelude.GoMap.{GoMap, get, put, delete}
use claude_code_gateway.Prelude.Int.{ℤ, pos}
use claude_code_gateway.Prelude.Text.{cut, trim_space, trim_left, trim_right}
use claude_code_gateway.Cache.Examples.{integers}
use claude_code_gateway.Provider.Transform.{
  Value, Values, TransformFunc, number, text, list, object, item, no_values, field, no_fields, cut,
  split, set_field, max_tokens_cap, drop_keys, system_prefix, field_of, with_field,
  apply_transforms, parse_scalar, parse_spec, parse_transforms, system_message, no_effort,
}
use claude_code_gateway.Provider.Transform.Untouched.{parse_transforms-touched}

program : Unit {0}
unfolding get put delete trim_space trim_left trim_right cut split set_field max_tokens_cap
    drop_keys system_prefix field_of with_field apply_transforms parse_scalar parse_spec
    parse_transforms
program = tt

-- A number is read if it is one of these.
abbrev read_int : String → Option ℤ
read_int s = if s == "100" then some (pos 100) else if s == "0" then some (pos 0) else none

abbrev specs : List String
specs = "max_tokens_cap:100" ∷ "drop_keys:metadata, user" ∷ "set:top=x=y" ∷ []

abbrev request : GoMap String (Value integers)
request = ("max_tokens", number (pos 200)) ∷ ("user", text "u") ∷ ("messages", list no_values) ∷ []

abbrev changed : GoMap String (Value integers)
changed = ("max_tokens", number (pos 100)) ∷ ("messages", list no_values) ∷ ("top", text "x=y") ∷ []

abbrev funcs : List (TransformFunc integers)
funcs =
    max_tokens_cap integers (pos 100)
    ∷ drop_keys integers ("metadata" ∷ " user" ∷ [])
    ∷ set_field integers "top" (text "x=y")
    ∷ []

parses : parse_transforms integers read_int read_int specs ≡ inr funcs
unfolding program
parses = refl

changes : apply_transforms integers funcs request ≡ changed
unfolding program
changes = refl

no_argument : parse_transforms integers read_int read_int ("reasoning_effort" ∷ []) ≡ inl no_effort
unfolding program
no_argument = refl

abbrev user_says : Values integers
user_says =
    item (object (field "role" (text "user") (field "content" (text "hi") no_fields))) no_values

prefixes :
    system_prefix integers "brief" (("messages", list user_says) ∷ [])
    ≡ ("messages", list (item (system_message integers "brief") user_says)) ∷ []
unfolding program
prefixes = refl

parse_transforms-touched_example :
    get (apply_transforms integers funcs request) "messages" ≡ get request "messages"
unfolding program
parse_transforms-touched_example =
    parse_transforms-touched integers read_int read_int specs funcs request "messages" parses refl
