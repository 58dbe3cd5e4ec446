-- ===== src/Server/FreeMode.antt =====
-- internal/server/freemode.go and internal/server/wildcard.go: the models that may be asked for where the
-- gateway serves free models only.
use Prim.Native.String.{◌++◌ as str_append}
use claude_code_gateway.Prelude.{
  String, Bool, true, false, not, List, [], ◌∷◌, Option, none, some, if◌then◌else◌, ◌==◌, string_eq,
}
use claude_code_gateway.Prelude.Text.{to_lower, trim_space, has_prefix, cut_star, contains_any}
use claude_code_gateway.Config.{Routing}

-- `HasSuffix(p, "*")` and `HasPrefix(model, TrimSuffix(p, "*"))`
abbrev pub starred : Option String → String → Bool
starred none model = false
starred (some p) model = has_prefix model p

-- `matchWildcard`; its two results are always the same.
unfoldable pub match_wildcard : String → String → Bool
match_wildcard pattern model =
    let p = to_lower (trim_space pattern) in
    let m = to_lower (trim_space model) in
    if p == "" then false else if not (contains_any p "*?") then p == m else starred (cut_star p) m

-- The loop over the free models, for a model in lower case.
unfoldable pub among_free : List String → String → Bool
unfolding match_wildcard
among_free [] lm = false
among_free (f ∷ fs) lm =
    let rest = among_free fs lm in
    let p = to_lower (trim_space f) in
    if p == ""
    then rest
    else if match_wildcard p lm
    then true
    else if starred (cut_star p) lm
    then true
    else if p == lm
    then true
    else rest

-- The message, empty where the model may be used.
unfoldable pub enforce_free_only : Routing → String → String
unfolding among_free
enforce_free_only r model = elim r.free_models [
  | [] ↦ if r.free_only then "free_only is enabled but no free_models are configured" else ""
  | f ∷ fs ↦
      if not r.free_only
      then ""
      else if among_free (f ∷ fs) (to_lower model)
      then ""
      else str_append "model "
          (str_append model " is not in free_models list (free_only mode is on)")
]
