-- ===== src/Server/Gate.antt =====
-- internal/server/server.go and internal/server/handlers.go: who may use the gateway, and the tests that a
-- request to `handleMessages` passes before a target is chosen. Decoding a body, the clock and what is outside
-- the program are parameters, as in the parts that are put together here.
pub mod Meanings
pub mod Admitted
mod Examples
use Prim.Native.String.{len, slice, ◌++◌ as str_append}
use claude_code_gateway.Prelude.{
  ℕ, String, Bool, true, false, not, ◌&&◌, List, [], ◌∷◌, map, Option, none, some, ltb, leb,
  if◌then◌else◌, ◌==◌, string_eq,
}
use claude_code_gateway.Prelude.Floats.{Floats}
use claude_code_gateway.Prelude.GoMap.{GoMap, get}
use claude_code_gateway.Prelude.Int.{ℤ, pos}
use claude_code_gateway.Prelude.Text.{cut_prefix, trim_space}
use claude_code_gateway.Config.{Routing}
use claude_code_gateway.Core.Request.{MessagesRequest, RequestBlock, ToolDef}
use claude_code_gateway.Core.Request.Estimate.{
  request_traits, request_flat_text, estimate_request_tokens, redact_request_text,
}
use claude_code_gateway.RateLimit.{Limiter, allow, allow_tokens}
use claude_code_gateway.Server.Budget.{
  Calendar, ClientInfo, Budgets, exceeded, allows_model, client_of,
}
use claude_code_gateway.Server.Guardrails.{Guardrails, Blocked, check_request, redact}
use claude_code_gateway.Server.FreeMode.{enforce_free_only}
use claude_code_gateway.State.{Store}

-- What a request shows of its sender, and its body.
pub record Incoming : Type 0 where
  pub is_post : Bool
  pub api_key : String
  pub authorization : String
  pub query_token : String
  pub body : Option String

abbrev pub bearer : Option String → Option String → String
bearer (some t) other = trim_space t
bearer none (some t) = trim_space t
bearer none none = ""

unfoldable pub extract_token : Incoming → String
extract_token r =
    if r.api_key == ""
    then if ltb 7 (len r.authorization)
      then bearer (cut_prefix r.authorization "Bearer ") (cut_prefix r.authorization "bearer ")
      else ""
    else r.api_key

abbrev pub known : Option (Unit {0}) → String → Option String
known none token = none
known (some _) token = some token

-- `checkAuth`; the tokens of the configuration are the keys of a map.
unfoldable pub check_auth : GoMap String (Unit {0}) → Bool → Incoming → Option String
unfolding extract_token
check_auth tokens allow_anon r =
    let token = if extract_token r == "" then r.query_token else extract_token r in
    if token == "" && allow_anon then some "anon" else known (get tokens token) token

unfoldable pub mask_token : String → String
mask_token t =
    if leb (len t) 10
    then str_append (slice t 0 (if ltb (len t) 3 then len t else 3)) "***"
    else str_append (slice t 0 10) "..."

-- How a request is refused, with the status of the answer, in the order of the tests.
pub data Refusal : Type 0 where
  not_post : Refusal
  no_auth : Refusal
  rate_limited : Refusal
  budget_spent : Refusal
  unreadable : Refusal
  malformed : Refusal
  guarded : Blocked → Refusal
  model_denied : Refusal
  not_free : String → Refusal
  tokens_limited : Refusal

abbrev pub status_of : Refusal → ℕ
status_of not_post = 405
status_of no_auth = 401
status_of rate_limited = 429
status_of budget_spent = 429
status_of unreadable = 400
status_of malformed = 400
status_of (guarded b) = 400
status_of model_denied = 403
status_of (not_free msg) = 403
status_of tokens_limited = 429

-- A request that may be sent on: its sender, the request as it is sent on, and its traits.
pub record Admission : Type 0 where
  pub token : String
  pub request : MessagesRequest
  pub est : ℕ
  pub has_image : Bool
  pub thinking : Bool

-- What decodes and encodes JSON and matches patterns.
pub record Tools : Type 0 where
  pub decode : String → Option MessagesRequest
  pub as_text : String → Option String
  pub as_blocks : String → Option (List RequestBlock)
  pub as_kind : String → Option String
  pub encode_text : String → String
  pub encode_blocks : List RequestBlock → String
  pub matches : String → String → Bool
  pub replace : String → String → String
  pub glob : String → String → Option Bool
  pub digest : String → String

module _ (F : Floats) {S : Type 0} (store : Store F S) (cal : Calendar) (t : Tools) where
  -- What the tests look at and change.
  pub record Gate : Type 0 where
    pub tokens : GoMap String (Unit {0})
    pub allow_anon : Bool
    pub limiter : Limiter F store
    pub budgets : Budgets F S
    pub rails : Option Guardrails
    pub routing : Routing

  abbrev pub redacted : Option Guardrails → MessagesRequest → MessagesRequest
  redacted none m = m
  redacted (some g) m = elim g.pii_re [
    | [] ↦ m
    | r ∷ rs ↦
        redact_request_text t.as_text t.as_blocks t.encode_text t.encode_blocks
          (redact t.replace (r ∷ rs)) m
  ]

  abbrev pub refused_by : Option Guardrails → MessagesRequest → Option Blocked
  refused_by rails m =
      check_request t.matches rails (map (λ (d : ToolDef). d.name) m.tools)
        (request_flat_text t.as_text t.as_blocks m)
        (pos (estimate_request_tokens t.as_text t.as_blocks m))

  -- The test of the tokens in a minute, by the client's limit.
  abbrev pub admit_tokens :
      String → ℕ → MessagesRequest → Gate → Gate × Option Refusal × Option Admission
  admit_tokens token now m g =
      let (est, has_image, thinking) = request_traits t.as_text t.as_blocks t.as_kind m in
      let (b, ci, spent, over) = exceeded F cal t.digest store token now g.budgets in
      let (l, ok) = allow_tokens F store token (pos est) ci.tpm now g.limiter in
      let g' = record g { budgets = b; limiter = l } in
      if ok
      then (
        g',
        none,
        some (record {
          token = token;
          request = m;
          est = est;
          has_image = has_image;
          thinking = thinking;
        }),
      )
      else (g', some tokens_limited, none)

  -- The tests of the decoded request; `free` is the answer of `enforceFreeOnly`.
  abbrev pub admit_model :
      String → ℕ → MessagesRequest → Gate → Gate × Option Refusal × Option Admission
  admit_model token now m g =
      let free = enforce_free_only g.routing m.model in
      if not (allows_model F t.glob token m.model g.budgets)
      then (g, some model_denied, none)
      else if not (free == "")
      then (g, some (not_free free), none)
      else admit_tokens token now m g

  abbrev pub admit_guarded :
      Option Blocked
      → String
      → ℕ
      → MessagesRequest
      → Gate
      → Gate × Option Refusal × Option Admission
  admit_guarded (some why) token now m g = (g, some (guarded why), none)
  admit_guarded none token now m g = admit_model token now m g

  abbrev pub admit_request :
      Option MessagesRequest → String → ℕ → Gate → Gate × Option Refusal × Option Admission
  admit_request none token now g = (g, some malformed, none)
  admit_request (some m) token now g =
      let m' = redacted g.rails m in
      if m.model == ""
      then (g, some malformed, none)
      else admit_guarded (refused_by g.rails m') token now m' g

  abbrev pub admit_body :
      Option String → String → ℕ → Gate → Gate × Option Refusal × Option Admission
  admit_body none token now g = (g, some unreadable, none)
  admit_body (some body) token now g = admit_request (t.decode body) token now g

  -- The tests of the sender; each reads the clock.
  abbrev pub admit_sender :
      Option String → Option String → ℕ → Gate → Gate × Option Refusal × Option Admission
  admit_sender none body now g = (g, some no_auth, none)
  admit_sender (some token) body now g =
      let (l, ok) = allow F store token now g.limiter in
      let (b, ci, spent, over) = exceeded F cal t.digest store token now g.budgets in
      if not ok
      then (record g { limiter = l }, some rate_limited, none)
      else if over
      then (record g { limiter = l; budgets = b }, some budget_spent, none)
      else admit_body body token now (record g { limiter = l; budgets = b })

  -- The tests of `handleMessages`, all at one reading of the clock.
  unfoldable pub admit : Incoming → ℕ → Gate → Gate × Option Refusal × Option Admission
  unfolding check_auth
  admit r now g =
      if r.is_post
      then admit_sender (check_auth g.tokens g.allow_anon r) r.body now g
      else (g, some not_post, none)
