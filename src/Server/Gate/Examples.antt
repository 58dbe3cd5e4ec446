-- ===== src/Server/Gate/Examples.antt =====
-- Runs of the tests of internal/server/handlers.go, with integers for money.
use claude_code_gateway.Prelude.{
  ℕ, ◌*◌, ◌≡◌, refl, String, true, false, [], ◌∷◌, none, some, string_eq,
}
use claude_code_gateway.Prelude.GoMap.{get, put}
use claude_code_gateway.Prelude.Int.{pos, ◌+ℤ◌}
use claude_code_gateway.Prelude.Text.{cut_prefix, trim_space, trim_left, trim_right}
use claude_code_gateway.Prelude.Time.{second}
use claude_code_gateway.Cache.Examples.{integers}
use claude_code_gateway.Config.Examples.{small}
use claude_code_gateway.Core.Request.{
  MessagesRequest, blocks_from_raw, system_text, flatten_content, flat_texts, texts_in, join,
}
use claude_code_gateway.Core.Request.Estimate.{
  request_traits, request_flat_text, estimate_request_tokens, redact_request_text, messages_text,
  blocks_text, messages_cost, blocks_cost, any_message_image, any_image, redact_messages,
  redact_blocks, redact_block,
}
use claude_code_gateway.RateLimit.{
  new, allow, allow_tokens, allow_local, allow_tokens_local, bucket_of,
}
use claude_code_gateway.Server.Budget.{
  Calendar, exceeded, spent_for, allows_model, match_any_pattern, period_key_now, budget_key,
}
use claude_code_gateway.Server.FreeMode.{enforce_free_only, among_free}
use claude_code_gateway.Server.Gate.{
  Incoming, Admission, Tools, Gate, admit, check_auth, extract_token, no_auth,
}
use claude_code_gateway.Server.Gate.Admitted.{IsAdmitted, admit-IsAdmitted}
use claude_code_gateway.Server.Guardrails.{check_request, denied_tool, first_match, redact}
use claude_code_gateway.State.{Store}

program : Unit {0}
unfolding admit check_auth extract_token allow allow_tokens allow_local allow_tokens_local bucket_of
    exceeded spent_for allows_model match_any_pattern period_key_now budget_key enforce_free_only
    among_free check_request denied_tool first_match redact request_traits request_flat_text
    estimate_request_tokens redact_request_text messages_text blocks_text messages_cost blocks_cost
    any_message_image any_image redact_messages redact_blocks redact_block blocks_from_raw
    system_text flatten_content flat_texts texts_in join get put cut_prefix trim_space trim_left
    trim_right ◌+ℤ◌
program = tt

abbrev no_store : Store integers (Unit {0})
no_store = record {
  incr_window = λ now k ttl d s. (s, none);
  incr_float = λ now k d s. (s, none);
  get_float = λ now k s. (s, none);
}

abbrev calendar : Calendar
calendar = record { day = λ t. "day"; week = λ t. "week"; month = λ t. "month" }

abbrev ask : MessagesRequest
ask = record {
  model = "claude-x";
  max_tokens = pos 100;
  messages = record { role = "user"; content = "hello there" } ∷ [];
  system = "";
  stream = false;
  tools = [];
  tool_choice = "";
  thinking = "";
}

abbrev tools : Tools
tools = record {
  decode = λ s. some ask;
  as_text = λ s. some s;
  as_blocks = λ s. none;
  as_kind = λ s. none;
  encode_text = λ s. s;
  encode_blocks = λ bs. "[]";
  matches = λ r s. false;
  replace = λ r s. s;
  glob = λ p s. none;
  digest = λ s. s;
}

abbrev gate : Gate integers no_store calendar tools
unfolding new
gate = record {
  tokens = ("tok", tt) ∷ [];
  allow_anon = false;
  limiter = new integers no_store (pos 2);
  budgets = record {
    info =
        (
          "tok",
          record { name = "dima"; limit = pos 50; period = ""; allowed_models = []; tpm = pos 100 },
        )
        ∷ [];
    states = [];
    store = none;
    runtime_changed = false;
  };
  rails = none;
  routing = small.routing;
}

abbrev post : String → Incoming
post key = record {
  is_post = true;
  api_key = "";
  authorization = key;
  query_token = "";
  body = some "{}";
}

abbrev now : ℕ
now = 64_000_000_000 * second

unknown_sender :
    (admit integers no_store calendar tools (post "Bearer other") now gate).1 ≡ some no_auth
unfolding program gate
unknown_sender = refl

abbrev admission : Admission
admission = record { token = "tok"; request = ask; est = 11; has_image = false; thinking = false }

admitted : (admit integers no_store calendar tools (post "Bearer tok") now gate).2 ≡ some admission
unfolding program gate
admitted = refl

admit-IsAdmitted_example :
    IsAdmitted integers no_store calendar tools (post "Bearer tok") now gate admission
admit-IsAdmitted_example =
    admit-IsAdmitted integers no_store calendar tools (post "Bearer tok") now gate admission
      admitted
