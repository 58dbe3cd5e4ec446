-- ===== src/Server/Payload/Examples.antt =====
-- Runs of `buildPayload` on a request for Bedrock, with fields joined instead of encoded.
use Prim.Native.String.{◌++◌ as str_append}
use claude_code_gateway.Prelude.{◌≡◌, refl, String, true, none, some, [], ◌∷◌, string_eq}
use claude_code_gateway.Prelude.GoMap.{GoMap, get, put, delete}
use claude_code_gateway.Prelude.Int.{pos}
use claude_code_gateway.Config.Examples.{provider}
use claude_code_gateway.Cache.Examples.{integers}
use claude_code_gateway.Core.Request.{MessagesRequest}
use claude_code_gateway.Provider.Registry.{Target, Upstream}
use claude_code_gateway.Provider.Pool.{new_pool}
use claude_code_gateway.Server.Payload.{
  Json, build_payload, native_fields, native_path, patch_model_body, aws_escape, percent, nth_char,
}
use claude_code_gateway.Server.Payload.Fields.{sent_field, sent_path, build_payload-sent_field}

abbrev joined : GoMap String String → String
joined [] = ""
joined ((k, v) ∷ m) = str_append k (str_append "=" (str_append v (str_append ";" (joined m))))

abbrev fields : GoMap String String
fields = ("model", "claude") ∷ ("metadata", "m") ∷ ("stream", "true") ∷ ("max_tokens", "9") ∷ []

-- Every body has the same fields, and texts are encoded as they are.
abbrev json : Json integers
json = record {
  decode_fields = λ body. some fields;
  encode_fields = joined;
  encode_text = λ s. s;
  as_text = λ s. some s;
  as_blocks = λ s. none;
  as_choice = λ s. none;
  encode_request = λ usage r. some r.model;
  decode_values = λ s. none;
  encode_values = λ m. none;
}

abbrev wanted : MessagesRequest
wanted = record {
  model = "claude";
  max_tokens = pos 100;
  messages = [];
  system = "";
  stream = true;
  tools = [];
  tool_choice = "";
  thinking = "";
}

abbrev of_kind : String → Upstream
of_kind kind = record {
  cfg = record (provider "p" ("b" ∷ [])) { kind = kind; anthropic_version = "v1" };
  pool = new_pool ("b" ∷ []);
  health = record { consec_fails = 0; open_until = 0; inflight = pos 0; latency = 0 };
}

abbrev target : Target
target = record { name = "p"; model = "claude v3:0" }

program : Unit {0}
unfolding build_payload native_fields native_path patch_model_body aws_escape percent nth_char put
    delete get
program = tt

for_bedrock :
    build_payload integers json (λ n k. "") [] "body" wanted (of_kind "bedrock") target
    ≡ some
        ("max_tokens=9;anthropic_version=v1;", "/model/claude%20v3%3A0/invoke-with-response-stream")
unfolding program
for_bedrock = refl

for_vertex :
    build_payload integers json (λ n k. "") [] "body" wanted (of_kind "vertex") target
    ≡ some (
      "stream=true;max_tokens=9;anthropic_version=v1;",
      "/publishers/anthropic/models/claude v3:0:streamRawPredict",
    )
unfolding program
for_vertex = refl

build_payload-sent_field_example :
    (sent : GoMap String String) × (build_payload integers json
        (λ n k. "")
        []
        "body"
        wanted
        (of_kind "bedrock")
        target
      ≡ some (joined sent, sent_path integers json "bedrock" "claude v3:0" true))
    × ((k : String)
        → get sent k ≡ sent_field integers json (of_kind "bedrock") "claude v3:0" fields k)
build_payload-sent_field_example =
    build_payload-sent_field integers json (λ n k. "") [] "body" wanted (of_kind "bedrock") target
      fields refl refl
