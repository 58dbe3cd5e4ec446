-- ===== src/Server/Delivery/Examples.antt =====
-- Runs of the delivery of an answer of internal/server/handlers.go.
use claude_code_gateway.Prelude.{◌≡◌, refl, true, false, [], ◌∷◌, none, some, string_eq}
use claude_code_gateway.Prelude.Int.{pos}
use claude_code_gateway.Prelude.Text.{contains_text, has_prefix, cut_prefix, to_lower, lower_from}
use claude_code_gateway.Core.Collect.{MessageResponse}
use claude_code_gateway.Core.Passthrough.{no_usage}
use claude_code_gateway.Server.Attempts.{Body}
use claude_code_gateway.Server.Delivery.{Codec, Receipt, read, deliver_stream, is_sse_content_type}
use claude_code_gateway.Server.Delivery.Modes.{IsStream, deliver_stream-IsStream}

abbrev reply : MessageResponse
reply = record {
  id = "msg_1";
  model = "m";
  content = record { kind = "text"; text = "hi"; id = ""; name = ""; input = "" } ∷ [];
  stop_reason = "end_turn";
  input_tokens = pos 3;
  output_tokens = pos 4;
  cache_read = pos 0;
  cache_creation = pos 0;
}

abbrev codec : Codec
codec = record {
  chunk = λ s. none;
  event = λ s. none;
  sniffed = λ s. none;
  response = λ s. none;
  message = λ s. some reply;
  usage = λ s. no_usage;
  view = λ s. none;
  valid = λ s. true;
  encode = λ mr. "{}";
  complaint = λ s. "bad";
}

abbrev body : Body
body = record { lines = []; text = "{}"; fault = none }

abbrev receipt : Receipt
receipt = record {
  usage = record {
    input_tokens = pos 3;
    output_tokens = pos 4;
    cache_read = pos 0;
    cache_creation = pos 0;
  };
  resp = "";
}

an_event_stream : is_sse_content_type "Text/Event-Stream; charset=utf-8" ≡ true
unfolding is_sse_content_type contains_text has_prefix cut_prefix to_lower lower_from
an_event_stream = refl

deliver_stream-IsStream_example :
    IsStream (deliver_stream codec (λ r t. false) none (λ n k. "00") "m" read body).written
unfolding deliver_stream
deliver_stream-IsStream_example =
    deliver_stream-IsStream codec (λ r t. false) none (λ n k. "00") "m" read body receipt refl refl
