-- ===== src/Server/Delivery.antt =====
-- internal/server/handlers.go: how `handleMessages` passes the answer of an upstream on, by the kind of
-- provider, the type of the content and whether the client asked for a stream; with `isSSEContentType`.
-- The body of a stream of AWS events is given as what `BedrockBody` makes of it. The text of a body is what
-- `io.ReadAll` gives of the reader that stops after `maxResponseBytes`, so that a longer one is cut off
-- without an error; its lines are read without that limit. Keepalive comments are left out. Encoding and decoding JSON are parameters.
pub mod Modes
mod Examples
use claude_code_gateway.Prelude.{
  ℕ, String, Bool, true, false, not, ◌&&◌, ◌||◌, List, [], ◌∷◌, ◌++◌, map, Option, none, some,
  if◌then◌else◌, ◌==◌, string_eq,
}
use claude_code_gateway.Prelude.Int.{ℤ, pos}
use claude_code_gateway.Prelude.Text.{to_lower, contains_text}
use claude_code_gateway.Core.Stream.{
  Event, OaiChunk, OaiUsage, Translator, translate_stream, final_usage, read_line, Line, skipped,
  done, payload,
}
use claude_code_gateway.Core.Collect.{MessageResponse, collect_openai}
use claude_code_gateway.Core.Collect.Anthropic.{AnthEvent, Usage, collect_anthropic}
use claude_code_gateway.Core.Synthetic.{synthetic_stream}
use claude_code_gateway.Core.Passthrough.{Sniffed, no_usage, passthrough}
use claude_code_gateway.Core.Respond.{ChatResponse, translate_response}
use claude_code_gateway.Provider.Registry.{Upstream}
use claude_code_gateway.Server.Attempts.{
  Body, ExecResult, Ending, whole, cut_off, withheld, Delivery,
}
use claude_code_gateway.Server.Guardrails.{
  Guardrails, ViewBlock, Blocked, check_response, stream_scan_enabled,
}

-- What is written to the client.
pub data Sent : Type 0 where
  sse_headers : Sent
  told : Event → Sent
  raw : String → Sent
  json : ℕ → String → Sent
  error : ℕ → String → Sent

-- The use of encoding/json, for each type that is decoded.
pub record Codec : Type 0 where
  pub chunk : String → Option OaiChunk
  pub event : String → Option AnthEvent
  pub sniffed : String → Option Sniffed
  pub response : String → Option ChatResponse
  pub message : String → Option MessageResponse
  pub usage : String → Usage
  pub view : String → Option (List ViewBlock)
  pub valid : String → Bool
  pub encode : MessageResponse → String
  pub complaint : String → String

-- The usage of an answer, and its bytes where they are known.
pub record Receipt : Type 0 where
  pub usage : Usage
  pub resp : String

unfoldable pub is_sse_content_type : String → Bool
is_sse_content_type h = contains_text (to_lower h) "text/event-stream"

-- How an answer is passed on.
pub data Mode : Type 0 where
  collect_both_ways : Bool → Mode
  translate : Mode
  collect : Mode
  pass : Mode
  read : Mode

-- The cases of a stream; `scan` tells whether the guardrails look at answers.
unfoldable pub stream_mode : Bool → Bool → Bool → Mode
stream_mode scan openai sse =
    if scan
    then collect_both_ways (not openai && sse)
    else if openai && sse
    then translate
    else if openai
    then collect
    else if sse
    then pass
    else read

abbrev pub usage_of : MessageResponse → Usage
usage_of mr = record {
  input_tokens = mr.input_tokens;
  output_tokens = mr.output_tokens;
  cache_read = mr.cache_read;
  cache_creation = mr.cache_creation;
}

abbrev pub oai_usage : OaiUsage → Usage
oai_usage u = record no_usage {
  input_tokens = u.prompt_tokens;
  output_tokens = u.completion_tokens;
}

-- Whether a line ends the stream, so that no later fault is seen.
abbrev pub ends : List String → Bool
ends [] = false
ends (l ∷ ls) = elim (read_line l) [ done ↦ true | skipped ↦ ends ls | payload p ↦ ends ls ]

abbrev pub is_fault : Option String → Bool
is_fault none = false
is_fault (some e) = true

abbrev pub fault_text : Option String → String
fault_text none = ""
fault_text (some e) = e

abbrev pub ended_by : Option String → Receipt → Ending Receipt
ended_by none r = whole r
ended_by (some e) r = cut_off e

abbrev pub failure : List Sent → String → Delivery Sent Receipt
failure written msg = record { written = written; ending = cut_off msg }

abbrev pub success : List Sent → Usage → String → Delivery Sent Receipt
success written u resp = record {
  written = written;
  ending = whole (record { usage = u; resp = resp });
}

abbrev pub blocked_error : Sent
blocked_error = error 400 "invalid_request_error"

-- An answer is sent unless the guardrails object.
abbrev pub unless_blocked : Option Blocked → Delivery Sent Receipt → Delivery Sent Receipt
unless_blocked (some why) d = record { written = blocked_error ∷ []; ending = withheld }
unless_blocked none d = d

-- `rand_hex` gives the random digits of this answer, `model` is the target's.
module _ (codec : Codec) (matches : String → String → Bool) (rails : Option Guardrails)
    (rand_hex : ℕ → ℕ → String) (model : String) where
  abbrev pub as_events : MessageResponse → List Sent
  as_events mr = map told (synthetic_stream rand_hex mr)

  abbrev pub collected : Bool → Body → Option MessageResponse
  collected anthropic b =
      if anthropic
      then collect_anthropic codec.valid rand_hex codec.event b.lines (is_fault b.fault)
      else collect_openai rand_hex codec.chunk codec.valid b.lines (is_fault b.fault)

  -- An answer that is scanned before anything is written.
  abbrev pub scanned : Body → Option MessageResponse → Delivery Sent Receipt
  scanned b none = failure [] (fault_text b.fault)
  scanned b (some mr) =
      let resp = codec.encode mr in
      unless_blocked (check_response matches codec.view rails resp)
        (success (sse_headers ∷ as_events mr) (usage_of mr) resp)

  -- A message that is told as a stream; `msg` is the error where there is none.
  abbrev pub retold : String → Option MessageResponse → Delivery Sent Receipt
  retold msg none = failure (sse_headers ∷ []) msg
  retold msg (some mr) = success (sse_headers ∷ as_events mr) (usage_of mr) ""

  abbrev pub read_whole : Option String → String → Delivery Sent Receipt
  read_whole (some e) text = failure (sse_headers ∷ []) e
  read_whole none text = retold (codec.complaint text) (codec.message text)

  unfoldable pub deliver_stream : Mode → Body → Delivery Sent Receipt
  deliver_stream (collect_both_ways anthropic) b = scanned b (collected anthropic b)
  deliver_stream translate b =
      let fault : Option String = if ends b.lines then none else b.fault in
      let t = translate_stream rand_hex codec.chunk b.lines (is_fault fault) model in
      record {
        written = sse_headers ∷ map told t.out;
        ending = ended_by fault (record { usage = oai_usage (final_usage t); resp = "" });
      }
  deliver_stream collect b = retold (fault_text b.fault) (collected false b)
  deliver_stream pass b =
      let (lines, u) = passthrough codec.sniffed b.lines no_usage in
      record {
        written = sse_headers ∷ map raw lines;
        ending = ended_by b.fault (record { usage = u; resp = "" });
      }
  deliver_stream read b = read_whole b.fault b.text

  -- An answer in one piece, once its bytes are known.
  abbrev pub checked : Usage → String → Delivery Sent Receipt
  checked u resp =
      unless_blocked (check_response matches codec.view rails resp)
        (success (json 200 resp ∷ []) u resp)

  abbrev pub encoded : String → Option MessageResponse → Delivery Sent Receipt
  encoded msg none = failure [] msg
  encoded msg (some mr) = checked (usage_of mr) (codec.encode mr)

  abbrev pub translated : Option ChatResponse → Option MessageResponse
  translated none = none
  translated (some cr) = some (translate_response rand_hex cr model)

  unfoldable pub deliver_message : Bool → Bool → Body → Delivery Sent Receipt
  deliver_message openai sse b =
      let whole_text : Delivery Sent Receipt = elim b.fault [
        | some e ↦ failure [] e
        | none ↦
            if openai
            then encoded (codec.complaint b.text) (translated (codec.response b.text))
            else checked (codec.usage b.text) b.text
      ] in
      if sse then encoded (fault_text b.fault) (collected (not openai) b) else whole_text

  unfoldable pub deliver : Bool → Upstream → ExecResult → Delivery Sent Receipt
  unfolding stream_mode is_sse_content_type deliver_stream deliver_message
  deliver stream u r =
      let openai = u.cfg.kind == "openai" in
      let sse = is_sse_content_type r.content_type in
      if stream
      then deliver_stream (stream_mode (stream_scan_enabled rails) openai sse) r.body
      else deliver_message openai sse r.body
