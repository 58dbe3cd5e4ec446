-- ===== src/Server/Payload.antt =====
-- internal/server/handlers.go: the request to the upstream that `handleMessages` builds, its payload and its
-- path, with `AWSEscape` of internal/provider/sigv4.go. Encoding and decoding JSON are parameters; an encoded
-- field is its text.
use Prim.Native.Char.{Char, code}
use Prim.Native.String.{◌++◌ as str_append}
use claude_code_gateway.Prelude.{
  ℕ, zero, suc, ◌/◌, ◌%◌, ◌-◌, String, Bool, true, false, Option, none, some, List, [], ◌∷◌, leb,
  if◌then◌else◌, ◌==◌, string_eq, nat_eq, ◌||◌, ◌&&◌,
}
use claude_code_gateway.Prelude.Floats.{Floats}
use claude_code_gateway.Prelude.GoMap.{GoMap, get, put, delete}
use claude_code_gateway.Prelude.Text.{utf8}
use claude_code_gateway.Core.Request.{
  RequestBlock, MessagesRequest, ToolChoice, ChatRequest, translate_request,
}
use claude_code_gateway.Provider.Registry.{Target, Upstream}
use claude_code_gateway.Provider.Transform.{TransformFunc, Value, apply_transforms}
pub mod Fields
mod Examples

abbrev pub between : ℕ → ℕ → ℕ → Bool
between a b c = leb a c && leb c b

abbrev pub is_unreserved : ℕ → Bool
is_unreserved c =
    between b'A' b'Z' c
    || between b'a' b'z' c
    || between b'0' b'9' c
    || c == b'-'
    || c == b'.'
    || c == b'_'
    || c == b'~'
    || c == b'/'

-- The n-th character, as a text.
unfoldable pub nth_char : String → ℕ → String
nth_char String.[] n = ""
nth_char (String.◌∷◌ c s) n =
    let rest = nth_char s (n - 1) in if n == 0 then String.◌∷◌ c "" else rest

unfoldable pub percent : List ℕ → String
unfolding nth_char
percent [] = ""
percent (b ∷ bs) = str_append "%" (
    str_append (nth_char "0123456789ABCDEF" (b / 16))
      (str_append (nth_char "0123456789ABCDEF" (b % 16)) (percent bs)))

unfoldable pub aws_escape : String → String
unfolding percent
aws_escape String.[] = ""
aws_escape (String.◌∷◌ c s) =
    let rest = aws_escape s in
    if is_unreserved (code c) then String.◌∷◌ c rest else str_append (percent (utf8 (code c))) rest

unfoldable pub native_path : Upstream → String → Bool → String
unfolding aws_escape
native_path u model stream =
    if u.cfg.kind == "bedrock"
    then str_append "/model/" (
        str_append (aws_escape model)
          (if stream then "/invoke-with-response-stream" else "/invoke"))
    else if u.cfg.kind == "vertex"
    then str_append "/publishers/anthropic/models/"
        (str_append model (if stream then ":streamRawPredict" else ":rawPredict"))
    else "/v1/messages"

abbrev pub is_native : String → Bool
is_native kind =
    kind == "anthropic" || kind == "anthropic-compat" || kind == "bedrock" || kind == "vertex"

-- JSON: `encode_request` is given whether the usage of a stream is asked for.
pub record Json (F : Floats) : Type 0 where
  pub decode_fields : String → Option (GoMap String String)
  pub encode_fields : GoMap String String → String
  pub encode_text : String → String
  pub as_text : String → Option String
  pub as_blocks : String → Option (List RequestBlock)
  pub as_choice : String → Option ToolChoice
  pub encode_request : Bool → ChatRequest → Option String
  pub decode_values : String → Option (GoMap String (Value F))
  pub encode_values : GoMap String (Value F) → Option String

module _ (F : Floats) (json : Json F) where
  unfoldable pub patch_model_body : String → String → Option (GoMap String String)
  patch_model_body body model = elim (json.decode_fields body) [
    | none ↦ none
    | some raw ↦ some (put raw "model" (json.encode_text model))
  ]

  abbrev pub with_version : String → GoMap String String → GoMap String String
  with_version version raw = elim (get raw "anthropic_version") [
    | none ↦ put raw "anthropic_version" (json.encode_text version)
    | some v ↦ raw
  ]

  -- The fields of a request in Anthropic's protocol, by the type of the provider.
  unfoldable pub native_fields : Upstream → GoMap String String → GoMap String String
  native_fields u raw =
      if u.cfg.kind == "bedrock"
      then with_version u.cfg.anthropic_version
          (delete (delete (delete raw "model") "stream") "metadata")
      else if u.cfg.kind == "vertex"
      then with_version u.cfg.anthropic_version (delete (delete raw "model") "metadata")
      else raw

  -- What the transformers make of an encoded request that decodes.
  abbrev pub transformed : List (TransformFunc F) → String → Option String
  transformed [] out = some out
  transformed (f ∷ fs) out = elim (json.decode_values out) [
    | none ↦ some out
    | some m ↦ json.encode_values (apply_transforms F (f ∷ fs) m)
  ]

  abbrev pub to_path : String → Option String → Option (String × String)
  to_path path none = none
  to_path path (some out) = some (out, path)

  abbrev pub transform_all : List (TransformFunc F) → Option String → Option String
  transform_all tfs none = none
  transform_all tfs (some out) = transformed tfs out

  abbrev pub request_text : Upstream → Bool → Option ChatRequest → Option String
  request_text u stream none = none
  request_text u stream (some cr) = json.encode_request (stream && u.cfg.send_stream_options) cr

  abbrev pub native_payload :
      Upstream → String → Bool → Option (GoMap String String) → Option (String × String)
  native_payload u model stream none = none
  native_payload u model stream (some raw) =
      some (json.encode_fields (native_fields u raw), native_path u model stream)

  -- The payload and the path, or `none` for an error.
  unfoldable pub build_payload :
      (ℕ → ℕ → String)
      → List (TransformFunc F)
      → String
      → MessagesRequest
      → Upstream
      → Target
      → Option (String × String)
  unfolding patch_model_body native_fields native_path translate_request apply_transforms
  build_payload rand tfs body m u tg =
      if is_native u.cfg.kind
      then native_payload u tg.model m.stream (patch_model_body body tg.model)
      else to_path "/v1/chat/completions" (
          transform_all tfs (
            request_text u m.stream
              (translate_request json.as_text json.as_blocks rand json.as_choice m tg.model)))
