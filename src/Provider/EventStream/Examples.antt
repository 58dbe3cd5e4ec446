-- ===== src/Provider/EventStream/Examples.antt =====
-- Runs of internal/provider/eventstream.go on a short stream.
use claude_code_gateway.Prelude.{
  ◌≡◌, refl, inl, inr, arith, String, false, some, none, [], ◌∷◌, take,
}
use claude_code_gateway.Provider.EventStream.{
  broken, exception, bytes_of, bedrock_body, split_at, read_headers, value_of, sized_value, skip_of,
  next_frame, frame_of, body_from, truncate_bytes,
}
use claude_code_gateway.Provider.EventStream.Wire.{
  Header, Checksum, Message, message_bytes, stream_bytes, said,
}
use claude_code_gateway.Provider.EventStream.Body.{bedrock_body-stream_bytes}
use claude_code_gateway.Provider.EventStream.Reader.{Reader, gave, read_body, read_from}
use claude_code_gateway.Provider.EventStream.Reader.Pieces.{IsPiece, read_body-IsPiece}

program : Unit {0}
unfolding bedrock_body split_at read_headers value_of sized_value skip_of next_frame frame_of
    body_from truncate_bytes bytes_of read_body read_from
program = tt

abbrev text_header : String → String → Header
unfolding bytes_of
text_header name value = record { name = bytes_of name; kind = 7; value = bytes_of value }

abbrev no_sum : Checksum
no_sum = record { a = 0; b = 0; c = 0; d = 0 }

-- The second header is a number of four bytes.
abbrev event : String → Message
unfolding bytes_of
event text = record {
  headers =
      text_header ":message-type" "event"
      ∷ record { name = bytes_of "n"; kind = 4; value = 1 ∷ 2 ∷ 3 ∷ 4 ∷ [] }
      ∷ [];
  payload = bytes_of text;
  head_sum = no_sum;
  sum = no_sum;
}

abbrev failed : Message
unfolding bytes_of
failed = record {
  headers = text_header ":message-type" "exception" ∷ [];
  payload = bytes_of "busy";
  head_sum = no_sum;
  sum = no_sum;
}

cut_off :
    bedrock_body
      (λ payload. none)
      (λ text. none)
      none
      (stream_bytes (event "data: " ∷ event "one" ∷ []) (take 20 (message_bytes (event "two"))))
    ≡ (bytes_of "data: one", none)
unfolding program
cut_off = refl

stops_at_exception :
    bedrock_body
      (λ payload. none)
      (λ text. none)
      none
      (stream_bytes (event "one" ∷ failed ∷ event "two" ∷ []) [])
    ≡ (bytes_of "one", some (exception (bytes_of "busy")))
unfolding program
stops_at_exception = refl

bad_prelude :
    bedrock_body
      (λ payload. none)
      (λ text. none)
      none
      (0 ∷ 0 ∷ 0 ∷ 15 ∷ 0 ∷ 0 ∷ 0 ∷ 0 ∷ 0 ∷ 0 ∷ 0 ∷ 0 ∷ [])
    ≡ ([], some (broken "eventstream: bad frame prelude"))
unfolding program
bad_prelude = refl

bedrock_body-stream_bytes_example :
    bedrock_body
      (λ payload. none)
      (λ text. none)
      none
      (stream_bytes (event "one" ∷ failed ∷ []) (take 20 (message_bytes (event "two"))))
    ≡ said (λ payload. none) (λ text. none) (event "one" ∷ failed ∷ [])
unfolding event
bedrock_body-stream_bytes_example =
    bedrock_body-stream_bytes (λ payload. none) (λ text. none) (event "one" ∷ failed ∷ [])
      (event "two") 20
      ((inl refl, (inr (inr (inr (inr (inr (inl refl))))), tt)), ((inl refl, tt), tt)) (omega arith)

abbrev start : Reader
start = record { src = stream_bytes (event "one" ∷ []) []; buf = []; eof = false }

two_bytes : (read_body (λ payload. none) (λ text. none) none 2 start).1 ≡ gave (bytes_of "on")
unfolding program
two_bytes = refl

read_body-IsPiece_example :
    IsPiece
      (λ payload. none)
      (λ text. none)
      none
      start
      (read_body (λ payload. none) (λ text. none) none 2 start)
read_body-IsPiece_example = read_body-IsPiece (λ payload. none) (λ text. none) none 2 start
