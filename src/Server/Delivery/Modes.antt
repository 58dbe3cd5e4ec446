-- ===== src/Server/Delivery/Modes.antt =====
-- What a client that asked for a stream is sent, whichever way the answer is passed on.
use claude_code_gateway.Prelude.{
  ℕ, String, Bool, true, false, List, ◌∷◌, map, Option, none, some, ◌≡◌, refl, inl, if◌then◌else◌,
}
use claude_code_gateway.Core.Stream.{Event, translate_stream, final_usage}
use claude_code_gateway.Core.Stream.Closing.{IsWhole}
use claude_code_gateway.Core.Stream.Whole.{translate_stream-IsWhole}
use claude_code_gateway.Core.Collect.{MessageResponse}
use claude_code_gateway.Core.Synthetic.{synthetic_stream}
use claude_code_gateway.Core.Synthetic.Whole.{synthetic_stream-IsWhole}
use claude_code_gateway.Server.Attempts.{Body, whole, Delivery}
use claude_code_gateway.Server.Delivery.{
  Sent, sse_headers, told, Codec, Receipt, Mode, collect_both_ways, translate, collect, pass, read,
  deliver_stream, scanned, retold, read_whole, ended_by, ends, is_fault, fault_text, unless_blocked,
  oai_usage,
}
use claude_code_gateway.Server.Guardrails.{Guardrails, Blocked, check_response}

-- The ways that write events of the gateway's own.
abbrev pub composes : Mode → Bool
composes (collect_both_ways anthropic) = true
composes translate = true
composes collect = true
composes pass = false
composes read = true

-- The headers of a stream and the events of a whole message, and nothing else.
abbrev pub IsStream : List Sent → Type 0
IsStream written = (es : List Event) × (written ≡ sse_headers ∷ map told es) × IsWhole es

-- A delivery that went through is such a stream.
abbrev pub Streams : Delivery Sent Receipt → Type 0
Streams d = (r : Receipt) → d.ending ≡ whole r → IsStream d.written

unless_blocked-Streams :
    (o : Option Blocked) (d : Delivery Sent Receipt) → Streams d → Streams (unless_blocked o d)
unless_blocked-Streams (some why) d s r h = absurd (cc)
unless_blocked-Streams none d s r h = s r h

module _ (codec : Codec) (matches : String → String → Bool) (rails : Option Guardrails)
    (rand_hex : ℕ → ℕ → String) (model : String) where
  as_events-IsStream :
      (mr : MessageResponse) → IsStream (sse_headers ∷ map told (synthetic_stream rand_hex mr))
  as_events-IsStream mr = (synthetic_stream rand_hex mr, refl, synthetic_stream-IsWhole rand_hex mr)

  scanned-Streams :
      (b : Body) (o : Option MessageResponse)
      → Streams (scanned codec matches rails rand_hex model b o)
  scanned-Streams b none r h = absurd (cc)
  scanned-Streams b (some mr) r h =
      unless_blocked-Streams (check_response matches codec.view rails (codec.encode mr)) _
        (λ r' h'. as_events-IsStream mr) r h

  retold-Streams :
      (msg : String) (o : Option MessageResponse)
      → Streams (retold codec matches rails rand_hex model msg o)
  retold-Streams msg none r h = absurd (cc)
  retold-Streams msg (some mr) r h = as_events-IsStream mr

  read_whole-Streams :
      (fault : Option String) (text : String)
      → Streams (read_whole codec matches rails rand_hex model fault text)
  read_whole-Streams (some e) text r h = absurd (cc)
  read_whole-Streams none text r h = retold-Streams (codec.complaint text) (codec.message text) r h

  translated-Streams :
      (lines : List String) (fault : Option String)
      → let t = translate_stream rand_hex codec.chunk lines (is_fault fault) model in
        Streams (record {
          written = sse_headers ∷ map told t.out;
          ending = ended_by fault (record { usage = oai_usage (final_usage t); resp = "" });
        })
  translated-Streams lines (some e) r h = absurd (cc)
  translated-Streams lines none r h =
      let t = translate_stream rand_hex codec.chunk lines false model in
      (t.out, refl, translate_stream-IsWhole rand_hex codec.chunk lines false model (inl refl))

  -- A client that asked for a stream: unless the events of the upstream are passed on as they are, each
  -- delivery that goes through sends the headers of a stream and then the events of one whole
  -- message, which starts once, numbers its blocks one after the other, sends each delta to an open
  -- block of its kind, stops each block once and ends once.
  pub deliver_stream-IsStream :
      (m : Mode) (b : Body) (r : Receipt)
      → composes m ≡ true
      → (deliver_stream codec matches rails rand_hex model m b).ending ≡ whole r
      → IsStream (deliver_stream codec matches rails rand_hex model m b).written
  unfolding deliver_stream
  deliver_stream-IsStream (collect_both_ways anthropic) b r c h = scanned-Streams b _ r h
  deliver_stream-IsStream translate b r c h =
      translated-Streams b.lines (if ends b.lines then none else b.fault) r h
  deliver_stream-IsStream collect b r c h = retold-Streams (fault_text b.fault) _ r h
  deliver_stream-IsStream pass b r c h = absurd (cc)
  deliver_stream-IsStream read b r c h = read_whole-Streams b.fault b.text r h
