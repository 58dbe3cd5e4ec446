-- ===== src/Provider/EventStream/Body.antt =====
-- What is read of a whole stream, and of one that is cut off.
use claude_code_gateway.Prelude.{
  ℕ, zero, suc, ◌+◌, ◌-◌, ◌≤◌, ◌<◌, ◌≡◌, refl, sym, subst, String, Option, none, List, [], ◌∷◌,
  ◌++◌, inl, inr, length, take, ltb, arith, All, Bool-cases, length-append, ltb→lt,
}
use claude_code_gateway.Provider.EventStream.{
  stop, Fault, told, next_frame, body_from, bedrock_body, short, frame_sized,
}
use claude_code_gateway.Provider.EventStream.Wire.{
  IsHeader, Message, header_bytes, prelude_bytes, rest_bytes, message_bytes, stream_bytes, said,
  total_of,
}
use claude_code_gateway.Provider.EventStream.Heard.{and_then-heard}
use claude_code_gateway.Provider.EventStream.Reading.{
  split_at-short, take-more, length-take_le, be32-bytes, not_ltb, length-rest_bytes,
  next_frame-bytes,
}

abbrev pub IsWritten : Message → Type 0
IsWritten m = All IsHeader m.headers

told-short : (src : List ℕ) → told (short none src) ≡ none
told-short [] = refl
told-short (b ∷ src) = refl

length-stream_bytes :
    (ms : List Message) (rest : List ℕ) → length ms ≤ length (stream_bytes ms rest)
length-stream_bytes [] rest = omega arith
length-stream_bytes (m ∷ ms) rest = omega (
  arith,
  length-append (prelude_bytes m) (rest_bytes m ++ stream_bytes ms rest),
  length-append (rest_bytes m) (stream_bytes ms rest),
  length-stream_bytes ms rest,
)

module _ (decode : List ℕ → Option String) (base64 : String → Option (List ℕ)) where
  -- A frame that is cut off ends the stream.
  abbrev pub IsEnd : List ℕ → Type 0
  IsEnd src = (e : Fault) × (next_frame decode base64 none src ≡ stop e) × (told e ≡ none)

  frame_sized-cut :
      (m : Message) (src : List ℕ)
      → length src < total_of m - 12
      → frame_sized decode base64 none (total_of m) (length (header_bytes m.headers)) src
        ≡ stop (short none src)
  frame_sized-cut m src h = rw (not_ltb (total_of m) 16 (omega arith)) (
      rw (not_ltb (total_of m - 16) (length (header_bytes m.headers)) (omega arith))
        (rw (split_at-short (total_of m - 12) src h) refl))

  next_frame-head_cut : (src : List ℕ) → length src < 12 → IsEnd src
  unfolding next_frame
  next_frame-head_cut src h = (short none src, rw (split_at-short 12 src h) refl, told-short src)

  next_frame-rest_cut :
      (m : Message) (src : List ℕ) → length src < total_of m - 12 → IsEnd (prelude_bytes m ++ src)
  unfolding next_frame
  next_frame-rest_cut m src h = (
    short none src,
    rw (be32-bytes (total_of m))
        (rw (be32-bytes (length (header_bytes m.headers))) (frame_sized-cut m src h)),
    told-short src,
  )

  message_bytes-cut :
      (m : Message) (cut : ℕ) → cut < length (message_bytes m) → IsEnd (take cut (message_bytes m))
  message_bytes-cut m cut h = elim (Bool-cases (ltb cut 12)) [
    | inl few ↦
        next_frame-head_cut (take cut (message_bytes m))
          (omega (arith, length-take_le cut (message_bytes m), ltb→lt cut 12 few))
    | inr many ↦
        let on : cut ≡ length (prelude_bytes m) + (cut - 12) = ground (arith, many) in
        subst IsEnd (sym (take-more cut (cut - 12) (prelude_bytes m) (rest_bytes m) on)) (
          next_frame-rest_cut m (take (cut - 12) (rest_bytes m)) (
            omega (
              arith,
              length-take_le (cut - 12) (rest_bytes m),
              length-append (prelude_bytes m) (rest_bytes m),
              length-rest_bytes m,
            )))
  ]

  body_from-stream_bytes :
      (ms : List Message) (fuel : ℕ) (tail : List ℕ)
      → All IsWritten ms
      → IsEnd tail
      → length ms < fuel
      → body_from decode base64 none fuel (stream_bytes ms tail) ≡ said decode base64 ms
  unfolding body_from
  body_from-stream_bytes ms zero tail ok end h = absurd (omega arith)
  body_from-stream_bytes [] (suc fuel) tail ok (e, stops, clean) h = rw stops (rw clean refl)
  body_from-stream_bytes (m ∷ ms) (suc fuel) tail ok end h =
      rw (next_frame-bytes decode base64 none m (stream_bytes ms tail) ok.0) (
        and_then-heard decode base64 m (stream_bytes ms tail) (body_from decode base64 none fuel)
          (said decode base64 ms) (body_from-stream_bytes ms fuel tail ok.1 end (omega arith)))

  -- A stream of messages that were written in the format, of any headers and payloads, is read as what
  -- the messages say up to the first exception, which is the error that the body ends in; without an
  -- exception it ends without an error, even where it is cut off before the last byte of a further
  -- message.
  pub bedrock_body-stream_bytes :
      (ms : List Message) (m : Message) (cut : ℕ)
      → All IsWritten ms
      → cut < length (message_bytes m)
      → bedrock_body decode base64 none (stream_bytes ms (take cut (message_bytes m)))
        ≡ said decode base64 ms
  unfolding bedrock_body
  bedrock_body-stream_bytes ms m cut ok h =
      body_from-stream_bytes ms (length (stream_bytes ms (take cut (message_bytes m))) + 1)
        (take cut (message_bytes m)) ok (message_bytes-cut m cut h)
        (omega (arith, length-stream_bytes ms (take cut (message_bytes m))))
