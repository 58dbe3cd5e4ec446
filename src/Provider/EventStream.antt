-- ===== src/Provider/EventStream.antt =====
-- internal/provider/eventstream.go: the frames of an AWS event stream, and the body that is made of their
-- payloads. Bytes are numbers. Decoding JSON and base64 are parameters. The checksums of a frame are
-- skipped, as the code does; the number of an unknown type of headers is left out of its error. `Read` fills a buffer from frame to frame; here is what all its calls give.
use Prim.Native.Char.{code}
use claude_code_gateway.Prelude.{
  ℕ, zero, suc, ◌+◌, ◌-◌, ◌*◌, String, Bool, true, false, ◌||◌, not, Option, none, some, List, [],
  ◌∷◌, ◌++◌, ◌⊎◌, inl, inr, length, take, drop, ltb, leb, ◌==◌, nat_eq, if◌then◌else◌,
}
pub mod Wire
pub mod Reading
pub mod Heard
pub mod Body
pub mod Reader
mod Examples

-- The error that ends the reading of the upstream, or of the frames.
pub data Fault : Type 0 where
  eof : Fault
  unexpected_eof : Fault
  broken : String → Fault
  exception : List ℕ → Fault

unfoldable pub bytes_of : String → List ℕ
bytes_of String.[] = []
bytes_of (String.◌∷◌ c s) = code c ∷ bytes_of s

abbrev pub same_bytes : List ℕ → List ℕ → Bool
same_bytes [] [] = true
same_bytes [] (b ∷ bs) = false
same_bytes (a ∷ as') [] = false
same_bytes (a ∷ as') (b ∷ bs) = if a == b then same_bytes as' bs else false

-- The first bytes and the others, where there are as many.
unfoldable pub split_at : ℕ → List ℕ → Option (List ℕ × List ℕ)
split_at zero xs = some ([], xs)
split_at (suc n) [] = none
split_at (suc n) (x ∷ xs) = elim (split_at n xs) [
  | none ↦ none
  | some (front, back) ↦ some (x ∷ front, back)
]

-- `binary.BigEndian`
abbrev pub be16 : List ℕ → ℕ
be16 (a ∷ b ∷ bs) = a * 256 + b
be16 _ = 0

abbrev pub be32 : List ℕ → ℕ
be32 (a ∷ b ∷ c ∷ d ∷ bs) = ((a * 256 + b) * 256 + c) * 256 + d
be32 _ = 0

-- The error where fewer bytes are left than are asked for; the upstream's own error is kept.
abbrev pub short : Option String → List ℕ → Fault
short (some e) src = broken e
short none [] = eof
short none (b ∷ src) = unexpected_eof

-- A header that was read, its value where it is a text or bytes, and what follows; or what is wrong.
pub data OneHeader : Type 0 where
  bad : String → OneHeader
  one : List ℕ → List ℕ → List ℕ → OneHeader

-- `msgType` and `contentType`
pub record Seen : Type 0 where
  pub message_type : List ℕ
  pub content_type : List ℕ

-- The bytes of a value that is skipped, by its type.
unfoldable pub skip_of : ℕ → Option ℕ
skip_of vt =
    if vt == 0 || vt == 1
    then some 0
    else if vt == 2
    then some 1
    else if vt == 3
    then some 2
    else if vt == 4
    then some 4
    else if vt == 5 || vt == 8
    then some 8
    else if vt == 9
    then some 16
    else none

abbrev pub is_sized : ℕ → Bool
is_sized vt = vt == 6 || vt == 7

abbrev pub taken : List ℕ → Option (List ℕ × List ℕ) → OneHeader
taken name none = bad "eventstream: bad header value length"
taken name (some (val, hp)) = one name val hp

unfoldable pub sized_value : List ℕ → List ℕ → OneHeader
unfolding split_at
sized_value name (a ∷ b ∷ hp) = taken name (split_at (be16 (a ∷ b ∷ [])) hp)
sized_value name _ = bad "eventstream: truncated header value"

abbrev pub skipped : List ℕ → Option (List ℕ × List ℕ) → OneHeader
skipped name none = bad "eventstream: truncated fixed header"
skipped name (some (val, hp)) = one name [] hp

abbrev pub fixed_value : List ℕ → List ℕ → Option ℕ → OneHeader
fixed_value name hp none = bad "eventstream: unknown header type"
fixed_value name hp (some skip) = skipped name (split_at skip hp)

unfoldable pub value_of : List ℕ → ℕ → List ℕ → OneHeader
unfolding sized_value skip_of split_at
value_of name vt hp = if is_sized vt then sized_value name hp else fixed_value name hp (skip_of vt)

abbrev pub after_name : Option (List ℕ × List ℕ) → OneHeader
after_name none = bad "eventstream: bad header name"
after_name (some (name, [])) = bad "eventstream: truncated header"
after_name (some (name, vt ∷ hp)) = value_of name vt hp

abbrev pub noted : List ℕ → List ℕ → Seen → Seen
noted name val s =
    if same_bytes name (bytes_of ":message-type")
    then record s { message_type = val }
    else if same_bytes name (bytes_of ":content-type")
    then record s { content_type = val }
    else s

abbrev pub next_header : OneHeader → Seen → (List ℕ → Seen → String ⊎ Seen) → String ⊎ Seen
next_header (bad e) s rest = inl e
next_header (one name val hp) s rest = rest hp (noted name val s)

-- The loop over the headers; every header takes a byte at least.
unfoldable pub read_headers : ℕ → List ℕ → Seen → String ⊎ Seen
unfolding split_at value_of
read_headers fuel [] s = inr s
read_headers zero (nl ∷ hp) s = inr s
read_headers (suc fuel) (nl ∷ hp) s =
    next_header (after_name (split_at nl hp)) s (read_headers fuel)

-- What a frame gives, and what follows it; or the end.
pub data Framed : Type 0 where
  stop : Fault → Framed
  frame : List ℕ → List ℕ → Framed

unfoldable pub truncate_bytes : List ℕ → ℕ → List ℕ
truncate_bytes b n = if leb (length b) n then b else take n b ++ bytes_of "..."

-- The end of a stream in the middle of a frame is its end.
abbrev pub told : Fault → Option Fault
told eof = none
told unexpected_eof = none
told (broken e) = some (broken e)
told (exception b) = some (exception b)

abbrev pub and_then : Framed → (List ℕ → List ℕ × Option Fault) → List ℕ × Option Fault
and_then (stop e) rest = ([], told e)
and_then (frame out src) rest = let (more, end) = rest src in (out ++ more, end)

-- `decode` gives the field of the JSON text, where there is one that is not empty; `base64` its bytes.
module _ (decode : List ℕ → Option String) (base64 : String → Option (List ℕ)) where
  abbrev pub unwrapped : Option String → List ℕ
  unwrapped none = []
  unwrapped (some text) = elim (base64 text) [ none ↦ [] | some raw ↦ raw ]

  -- What is done with a payload by its headers.
  unfoldable pub frame_of : Seen → List ℕ → List ℕ → Framed
  unfolding truncate_bytes bytes_of
  frame_of s payload src =
      if same_bytes s.message_type (bytes_of "exception")
      then stop (exception (truncate_bytes payload 300))
      else if not (same_bytes s.message_type (bytes_of "event"))
      then frame [] src
      else if same_bytes s.content_type (bytes_of "application/json")
      then frame (unwrapped (decode payload)) src
      else frame payload src

  abbrev pub parsed : List ℕ → List ℕ → String ⊎ Seen → Framed
  parsed payload src (inl e) = stop (broken e)
  parsed payload src (inr s) = frame_of s payload src

  abbrev pub frame_rest : Option String → ℕ → ℕ → List ℕ → Option (List ℕ × List ℕ) → Framed
  frame_rest fault total hl src none = stop (short fault src)
  frame_rest fault total hl src (some (rest, src')) =
      let headers = take hl rest in
      let payload = take (total - 16 - hl) (drop hl rest) in
      parsed payload src'
        (read_headers (length headers) headers (record { message_type = []; content_type = [] }))

  abbrev pub frame_sized : Option String → ℕ → ℕ → List ℕ → Framed
  frame_sized fault total hl src =
      if ltb total 16 || ltb (total - 16) hl
      then stop (broken "eventstream: bad frame prelude")
      else frame_rest fault total hl src (split_at (total - 12) src)

  abbrev pub frame_head : Option String → List ℕ → Option (List ℕ × List ℕ) → Framed
  frame_head fault src none = stop (short fault src)
  frame_head fault src (some (prelude, src')) =
      frame_sized fault (be32 prelude) (be32 (drop 4 prelude)) src'

  -- `fault` is the error that reading the upstream ends in, if any.
  unfoldable pub next_frame : Option String → List ℕ → Framed
  unfolding split_at read_headers frame_of
  next_frame fault src = frame_head fault src (split_at 12 src)

  -- The body from frame to frame; every frame takes twelve bytes at least.
  unfoldable pub body_from : Option String → ℕ → List ℕ → List ℕ × Option Fault
  unfolding next_frame
  body_from fault zero src = ([], none)
  body_from fault (suc fuel) src = and_then (next_frame fault src) (body_from fault fuel)

  unfoldable pub bedrock_body : Option String → List ℕ → List ℕ × Option Fault
  unfolding body_from
  bedrock_body fault src = body_from fault (length src + 1) src
