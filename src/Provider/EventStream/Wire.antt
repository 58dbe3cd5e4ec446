-- ===== src/Provider/EventStream/Wire.antt =====
-- The format of an AWS event stream, as its sender writes it.
use Prim.Native.String.{String}
use claude_code_gateway.Prelude.{
  ℕ, ◌+◌, ◌/◌, ◌%◌, ◌≡◌, List, [], ◌∷◌, ◌++◌, some, none, true, false, Option, length, In,
  if◌then◌else◌, ◌⊎◌, ◌==◌, nat_eq, ◌||◌, ◌&&◌, Bool, ltb, take,
}
use claude_code_gateway.Provider.EventStream.{Fault, exception, bytes_of}

-- A header, by the number of its type.
pub record Header : Type 0 where
  pub name : List ℕ
  pub kind : ℕ
  pub value : List ℕ

-- The types of headers whose values have a fixed number of bytes, with that number.
abbrev pub widths : List (ℕ × ℕ)
widths = (0, 0) ∷ (1, 0) ∷ (2, 1) ∷ (3, 2) ∷ (4, 4) ∷ (5, 8) ∷ (8, 8) ∷ (9, 16) ∷ []

-- A text or bytes of any length, or as many bytes as the type has.
abbrev pub is_text : Header → Bool
is_text h = h.kind == 6 || h.kind == 7

abbrev pub IsHeader : Header → Type 0
IsHeader h = (is_text h ≡ true) ⊎ In (h.kind, length h.value) widths

pub record Checksum : Type 0 where
  pub a : ℕ
  pub b : ℕ
  pub c : ℕ
  pub d : ℕ

pub record Message : Type 0 where
  pub headers : List Header
  pub payload : List ℕ
  pub head_sum : Checksum
  pub sum : Checksum

abbrev pub checksum_bytes : Checksum → List ℕ
checksum_bytes s = s.a ∷ s.b ∷ s.c ∷ s.d ∷ []

abbrev pub value_bytes : Header → List ℕ → List ℕ
value_bytes h rest =
    if is_text h
    then length h.value / 256 ∷ length h.value % 256 ∷ (h.value ++ rest)
    else h.value ++ rest

abbrev pub header_bytes : List Header → List ℕ
header_bytes [] = []
header_bytes (h ∷ hs) = length h.name ∷ (h.name ++ (h.kind ∷ value_bytes h (header_bytes hs)))

abbrev pub be32_bytes : ℕ → List ℕ → List ℕ
be32_bytes n rest = n / 256 / 256 / 256 ∷ n / 256 / 256 % 256 ∷ n / 256 % 256 ∷ n % 256 ∷ rest

abbrev pub total_of : Message → ℕ
total_of m = 16 + length (header_bytes m.headers) + length m.payload

abbrev pub prelude_bytes : Message → List ℕ
prelude_bytes m =
    be32_bytes (total_of m)
      (be32_bytes (length (header_bytes m.headers)) (checksum_bytes m.head_sum))

abbrev pub rest_bytes : Message → List ℕ
rest_bytes m = header_bytes m.headers ++ (m.payload ++ checksum_bytes m.sum)

abbrev pub message_bytes : Message → List ℕ
message_bytes m = prelude_bytes m ++ rest_bytes m

-- Messages, and what follows them.
abbrev pub stream_bytes : List Message → List ℕ → List ℕ
stream_bytes [] rest = rest
stream_bytes (m ∷ ms) rest = prelude_bytes m ++ (rest_bytes m ++ stream_bytes ms rest)

abbrev pub equal_bytes : List ℕ → List ℕ → Bool
equal_bytes [] [] = true
equal_bytes (a ∷ as') (b ∷ bs) = a == b && equal_bytes as' bs
equal_bytes [] (b ∷ bs) = false
equal_bytes (a ∷ as') [] = false

-- The value of the last header of a name, where that is a text; `v` where there is none.
abbrev pub value_named : List ℕ → List Header → List ℕ → List ℕ
value_named name [] v = v
value_named name (h ∷ hs) v =
    value_named name hs (if equal_bytes h.name name then if is_text h then h.value else [] else v)

unfoldable pub type_of : Message → List ℕ
unfolding bytes_of
type_of m = value_named (bytes_of ":message-type") m.headers []

unfoldable pub content_type_of : Message → List ℕ
unfolding bytes_of
content_type_of m = value_named (bytes_of ":content-type") m.headers []

-- At most 300 bytes of a payload, with three dots where it is longer.
unfoldable pub at_most_300 : List ℕ → List ℕ
unfolding bytes_of
at_most_300 b = if ltb 300 (length b) then take 300 b ++ bytes_of "..." else b

-- What the messages say, up to the first that is an exception: of an event the payload, or what is
-- wrapped in it where it is JSON; of any other message nothing.
module _ (decode : List ℕ → Option String) (base64 : String → Option (List ℕ)) where
  abbrev pub bytes_in : Option String → List ℕ
  bytes_in none = []
  bytes_in (some s) = elim (base64 s) [ none ↦ [] | some raw ↦ raw ]

  unfoldable pub heard : Message → List ℕ × Option Fault → List ℕ × Option Fault
  unfolding bytes_of type_of content_type_of at_most_300
  heard m (more, end) =
      if equal_bytes (type_of m) (bytes_of "exception")
      then ([], some (exception (at_most_300 m.payload)))
      else if equal_bytes (type_of m) (bytes_of "event")
      then if equal_bytes (content_type_of m) (bytes_of "application/json")
        then (bytes_in (decode m.payload) ++ more, end)
        else (m.payload ++ more, end)
      else (more, end)

  abbrev pub said : List Message → List ℕ × Option Fault
  said [] = ([], none)
  said (m ∷ ms) = heard m (said ms)
