-- ===== src/Provider/EventStream/Heard.antt =====
-- What a frame gives, by what its sender wrote.
use claude_code_gateway.Prelude.{
  ℕ, ◌≡◌, refl, ap, ◌∙◌, String, Bool, true, false, not, Option, none, some, List, [], ◌∷◌, ◌++◌,
  inl, inr, length, take, ltb, leb, arith, if◌then◌else◌, Bool-cases, ◌==◌, nat_eq,
}
use claude_code_gateway.Provider.EventStream.{
  Seen, frame, stop, Fault, exception, noted, frame_of, and_then, same_bytes, bytes_of,
  truncate_bytes, unwrapped,
}
use claude_code_gateway.Provider.EventStream.Wire.{
  Header, Message, is_text, equal_bytes, value_named, type_of, content_type_of, at_most_300,
  bytes_in, heard,
}
use claude_code_gateway.Provider.EventStream.Reading.{seen_from, seen_in}

same_bytes-equal_bytes : (a b : List ℕ) → same_bytes a b ≡ equal_bytes a b
same_bytes-equal_bytes [] [] = refl
same_bytes-equal_bytes [] (y ∷ b) = refl
same_bytes-equal_bytes (x ∷ a) [] = refl
same_bytes-equal_bytes (x ∷ a) (y ∷ b) = elim (Bool-cases (x == y)) [
  | inl same ↦ rw same (same_bytes-equal_bytes a b)
  | inr other ↦ rw other refl
]

equal_bytes-eq : (a b : List ℕ) → equal_bytes a b ≡ true → a ≡ b
equal_bytes-eq [] [] h = refl
equal_bytes-eq [] (y ∷ b) h = absurd (ground arith)
equal_bytes-eq (x ∷ a) [] h = absurd (ground arith)
equal_bytes-eq (x ∷ a) (y ∷ b) h = elim (Bool-cases (x == y)) [
  | inl same ↦
      let rest : a ≡ b = equal_bytes-eq a b (ground (arith, same, h)) in
      let first : x ≡ y = ground (arith, same) in cc
  | inr other ↦ absurd (ground (arith, other, h))
]

noted-message_type :
    (name val : List ℕ) (s : Seen)
    → (noted name val s).message_type
      ≡ (if equal_bytes name (bytes_of ":message-type") then val else s.message_type)
unfolding bytes_of
noted-message_type name val s =
    rw (same_bytes-equal_bytes name (bytes_of ":message-type"))
      (elim (Bool-cases (equal_bytes name (bytes_of ":message-type"))) [
        | inl same ↦ rw same refl
        | inr other ↦ ground (arith, other)
      ])

noted-content_type :
    (name val : List ℕ) (s : Seen)
    → (noted name val s).content_type
      ≡ (if equal_bytes name (bytes_of ":content-type") then val else s.content_type)
unfolding bytes_of
noted-content_type name val s = rw (same_bytes-equal_bytes name (bytes_of ":message-type")) (
    rw (same_bytes-equal_bytes name (bytes_of ":content-type"))
      (elim (Bool-cases (equal_bytes name (bytes_of ":message-type"))) [
        | inl same ↦ rw (equal_bytes-eq name (bytes_of ":message-type") same) refl
        | inr other ↦ ground (arith, other)
      ]))

seen_from-message_type :
    (hs : List Header) (s : Seen)
    → (seen_from hs s).message_type ≡ value_named (bytes_of ":message-type") hs s.message_type
seen_from-message_type [] s = refl
seen_from-message_type (h ∷ hs) s =
    let val = if is_text h then h.value else [] in
    seen_from-message_type hs (noted h.name val s)
    ∙ ap (value_named (bytes_of ":message-type") hs) (noted-message_type h.name val s)

seen_from-content_type :
    (hs : List Header) (s : Seen)
    → (seen_from hs s).content_type ≡ value_named (bytes_of ":content-type") hs s.content_type
seen_from-content_type [] s = refl
seen_from-content_type (h ∷ hs) s =
    let val = if is_text h then h.value else [] in
    seen_from-content_type hs (noted h.name val s)
    ∙ ap (value_named (bytes_of ":content-type") hs) (noted-content_type h.name val s)

parted :
    (short long : Bool) (x y : List ℕ)
    → long ≡ not short
    → (if short then x else y) ≡ (if long then y else x)
parted true long x y e = rw e refl
parted false long x y e = rw e refl

truncate_bytes-at_most_300 : (b : List ℕ) → truncate_bytes b 300 ≡ at_most_300 b
unfolding truncate_bytes at_most_300 bytes_of
truncate_bytes-at_most_300 b =
    parted (leb (length b) 300) (ltb 300 (length b)) b (take 300 b ++ bytes_of "...") (ground arith)

decided :
    (a b c : Bool) (x p q src : List ℕ) (f : List ℕ → List ℕ × Option Fault) (more : List ℕ)
    (end : Option Fault)
    → f src ≡ (more, end)
    → and_then
        (if a
          then stop (exception x)
          else if not b
          then frame [] src
          else if c
          then frame p src
          else frame q src)
        f
      ≡ (if a
          then ([], some (exception x))
          else if b
          then if c then (p ++ more, end) else (q ++ more, end)
          else (more, end))
decided true b c x p q src f more end e = refl
decided false false c x p q src f more end e = rw e refl
decided false true true x p q src f more end e = rw e refl
decided false true false x p q src f more end e = rw e refl

module _ (decode : List ℕ → Option String) (base64 : String → Option (List ℕ)) where
  unwrapped-bytes_in : (o : Option String) → unwrapped decode base64 o ≡ bytes_in decode base64 o
  unwrapped-bytes_in none = refl
  unwrapped-bytes_in (some s) = refl

  pub and_then-heard :
      (m : Message) (src : List ℕ) (f : List ℕ → List ℕ × Option Fault) (r : List ℕ × Option Fault)
      → f src ≡ r
      → and_then (frame_of decode base64 (seen_in m.headers) m.payload src) f
        ≡ heard decode base64 m r
  unfolding frame_of heard type_of content_type_of bytes_of
  and_then-heard m src f (more, end) e =
      let start : Seen = record { message_type = []; content_type = [] } in
      let kind = seen_from-message_type m.headers start in
      let content = seen_from-content_type m.headers start in
      let mt = value_named (bytes_of ":message-type") m.headers [] in
      let ct = value_named (bytes_of ":content-type") m.headers [] in
      rw kind (
        rw content (
          rw (same_bytes-equal_bytes mt (bytes_of "exception")) (
            rw (same_bytes-equal_bytes mt (bytes_of "event")) (
              rw (same_bytes-equal_bytes ct (bytes_of "application/json")) (
                rw (truncate_bytes-at_most_300 m.payload) (
                  rw (unwrapped-bytes_in (decode m.payload)) (
                    decided (equal_bytes mt (bytes_of "exception"))
                      (equal_bytes mt (bytes_of "event"))
                      (equal_bytes ct (bytes_of "application/json")) (at_most_300 m.payload)
                      (bytes_in decode base64 (decode m.payload)) m.payload src f more end e)))))))
