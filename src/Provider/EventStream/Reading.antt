-- ===== src/Provider/EventStream/Reading.antt =====
-- What is read of a stream that was written in the format.
use claude_code_gateway.Prelude.{
  In, ℕ, zero, suc, ◌+◌, ◌-◌, ◌*◌, ◌/◌, ◌%◌, ◌≤◌, ◌<◌, ◌≡◌, refl, ap, sym, ◌∙◌, subst, String,
  false, Option, none, some, List, [], ◌∷◌, ◌++◌, inl, inr, length, take, drop, ltb, arith,
  if◌then◌else◌, All, length-append, either_branch,
}
use claude_code_gateway.Provider.EventStream.{
  is_sized, skip_of, noted, Seen, Seen, is_sized, noted, frame_of, split_at, one, value_of,
  sized_value, read_headers, next_frame, frame_rest, frame_sized,
}
use claude_code_gateway.Provider.EventStream.Wire.{
  Header, IsHeader, Message, header_bytes, value_bytes, prelude_bytes, rest_bytes, total_of,
  checksum_bytes, widths, is_text,
}

split_at-append : (xs ys : List ℕ) → split_at (length xs) (xs ++ ys) ≡ some (xs, ys)
unfolding split_at
split_at-append [] ys = refl
split_at-append (x ∷ xs) ys = rw (split_at-append xs ys)

pub split_at-short : (n : ℕ) (xs : List ℕ) → length xs < n → split_at n xs ≡ none
unfolding split_at
split_at-short zero xs h = absurd (omega arith)
split_at-short (suc n) [] h = refl
split_at-short (suc n) (x ∷ xs) h = rw (split_at-short n xs (omega arith))

take-length : (xs ys : List ℕ) → take (length xs) (xs ++ ys) ≡ xs
take-length [] ys = refl
take-length (x ∷ xs) ys = ap (◌∷◌ x) (take-length xs ys)

drop-length : (xs ys : List ℕ) → drop (length xs) (xs ++ ys) ≡ ys
drop-length [] ys = refl
drop-length (x ∷ xs) ys = drop-length xs ys

pub take-more : (n k : ℕ) (xs ys : List ℕ) → n ≡ length xs + k → take n (xs ++ ys) ≡ xs ++ take k ys
take-more n k [] ys e = ap (λ m. take m ys) (e ∙ omega arith)
take-more zero k (x ∷ xs) ys e = absurd (omega (arith, e))
take-more (suc n) k (x ∷ xs) ys e = ap (◌∷◌ x) (take-more n k xs ys (omega (arith, e)))

pub length-take_le : (n : ℕ) (xs : List ℕ) → length (take n xs) ≤ n
length-take_le zero xs = omega arith
length-take_le (suc n) [] = omega arith
length-take_le (suc n) (x ∷ xs) = omega (arith, length-take_le n xs)

be16-bytes : (n : ℕ) → n / 256 * 256 + n % 256 ≡ n
be16-bytes n = omega arith

pub be32-bytes :
    (n : ℕ)
    → ((n / 256 / 256 / 256 * 256 + n / 256 / 256 % 256) * 256 + n / 256 % 256) * 256 + n % 256 ≡ n
be32-bytes n = omega arith

pub not_ltb : (a b : ℕ) → b ≤ a → ltb a b ≡ false
not_ltb a b h = ground arith

-- The parts of a frame are where their lengths say.
pub length-rest_bytes : (m : Message) → length (rest_bytes m) ≡ total_of m - 12
length-rest_bytes m = omega (
  arith,
  length-append (header_bytes m.headers) (m.payload ++ checksum_bytes m.sum),
  length-append m.payload (checksum_bytes m.sum),
)

split_at-rest_bytes :
    (m : Message) (src : List ℕ)
    → split_at (total_of m - 12) (rest_bytes m ++ src) ≡ some (rest_bytes m, src)
split_at-rest_bytes m src =
    subst (λ n. split_at n (rest_bytes m ++ src) ≡ some (rest_bytes m, src)) (length-rest_bytes m)
      (split_at-append (rest_bytes m) src)

payload-rest_bytes :
    (m : Message)
    → take
        (total_of m - 16 - length (header_bytes m.headers))
        (drop (length (header_bytes m.headers)) (rest_bytes m))
      ≡ m.payload
payload-rest_bytes m =
    let left : length m.payload ≡ total_of m - 16 - length (header_bytes m.headers) = omega arith in
    rw (drop-length (header_bytes m.headers) (m.payload ++ checksum_bytes m.sum)) (
      subst (λ n. take n (m.payload ++ checksum_bytes m.sum) ≡ m.payload) left
        (take-length m.payload (checksum_bytes m.sum)))

-- The headers that count, the last of each name.
abbrev pub seen_from : List Header → Seen → Seen
seen_from [] s = s
seen_from (h ∷ hs) s = seen_from hs (noted h.name (if is_text h then h.value else []) s)

abbrev pub seen_in : List Header → Seen
seen_in hs = seen_from hs (record { message_type = []; content_type = [] })

skip_of-widths : (k n : ℕ) → In (k, n) widths → (is_sized k ≡ false) × (skip_of k ≡ some n)
unfolding skip_of
skip_of-widths k n h = elim h [
  | inl e ↦ at e refl refl
  | inr (inl e) ↦ at e refl refl
  | inr (inr (inl e)) ↦ at e refl refl
  | inr (inr (inr (inl e))) ↦ at e refl refl
  | inr (inr (inr (inr (inl e)))) ↦ at e refl refl
  | inr (inr (inr (inr (inr (inl e))))) ↦ at e refl refl
  | inr (inr (inr (inr (inr (inr (inl e)))))) ↦ at e refl refl
  | inr (inr (inr (inr (inr (inr (inr (inl e))))))) ↦ at e refl refl
  | inr (inr (inr (inr (inr (inr (inr (inr e))))))) ↦ absurd e
]
  where
    at :
        {p : ℕ × ℕ}
        → (k, n) ≡ p
        → is_sized p.0 ≡ false
        → skip_of p.0 ≡ some p.1
        → (is_sized k ≡ false) × (skip_of k ≡ some n)
    at e a b =
        subst (λ (q : ℕ × ℕ). (is_sized q.0 ≡ false) × (skip_of q.0 ≡ some q.1)) (sym e) (a, b)

-- A header that was written is read.
value_of-bytes :
    (h : Header) (rest : List ℕ)
    → IsHeader h
    → value_of h.name h.kind (value_bytes h rest)
      ≡ one h.name (if is_text h then h.value else []) rest
unfolding value_of sized_value
value_of-bytes h rest (inl sized) =
    rw sized (rw (be16-bytes (length h.value)) (rw (split_at-append h.value rest) refl))
value_of-bytes h rest (inr fits) =
    let (fixed, width) = skip_of-widths h.kind (length h.value) fits in
    rw fixed (rw width (rw (split_at-append h.value rest) refl))

length-value_bytes : (h : Header) (rest : List ℕ) → length rest ≤ length (value_bytes h rest)
length-value_bytes h rest =
    either_branch (λ bs. length rest ≤ length bs) (is_text h)
      (λ _. omega (arith, length-append h.value rest))
      (λ _. omega (arith, length-append h.value rest))

length-header_bytes : (hs : List Header) → length hs ≤ length (header_bytes hs)
length-header_bytes [] = omega arith
length-header_bytes (h ∷ hs) = omega (
  arith,
  length-append h.name (h.kind ∷ value_bytes h (header_bytes hs)),
  length-value_bytes h (header_bytes hs),
  length-header_bytes hs,
)

read_headers-bytes :
    (hs : List Header) (fuel : ℕ) (s : Seen)
    → All IsHeader hs
    → length hs ≤ fuel
    → read_headers fuel (header_bytes hs) s ≡ inr (seen_from hs s)
unfolding read_headers
read_headers-bytes [] fuel s ok h = refl
read_headers-bytes (x ∷ hs) zero s ok h = absurd (omega arith)
read_headers-bytes (x ∷ hs) (suc fuel) s ok h =
    rw (split_at-append x.name (x.kind ∷ value_bytes x (header_bytes hs))) (
      rw (value_of-bytes x (header_bytes hs) ok.0) (
        read_headers-bytes hs fuel (noted x.name (if is_text x then x.value else []) s) ok.1
          (omega arith)))

module _ (decode : List ℕ → Option String) (base64 : String → Option (List ℕ)) where
  -- A message that was written is read.
  frame_rest-bytes :
      (fault : Option String) (m : Message) (src : List ℕ)
      → All IsHeader m.headers
      → frame_rest decode base64 fault
          (total_of m)
          (length (header_bytes m.headers))
          (rest_bytes m ++ src)
          (some (rest_bytes m, src))
        ≡ frame_of decode base64 (seen_in m.headers) m.payload src
  frame_rest-bytes fault m src ok =
      rw (take-length (header_bytes m.headers) (m.payload ++ checksum_bytes m.sum)) (
        rw (payload-rest_bytes m) (
          rw
            (read_headers-bytes m.headers (length (header_bytes m.headers))
              (record { message_type = []; content_type = [] }) ok (length-header_bytes m.headers))
            refl))

  frame_sized-bytes :
      (fault : Option String) (m : Message) (src : List ℕ)
      → All IsHeader m.headers
      → frame_sized decode base64 fault
          (total_of m)
          (length (header_bytes m.headers))
          (rest_bytes m ++ src)
        ≡ frame_of decode base64 (seen_in m.headers) m.payload src
  frame_sized-bytes fault m src ok = rw (not_ltb (total_of m) 16 (omega arith)) (
      rw (not_ltb (total_of m - 16) (length (header_bytes m.headers)) (omega arith))
        (rw (split_at-rest_bytes m src) (frame_rest-bytes fault m src ok)))

  pub next_frame-bytes :
      (fault : Option String) (m : Message) (src : List ℕ)
      → All IsHeader m.headers
      → next_frame decode base64 fault (prelude_bytes m ++ (rest_bytes m ++ src))
        ≡ frame_of decode base64 (seen_in m.headers) m.payload src
  unfolding next_frame
  next_frame-bytes fault m src ok =
      rw (be32-bytes (total_of m))
        (rw (be32-bytes (length (header_bytes m.headers))) (frame_sized-bytes fault m src ok))
