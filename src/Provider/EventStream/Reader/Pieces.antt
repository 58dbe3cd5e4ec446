-- ===== src/Provider/EventStream/Reader/Pieces.antt =====
-- The pieces that `Read` gives are those of the body.
use claude_code_gateway.Prelude.{
  ℕ, zero, suc, ◌+◌, ◌-◌, ◌<◌, ◌≡◌, refl, ap, sym, ◌∙◌, subst, String, Bool, true, false, Option,
  none, some, List, [], ◌∷◌, ◌++◌, ◌⊎◌, inl, inr, length, take, drop, ltb, arith, if◌then◌else◌,
  Option-cases, either_branch, take-append-drop, ◌||◌, not,
}
use mathlib.Core.List.{append_assoc}
use claude_code_gateway.Provider.EventStream.{
  Seen, Framed, frame, stop, Fault, frame_of, and_then, split_at, next_frame, body_from,
  bedrock_body, frame_sized, frame_rest, frame_head, parsed, same_bytes, bytes_of, be32,
}
use claude_code_gateway.Provider.EventStream.Reader.{
  Reader, Outcome, gave, ended, buffered, refilled, read_from, read_body,
}

abbrev IsShorter : ℕ → Framed → Type 0
IsShorter n (stop e) = Unit
IsShorter n (frame out src) = length src < n

split_at-length :
    (n : ℕ) (xs front back : List ℕ)
    → split_at n xs ≡ some (front, back)
    → length xs ≡ n + length back
unfolding split_at
split_at-length zero xs front back h = ground (arith, h)
split_at-length (suc n) [] front back h = ground (arith, h)
split_at-length (suc n) (x ∷ xs) front back h = elim (Option-cases (split_at n xs)) [
  | inl missing ↦ ground (arith, missing, h)
  | inr ((f, b), found) ↦ ground (arith, found, h, split_at-length n xs f b found)
]

and_then-agree :
    (fr : Framed) (f g : List ℕ → List ℕ × Option Fault)
    → ((out src : List ℕ) → fr ≡ frame out src → f src ≡ g src)
    → and_then fr f ≡ and_then fr g
and_then-agree (stop e) f g h = refl
and_then-agree (frame out src) f g h = ap (λ r. (out ++ r.0, r.1)) (h out src refl)

module _ (decode : List ℕ → Option String) (base64 : String → Option (List ℕ))
    (fault : Option String) where
  -- Every frame takes bytes.
  frame_of-IsShorter :
      (n : ℕ) (s : Seen) (payload src : List ℕ)
      → length src < n
      → IsShorter n (frame_of decode base64 s payload src)
  unfolding frame_of
  frame_of-IsShorter n s payload src h =
      either_branch (IsShorter n) (same_bytes s.message_type (bytes_of "exception")) (λ _. tt)
        (λ _.
          either_branch (IsShorter n) (not (same_bytes s.message_type (bytes_of "event"))) (λ _. h)
            (λ _.
              either_branch (IsShorter n) (same_bytes s.content_type (bytes_of "application/json"))
                (λ _. h) (λ _. h)))

  parsed-IsShorter :
      (n : ℕ) (payload src : List ℕ) (r : String ⊎ Seen)
      → length src < n
      → IsShorter n (parsed decode base64 payload src r)
  parsed-IsShorter n payload src (inl e) h = tt
  parsed-IsShorter n payload src (inr s) h = frame_of-IsShorter n s payload src h

  frame_rest-IsShorter :
      (n total hl : ℕ) (src : List ℕ) (o : Option (List ℕ × List ℕ))
      → ((rest src' : List ℕ) → o ≡ some (rest, src') → length src' < n)
      → IsShorter n (frame_rest decode base64 fault total hl src o)
  frame_rest-IsShorter n total hl src none h = tt
  frame_rest-IsShorter n total hl src (some (rest, src')) h =
      parsed-IsShorter n _ src' _ (h rest src' refl)

  frame_sized-IsShorter :
      (n total hl : ℕ) (src : List ℕ)
      → length src < n
      → IsShorter n (frame_sized decode base64 fault total hl src)
  frame_sized-IsShorter n total hl src h =
      either_branch (IsShorter n) (ltb total 16 || ltb (total - 16) hl) (λ _. tt)
        (λ _.
          frame_rest-IsShorter n total hl src (split_at (total - 12) src)
            (λ rest src' e. omega (arith, h, split_at-length (total - 12) src rest src' e)))

  frame_head-IsShorter :
      (n : ℕ) (src : List ℕ) (o : Option (List ℕ × List ℕ))
      → ((prelude src' : List ℕ) → o ≡ some (prelude, src') → length src' < n)
      → IsShorter n (frame_head decode base64 fault src o)
  frame_head-IsShorter n src none h = tt
  frame_head-IsShorter n src (some (prelude, src')) h =
      frame_sized-IsShorter n (be32 prelude) (be32 (drop 4 prelude)) src' (h prelude src' refl)

  next_frame-IsShorter :
      (src : List ℕ) → IsShorter (length src) (next_frame decode base64 fault src)
  unfolding next_frame
  next_frame-IsShorter src =
      frame_head-IsShorter (length src) src (split_at 12 src)
        (λ prelude src' e. omega (arith, split_at-length 12 src prelude src' e))

  -- More fuel changes nothing where there is more than there are bytes.
  pub body_from_enough :
      (f g : ℕ) (src : List ℕ)
      → length src < f
      → length src < g
      → body_from decode base64 fault f src ≡ body_from decode base64 fault g src
  unfolding body_from
  body_from_enough zero g src h k = absurd (omega arith)
  body_from_enough (suc f) zero src h k = absurd (omega arith)
  body_from_enough (suc f) (suc g) src h k =
      and_then-agree (next_frame decode base64 fault src) (body_from decode base64 fault f)
        (body_from decode base64 fault g)
        (λ out src' e.
          let less : length src' < length src =
            subst (IsShorter (length src)) e (next_frame-IsShorter src) in
          body_from_enough f g src' (omega arith) (omega arith))

  -- What a reader has yet to give.
  abbrev pub ahead : Reader → List ℕ × Option Fault
  ahead r = if r.eof then ([], none) else bedrock_body decode base64 fault r.src

  abbrev pub body_of : Reader → List ℕ × Option Fault
  body_of r = (r.buf ++ (ahead r).0, (ahead r).1)

  abbrev pub IsPiece : Reader → Reader × Outcome → Type 0
  IsPiece r (r', gave out) = body_of r ≡ (out ++ (body_of r').0, (body_of r').1)
  IsPiece r (r', ended e) = (body_of r ≡ ([], e)) × (body_of r' ≡ ([], none))

  buffered-IsPiece :
      (n : ℕ) (src buf : List ℕ) (eof : Bool) (more : Reader × Outcome)
      → (buf ≡ [] → eof ≡ false → IsPiece (record { src = src; buf = buf; eof = eof }) more)
      → IsPiece
          (record { src = src; buf = buf; eof = eof })
          (buffered n (record { src = src; buf = buf; eof = eof }) buf more)
  buffered-IsPiece n src [] true more h = (refl, refl)
  buffered-IsPiece n src [] false more h = h refl refl
  buffered-IsPiece n src (b ∷ bs) eof more h =
      let after : List ℕ × Option Fault = ahead (record { src = src; buf = []; eof = eof }) in
      ap (λ l. (l, after.1))
        (ap (λ l. l ++ after.0) (sym (take-append-drop n (b ∷ bs)))
          ∙ append_assoc (take n (b ∷ bs)) (drop n (b ∷ bs)) after.0)

  bedrock_body-next :
      (src : List ℕ) (fr : Framed)
      → next_frame decode base64 fault src ≡ fr
      → bedrock_body decode base64 fault src ≡ and_then fr (bedrock_body decode base64 fault)
  unfolding bedrock_body body_from
  bedrock_body-next src fr found =
      body_from_enough (length src + 1) (suc (length src)) src (omega arith) (omega arith)
      ∙ and_then-agree (next_frame decode base64 fault src)
          (body_from decode base64 fault (length src)) (bedrock_body decode base64 fault)
          (λ out src' e.
            let less : length src' < length src =
              subst (IsShorter (length src)) e (next_frame-IsShorter src) in
            body_from_enough (length src) (length src' + 1) src' less (omega arith))
      ∙ ap (λ x. and_then x (bedrock_body decode base64 fault)) found

  IsPiece-same :
      (r r' : Reader) (o : Reader × Outcome) → body_of r ≡ body_of r' → IsPiece r' o → IsPiece r o
  IsPiece-same r r' (r'', gave out) same h = same ∙ h
  IsPiece-same r r' (r'', ended e) same (h, k) = (same ∙ h, k)

  refilled-IsPiece :
      (src : List ℕ) (fr : Framed) (rest : Reader → Reader × Outcome)
      → next_frame decode base64 fault src ≡ fr
      → ((out src' : List ℕ)
          → fr ≡ frame out src'
          → IsPiece
              (record { src = src'; buf = out; eof = false })
              (rest (record { src = src'; buf = out; eof = false })))
      → IsPiece
          (record { src = src; buf = []; eof = false })
          (refilled (record { src = src; buf = []; eof = false }) fr rest)
  refilled-IsPiece src (stop e) rest found h = (bedrock_body-next src (stop e) found, refl)
  refilled-IsPiece src (frame out src') rest found h =
      IsPiece-same (record { src = src; buf = []; eof = false })
        (record { src = src'; buf = out; eof = false })
        (rest (record { src = src'; buf = out; eof = false }))
        (bedrock_body-next src (frame out src') found) (h out src' refl)

  read_from-IsPiece :
      (fuel n : ℕ) (r : Reader)
      → length r.src < fuel
      → IsPiece r (read_from decode base64 fault fuel n r)
  unfolding read_from
  read_from-IsPiece zero n r h = absurd (omega arith)
  read_from-IsPiece (suc fuel) n r h =
      let fr : Framed = next_frame decode base64 fault r.src in
      let on : Reader → Reader × Outcome = read_from decode base64 fault fuel n in
      let Holds : List ℕ → Bool → Type 0 = λ buf eof.
        IsPiece (record { src = r.src; buf = buf; eof = eof })
          (refilled (record { src = r.src; buf = buf; eof = eof }) fr on) in
      buffered-IsPiece n r.src r.buf r.eof (refilled r fr on) (λ empty open'.
        subst (λ buf. Holds buf r.eof) (sym empty)
          (subst (λ eof. Holds [] eof) (sym open')
            (refilled-IsPiece r.src fr on refl (λ out src' e.
              let less : length src' < length r.src =
                subst (IsShorter (length r.src)) e (next_frame-IsShorter r.src) in
              read_from-IsPiece fuel n (record { src = src'; buf = out; eof = false })
                (omega arith)))))

  -- However many bytes `Read` is asked for, whatever the upstream sends and however it ends: what a call
  -- gives is the next piece of the body, and what is ahead of the reader then is the rest; where it gives
  -- an end, the body has been given, its end is that of the body, and nothing is ahead any more.
  pub read_body-IsPiece : (n : ℕ) (r : Reader) → IsPiece r (read_body decode base64 fault n r)
  unfolding read_body
  read_body-IsPiece n r = read_from-IsPiece (length r.src + 1) n r (omega arith)
