-- ===== src/Core/Stream/Closing.antt =====
-- internal/core/stream.go, `Finalize`: the blocks that are open are stopped, each once.
use claude_code_gateway.Prelude.{
  ℕ, ◌≡◌, ◌≢◌, refl, sym, ap, ◌∙◌, subst, String, true, false, List, [], ◌∷◌, ◌++◌, some, nat_beq,
  if◌then◌else◌, arith, Bool-cases, either_branch, inl, inr, ◌⊎◌, In, Distinct,
}
use mathlib.Core.List.{append-nil}
use claude_code_gateway.Prelude.Arranges.{
  Arranges, Arranges-refl, Arranges-trans, Arranges-cons, Arranges-swap, Arranges-middle,
}
use claude_code_gateway.Prelude.GoMap.{GoMap, get, keys, In-get, get-In}
use claude_code_gateway.Prelude.Int.{ℤ, int_eq, ltb_ℤ}
use claude_code_gateway.Core.Stream.{
  Translator, StreamTool, Event, block_stop, message_delta, message_stop, emit, close_text, tool,
  sift, sort_onto, turn_onto, sort_ints, close_tools, finalize,
}
use claude_code_gateway.Core.Stream.Monitor.{
  Kind, shut, text, tool_use, Heard, silence, set_kind, hear, hear_all, hear_all-snoc,
}
use claude_code_gateway.Core.Stream.Blocks.{Good, close_text-Good}

sift-Arranges : (x : ℤ) (ys : List ℤ) → Arranges (x ∷ ys) (sift x ys)
unfolding sift
sift-Arranges x [] = Arranges-refl (x ∷ [])
sift-Arranges x (y ∷ ys) =
    either_branch (Arranges (x ∷ y ∷ ys)) (ltb_ℤ x y)
      (λ _. Arranges-trans _ _ _ (Arranges-swap x y ys) (Arranges-cons y _ _ (sift-Arranges x ys)))
      (λ _. Arranges-refl (x ∷ y ∷ ys))

sort_onto-Arranges : (sorted xs : List ℤ) → Arranges (xs ++ sorted) (sort_onto sorted xs)
unfolding sort_onto
sort_onto-Arranges sorted [] = Arranges-refl sorted
sort_onto-Arranges sorted (x ∷ xs) = Arranges-trans _ _ _ (Arranges-middle x xs sorted) (
    Arranges-trans _ _ _ (append-Arranges xs (sift-Arranges x sorted))
      (sort_onto-Arranges (sift x sorted) xs))
  where
    append-Arranges :
        {ys zs : List ℤ} (xs : List ℤ) → Arranges ys zs → Arranges (xs ++ ys) (xs ++ zs)
    append-Arranges [] f = f
    append-Arranges (x ∷ xs) f = Arranges-cons x _ _ (append-Arranges xs f)

turn_onto-Arranges : (turned xs : List ℤ) → Arranges (xs ++ turned) (turn_onto turned xs)
unfolding turn_onto
turn_onto-Arranges turned [] = Arranges-refl turned
turn_onto-Arranges turned (x ∷ xs) =
    Arranges-trans _ _ _ (Arranges-middle x xs turned) (turn_onto-Arranges (x ∷ turned) xs)

sort_ints-Arranges : (xs : List ℤ) → Arranges xs (sort_ints xs)
unfolding sort_ints
sort_ints-Arranges xs =
    Arranges-trans _ _ _
      (subst (λ ys. Arranges ys (sort_onto [] xs)) (append-nil xs) (sort_onto-Arranges [] xs))
      (subst (λ ys. Arranges ys (sort_ints xs)) (append-nil (sort_onto [] xs))
        (turn_onto-Arranges [] (sort_onto [] xs)))

-- The tools whose blocks are still open.
record Left (known : GoMap ℤ StreamTool) (ks : List ℤ) (s : Heard) : Type 0 where
  begun : s.begun ≡ true
  ended : s.ended ≡ false
  open_tools :
      (k : ℤ)
      → In k ks
      → (st : StreamTool) × (get known k ≡ some st) × (st.started ≡ true) × (s.kind st.a_idx ≢ shut)
  only :
      (i : ℕ)
      → s.kind i ≢ shut
      → (k : ℤ) × In k ks × (st : StreamTool) × (get known k ≡ some st) × (st.a_idx ≡ i)

abbrev Apart : GoMap ℤ StreamTool → Type 0
Apart known =
    (k j : ℤ) (st st' : StreamTool)
    → get known k ≡ some st
    → get known j ≡ some st'
    → st.a_idx ≡ st'.a_idx
    → k ≡ j

Left-stop :
    (known : GoMap ℤ StreamTool) (k : ℤ) (ks : List ℤ) (st : StreamTool) (s : Heard)
    → Apart known
    → ¬ In k ks
    → get known k ≡ some st
    → Left known (k ∷ ks) s
    → Left known ks (record s { kind = set_kind st.a_idx shut s.kind })
Left-stop known k ks st s apart new e l = record {
  begun = l.begun;
  ended = l.ended;
  open_tools = λ j m.
      let (st', e', on, o) = l.open_tools j (inr m) in
      (
        st',
        e',
        on,
        elim (Bool-cases (nat_beq st.a_idx st'.a_idx)) [
          | inl same ↦
              absurd
                (new (subst (λ x. In x ks) (sym (apart k j st st' e e' (ground (arith, same)))) m))
          | inr other ↦ rw other o
        ],
      );
  only = λ i o. elim (Bool-cases (nat_beq st.a_idx i)) [
    | inl same ↦ absurd (o (rw same refl))
    | inr other ↦
        let (j, m, st', e', at) = l.only i (rw other at o) in
        elim m [
          | inl first ↦
              absurd (ground (arith, at, other, e, subst (λ x. get known x ≡ some st') first e'))
          | inr later ↦ (j, later, st', e', at)
        ]
  ];
}

-- Everything that the client has heard, and what it then knows.
abbrev Hears : Translator → Heard → Type 0
Hears t s = hear_all t.out silence ≡ some s

close_tools-Hears :
    (ks : List ℤ) (t : Translator) (s : Heard)
    → Apart t.tools
    → Distinct ks
    → Hears t s
    → Left t.tools ks s
    → (s' : Heard) × Hears (close_tools ks t) s' × Left t.tools [] s'
unfolding close_tools hear
close_tools-Hears [] t s apart d h l = (s, h, l)
close_tools-Hears (k ∷ ks) t s apart d h l =
    let (st, e, on, o) = l.open_tools k (inl refl) in
    let found : tool k t ≡ st = ground (arith, e) in
    let stopped : hear (block_stop st.a_idx) s
        ≡ some (record s { kind = set_kind st.a_idx shut s.kind }) =
      ground (arith, l.begun, l.ended, o) in
    let t' = emit (block_stop st.a_idx) t in
    let step : (if (tool k t).started then emit (block_stop (tool k t).a_idx) t else t) ≡ t' =
      ap (λ (x : StreamTool). if x.started then emit (block_stop x.a_idx) t else t) found
      ∙ ap (λ b. if b then t' else t) on in
    subst (λ (x : Translator). (s' : Heard) × Hears (close_tools ks x) s' × Left t.tools [] s')
      (sym step)
      (close_tools-Hears ks t' (record s { kind = set_kind st.a_idx shut s.kind }) apart d.1
        (hear_all-snoc t.out (block_stop st.a_idx) silence s h ∙ stopped)
        (Left-stop t.tools k ks st s apart d.0 e l))

Kind-cases : (k : Kind) → (k ≡ shut) ⊎ (k ≡ text) ⊎ (k ≡ tool_use)
Kind-cases shut = inl refl
Kind-cases text = inr (inl refl)
Kind-cases tool_use = inr (inr refl)

Left-all :
    (t : Translator) (g : Good t)
    → t.open_text ≡ false
    → Left t.tools (sort_ints (keys t.tools)) g.heard
Left-all t g closed =
    let h = g.tracks in
    let order = sort_ints-Arranges (keys t.tools) in
    record {
      begun = h.begun;
      ended = h.ended;
      open_tools = λ k m.
          let (st, e) = get-In t.tools k (order.back k m) in
          let (on, is_tool) = h.tools k st e in (st, e, on, ground (arith, is_tool));
      only = λ i o. elim (Kind-cases (g.heard.kind i)) [
        | inl closed' ↦ absurd (o closed')
        | inr (inl is_text) ↦ absurd (ground (arith, closed, h.text_only i is_text))
        | inr (inr is_tool) ↦
            let (k, st, e, at) = h.tool_only i is_tool in
            (k, order.into k (In-get t.tools k st e), st, e, at)
      ];
    }

close_text-open_text : (t : Translator) → (close_text t).open_text ≡ false
unfolding close_text
close_text-open_text t = ground arith

-- A message that is told from its start to its end, with every block stopped.
pub record IsWhole (es : List Event) : Type 0 where
  pub heard : Heard
  pub hears : hear_all es silence ≡ some heard
  pub begun : heard.begun ≡ true
  pub ended : heard.ended ≡ true
  pub stopped : (i : ℕ) → heard.kind i ≡ shut

ending :
    (known : GoMap ℤ StreamTool) (t : Translator) (s : Heard) (r : String) (o i : ℤ)
    → Hears t s
    → Left known [] s
    → IsWhole (emit message_stop (emit (message_delta r o i) t)).out
unfolding hear
ending known t s r o i h l = record {
  heard = record s { ended = true };
  hears =
      hear_all-snoc (t.out ++ message_delta r o i ∷ []) message_stop silence s
        (hear_all-snoc t.out (message_delta r o i) silence s h ∙ ground (arith, l.begun, l.ended))
      ∙ ground (arith, l.begun, l.ended);
  begun = l.begun;
  ended = refl;
  stopped = λ j. elim (Kind-cases (s.kind j)) [
    | inl closed' ↦ closed'
    | inr (inl is_text) ↦ absurd (l.only j (ground (arith, is_text))).1
    | inr (inr is_tool) ↦ absurd (l.only j (ground (arith, is_tool))).1
  ];
}

pub finalize-IsWhole : (t : Translator) → Good t → IsWhole (finalize t).out
unfolding finalize
finalize-IsWhole t g =
    let t' = close_text t in
    let g' = close_text-Good t g in
    let ks = sort_ints (keys t'.tools) in
    let (s, h, l) =
      close_tools-Hears ks t' g'.heard g'.tracks.apart
        ((sort_ints-Arranges (keys t'.tools)).distinct g'.tracks.distinct) g'.hears
        (Left-all t' g' (close_text-open_text t)) in
    ending t'.tools (close_tools ks t') s _ _ _ h l
