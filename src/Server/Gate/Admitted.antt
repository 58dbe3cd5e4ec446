-- ===== src/Server/Gate/Admitted.antt =====
-- What holds of a request that is sent on.
use claude_code_gateway.Prelude.{
  ℕ, String, Bool, true, false, not, Option, none, some, ◌≡◌, refl, sym, subst, arith,
  if◌then◌else◌, ◌==◌, string_eq, Bool-cases, inl, inr,
}
use claude_code_gateway.Prelude.Floats.{Floats}
use claude_code_gateway.Prelude.Int.{pos}
use claude_code_gateway.Core.Request.{MessagesRequest}
use claude_code_gateway.Core.Request.Estimate.{request_traits, estimate_request_tokens}
use claude_code_gateway.RateLimit.{allow, allow_tokens}
use claude_code_gateway.Server.Budget.{Calendar, exceeded, allows_model}
use claude_code_gateway.Server.FreeMode.{enforce_free_only}
use claude_code_gateway.Server.Guardrails.{Blocked}
use claude_code_gateway.Server.Gate.{
  Incoming, check_auth, Admission, Tools, Gate, redacted, refused_by, admit_model, admit_guarded,
  admit_request, admit_body, admit_sender, admit,
}
use claude_code_gateway.Server.Gate.Meanings.{
  IsSender, check_auth-IsSender, IsFree, enforce_free_only-IsFree, HasMoney, exceeded-HasMoney,
  MayUse, allows_model-MayUse,
}
use claude_code_gateway.State.{Store}

-- What is admitted.
abbrev verdict : {X Y Z : Type 0} → X × Option Y × Option Z → Option Z
verdict r = r.2

-- How the tests are read off an outcome that admits.
three_tests :
    {X Y Z : Type 0} (p q c : Bool) (x y z w : X) (i j k : Y) (v a : Z)
    → verdict (
        if not p
        then (x, some i, none)
        else if not q
        then (y, some j, none)
        else if c
        then (z, none, some v)
        else (w, some k, none))
      ≡ some a
    → (p ≡ true) × (q ≡ true) × (c ≡ true) × (v ≡ a)
three_tests true true true x y z w i j k v a h = (refl, refl, refl, cc)
three_tests true true false x y z w i j k v a h = absurd (cc)
three_tests true false c x y z w i j k v a h = absurd (cc)
three_tests false q c x y z w i j k v a h = absurd (cc)

one_test :
    {X Y Z : Type 0} (p : Bool) (x : X × Option Y × Option Z) (y : X) (i : Y) {a : Z}
    → verdict (if p then (y, some i, none) else x) ≡ some a
    → (p ≡ false) × (x.2 ≡ some a)
one_test true x y i h = absurd (cc)
one_test false x y i h = (refl, h)

two_tests :
    {X Y Z : Type 0} (p q : Bool) (x : X × Option Y × Option Z) (y z : X) (i j : Y) {a : Z}
    → verdict (if not p then (y, some i, none) else if q then (z, some j, none) else x) ≡ some a
    → (p ≡ true) × (q ≡ false) × (x.2 ≡ some a)
two_tests false q x y z i j h = absurd (cc)
two_tests true true x y z i j h = absurd (cc)
two_tests true false x y z i j h = (refl, refl, h)

module _ (F : Floats) {S : Type 0} (store : Store F S) (cal : Calendar) (t : Tools) where
  -- The budgets and the limits after the first tests of a sender.
  abbrev pub asked : String → ℕ → Gate F store cal t → Gate F store cal t
  asked token now g = record g {
    limiter = (allow F store token now g.limiter).0;
    budgets = (exceeded F cal t.digest store token now g.budgets).0;
  }

  -- The tokens in a minute, by the limit of the client.
  abbrev pub affords : String → ℕ → ℕ → Gate F store cal t → Bool
  affords token est now g =
      let ci = (exceeded F cal t.digest store token now g.budgets).1 in
      (allow_tokens F store token (pos est) ci.tpm now g.limiter).1

  -- The tests, for a sender, the request as it is sent on and its estimate.
  pub record HasPassed (r : Incoming) (now : ℕ) (g : Gate F store cal t) (token : String)
      (m : MessagesRequest) (est : ℕ) : Type 0 where
    pub posted : r.is_post ≡ true
    pub sender : IsSender g.tokens g.allow_anon r token
    pub paced : (allow F store token now g.limiter).1 ≡ true
    pub funded : HasMoney F store cal t.digest token now g.budgets
    pub body : String
    pub original : MessagesRequest
    pub received : r.body ≡ some body
    pub decoded : t.decode body ≡ some original
    pub named : (original.model == "") ≡ false
    pub cleaned : m ≡ redacted F store cal t g.rails original
    pub clean : refused_by F store cal t g.rails m ≡ none
    pub permitted : MayUse F t.glob token m.model (asked token now g).budgets
    pub free : IsFree g.routing m.model
    pub counted : est ≡ estimate_request_tokens t.as_text t.as_blocks m
    pub affordable : affords token est now (asked token now g) ≡ true

  abbrev pub IsAdmitted : Incoming → ℕ → Gate F store cal t → Admission → Type 0
  IsAdmitted r now g a = HasPassed r now g a.token a.request a.est

  -- What the last tests show, for the gate that they meet.
  record Passes (token : String) (now : ℕ) (m : MessagesRequest) (g : Gate F store cal t)
      (a : Admission) : Type 0 where
    pub token_of : a.token ≡ token
    pub request_of : a.request ≡ m
    pub permitted : allows_model F t.glob token m.model g.budgets ≡ true
    pub free : enforce_free_only g.routing m.model ≡ ""
    pub counted : a.est ≡ estimate_request_tokens t.as_text t.as_blocks m
    pub affordable : affords token a.est now g ≡ true

  admit_model-Passes :
      (token : String) (now : ℕ) (m : MessagesRequest) (g : Gate F store cal t) (a : Admission)
      → (admit_model F store cal t token now m g).2 ≡ some a
      → Passes token now m g a
  unfolding request_traits
  admit_model-Passes token now m g a h =
      let free = enforce_free_only g.routing m.model in
      let (est, has_image, thinking) = request_traits t.as_text t.as_blocks t.as_kind m in
      let (allowed, is_free, fits, same) =
        three_tests (allows_model F t.glob token m.model g.budgets) (free == "")
          (affords token est now g) _ _ _ _ _ _ _ _ a h in
      subst (Passes token now m g) same (record {
        token_of = refl;
        request_of = refl;
        permitted = allowed;
        free = (string_eq.same_key_iff free "").0 is_free;
        counted = refl;
        affordable = fits;
      })

  -- What the tests of the body show besides.
  record Reads (body : Option String) (token : String) (now : ℕ) (g : Gate F store cal t)
      (a : Admission) : Type 0 where
    pub text : String
    pub original : MessagesRequest
    pub received : body ≡ some text
    pub decoded : t.decode text ≡ some original
    pub named : (original.model == "") ≡ false
    pub clean : refused_by F store cal t g.rails (redacted F store cal t g.rails original) ≡ none
    pub passes : Passes token now (redacted F store cal t g.rails original) g a

  admit_guarded-Passes :
      (o : Option Blocked) (token : String) (now : ℕ) (m : MessagesRequest) (g : Gate F store cal t)
      (a : Admission)
      → (admit_guarded F store cal t o token now m g).2 ≡ some a
      → (o ≡ none) × Passes token now m g a
  admit_guarded-Passes (some why) token now m g a h = absurd (cc)
  admit_guarded-Passes none token now m g a h = (refl, admit_model-Passes token now m g a h)

  admit_request-Reads :
      (text : String) (o : Option MessagesRequest) (token : String) (now : ℕ)
      (g : Gate F store cal t) (a : Admission)
      → t.decode text ≡ o
      → (admit_request F store cal t o token now g).2 ≡ some a
      → Reads (some text) token now g a
  admit_request-Reads text none token now g a e h = absurd (cc)
  admit_request-Reads text (some m) token now g a e h =
      let m' = redacted F store cal t g.rails m in
      let (named, h') = one_test (m.model == "") _ _ _ h in
      let (clean, passes) =
        admit_guarded-Passes (refused_by F store cal t g.rails m') token now m' g a h' in
      record {
        text = text;
        original = m;
        received = refl;
        decoded = e;
        named = named;
        clean = clean;
        passes = passes;
      }

  admit_body-Reads :
      (body : Option String) (token : String) (now : ℕ) (g : Gate F store cal t) (a : Admission)
      → (admit_body F store cal t body token now g).2 ≡ some a
      → Reads body token now g a
  admit_body-Reads none token now g a h = absurd (cc)
  admit_body-Reads (some text) token now g a h =
      admit_request-Reads text (t.decode text) token now g a refl h

  admit_sender-IsAdmitted :
      (o : Option String) (r : Incoming) (now : ℕ) (g : Gate F store cal t) (a : Admission)
      → r.is_post ≡ true
      → check_auth g.tokens g.allow_anon r ≡ o
      → (admit_sender F store cal t o r.body now g).2 ≡ some a
      → IsAdmitted r now g a
  admit_sender-IsAdmitted none r now g a posted e h = absurd (cc)
  admit_sender-IsAdmitted (some token) r now g a posted e h =
      let (paced, funded, h') =
        two_tests (allow F store token now g.limiter).1
          (exceeded F cal t.digest store token now g.budgets).3 _ _ _ _ _ h in
      let d = admit_body-Reads r.body token now (asked token now g) a h' in
      subst (λ k. HasPassed r now g k a.request a.est) (sym d.passes.token_of)
        (subst (λ m. HasPassed r now g token m a.est) (sym d.passes.request_of)
          (record {
            posted = posted;
            sender = check_auth-IsSender g.tokens g.allow_anon r token e;
            paced = paced;
            funded = exceeded-HasMoney F store cal t.digest token now g.budgets funded;
            body = d.text;
            original = d.original;
            received = d.received;
            decoded = d.decoded;
            named = d.named;
            cleaned = refl;
            clean = d.clean;
            permitted = allows_model-MayUse F t.glob token _ _ d.passes.permitted;
            free = enforce_free_only-IsFree g.routing _ d.passes.free;
            counted = d.passes.counted;
            affordable = d.passes.affordable;
          }))

  pub admit-IsAdmitted :
      (r : Incoming) (now : ℕ) (g : Gate F store cal t) (a : Admission)
      → (admit F store cal t r now g).2 ≡ some a
      → IsAdmitted r now g a
  unfolding admit
  admit-IsAdmitted r now g a h = elim (Bool-cases r.is_post) [
    | inl posted ↦
        admit_sender-IsAdmitted (check_auth g.tokens g.allow_anon r) r now g a posted refl
          (rw posted at h)
    | inr other ↦ absurd (ground arith)
  ]
