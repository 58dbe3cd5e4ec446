-- ===== src/Server/Attempts/Answering.antt =====
-- What the call of an attempt gave, by how the attempt ends.
use claude_code_gateway.Prelude.{
  ℕ, ◌≤◌, ◌<◌, String, true, false, List, [], ◌∷◌, ◌++◌, ◌≡◌, refl, ◌⊎◌, inl, inr, In, arith, leb,
  leb→le, ◌∙◌, either_branch, Bool-cases, ◌==◌, nat_eq,
}
use claude_code_gateway.Provider.Registry.{Upstream}
use claude_code_gateway.Server.Attempts.{
  FailKind, fatal, soft, hard, retryable, among, classify_status, Executed, failed, replied,
  ExecResult, Ending, whole, cut_off, withheld, World, Call, Work, Answered, delivered, refused,
  blocked, crashed, begun, received, concluded, on, finished, Tried, settled, again, unanswered,
  rejected, attempt, served, penalised,
}

among-In : (s : ℕ) (cs : List ℕ) → among s cs ≡ true → In s cs
among-In s [] h = absurd (ground arith)
among-In s (c ∷ cs) h = elim (Bool-cases (s == c)) [
  | inl same ↦ inl (ground (arith, same))
  | inr other ↦ inr (among-In s cs (ground (arith, other, h)))
]

among-not_In : (s : ℕ) (cs : List ℕ) → among s cs ≡ false → ¬ In s cs
among-not_In s [] h member = member
among-not_In s (c ∷ cs) h (inl same) = absurd (ground (arith, same, h))
among-not_In s (c ∷ cs) h (inr later) = elim (Bool-cases (s == c)) [
  | inl same ↦ absurd (ground (arith, same, h))
  | inr other ↦ among-not_In s cs (ground (arith, other, h)) later
]

-- The status of an answer; 0 where there is none.
abbrev pub status_of : Call → ℕ
status_of c = elim c.gave [ failed msg ↦ 0 | replied r ↦ r.status ]

module _ {W R : Type 0} (world : World W R) where
  -- A status that the configuration lists.
  abbrev pub IsListed : ℕ → Type 0
  IsListed s = In s world.key_fail_status ⊎ In s world.retry_statuses

  -- The delivery of an answer below 400, at some time and from some state of the provider, ends so.
  abbrev pub EndsIn : ExecResult → Ending R → Type 0
  EndsIn r e =
      (r.status < 400) × (tick : ℕ) × (up : Upstream) × ((world.deliver tick up r).ending ≡ e)

  -- A failure after which the code goes on: no answer, one that was cut off, or a listed status.
  abbrev pub IsFailure : Executed → Type 0
  IsFailure (failed msg) = Unit {0}
  IsFailure (replied r) =
      ((msg : String) × EndsIn r (cut_off msg)) ⊎ ((400 ≤ r.status) × IsListed r.status)

  abbrev pub IsRetried : Call → Type 0
  IsRetried c = IsFailure c.gave

  -- The call that a request is answered by.
  abbrev pub IsAnswer : Answered R → Executed → Type 0
  IsAnswer a (failed msg) = ⊥
  IsAnswer (delivered x) (replied r) = EndsIn r (whole x)
  IsAnswer blocked (replied r) = EndsIn r withheld
  IsAnswer (refused s) (replied r) = (r.status ≡ s) × (400 ≤ s) × (¬ IsListed s)
  IsAnswer crashed (replied r) = ⊥

  abbrev pub IsLast : Answered R → Call → Type 0
  IsLast a c = IsAnswer a c.gave

  -- What is new among the calls after an attempt with a key.
  abbrev pub Leaves : String → List Call → Tried W R → Type 0
  Leaves k calls (again w) =
      (c : Call) × (w.calls ≡ calls ++ c ∷ [])
      × (c.key ≡ k)
      × IsRetried c
      × (w.last_status ≡ status_of c)
  Leaves k calls (settled a w) = (c : Call) × (w.calls ≡ calls ++ c ∷ []) × (c.key ≡ k) × IsLast a c

  listed :
      (s : ℕ)
      → retryable (classify_status s world.retry_statuses world.key_fail_status) ≡ true
      → IsListed s
  unfolding classify_status
  listed s h = elim (Bool-cases (among s world.key_fail_status)) [
    | inl found ↦ inl (among-In s world.key_fail_status found)
    | inr missing ↦ elim (Bool-cases (among s world.retry_statuses)) [
      | inl found ↦ inr (among-In s world.retry_statuses found)
      | inr missing_too ↦ absurd (ground (arith, missing, missing_too, h))
    ]
  ]

  unlisted :
      (s : ℕ)
      → retryable (classify_status s world.retry_statuses world.key_fail_status) ≡ false
      → ¬ IsListed s
  unfolding classify_status
  unlisted s h (inl found) = elim (Bool-cases (among s world.key_fail_status)) [
    | inl hard' ↦ absurd (ground (arith, hard', h))
    | inr missing ↦ among-not_In s world.key_fail_status missing found
  ]
  unlisted s h (inr found) = elim (Bool-cases (among s world.key_fail_status)) [
    | inl hard' ↦ absurd (ground (arith, hard', h))
    | inr missing ↦ elim (Bool-cases (among s world.retry_statuses)) [
      | inl soft' ↦ absurd (ground (arith, missing, soft', h))
      | inr missing_too ↦ among-not_In s world.retry_statuses missing_too found
    ]
  ]

  penalised-calls :
      (kind : FailKind) (k hint : String) (w : Work W)
      → (penalised world kind k hint w).calls ≡ w.calls
  penalised-calls fatal k hint w = refl
  penalised-calls soft k hint w = refl
  penalised-calls hard k hint w = refl

  abbrev call_of : String → Executed → Call
  call_of k e = record { key = k; gave = e }

  rejected-Leaves :
      (k : String) (r : ExecResult) (calls : List Call) (w : Work W)
      → 400 ≤ r.status
      → w.calls ≡ calls ++ call_of k (replied r) ∷ []
      → Leaves k calls (rejected world k r w)
  unfolding rejected
  rejected-Leaves k r calls w h called =
      let w1 = on world (finished world (world.elapsed w.tick)) w in
      let kind = classify_status r.status world.retry_statuses world.key_fail_status in
      let same = penalised-calls kind k r.retry_after w1 ∙ called in
      either_branch (Leaves k calls) (retryable kind)
        (λ e. (call_of k (replied r), same, refl, inr (h, listed r.status e), refl))
        (λ e. (call_of k (replied r), same, refl, (refl, h, unlisted r.status e)))

  concluded-Leaves :
      (k : String) (r : ExecResult) (calls : List Call) (w : Work W) (e : Ending R)
      → EndsIn r e
      → w.calls ≡ calls ++ call_of k (replied r) ∷ []
      → Leaves k calls (concluded world k r.status w e)
  unfolding concluded
  concluded-Leaves k r calls w withheld h called = (call_of k (replied r), called, refl, h)
  concluded-Leaves k r calls w (cut_off msg) h called =
      (call_of k (replied r), called, refl, inl (msg, h), refl)
  concluded-Leaves k r calls w (whole x) h called = (call_of k (replied r), called, refl, h)

  received-Leaves :
      (k : String) (calls : List Call) (w : Work W) (e : Executed)
      → w.calls ≡ calls ++ call_of k e ∷ []
      → Leaves k calls (received world k w e)
  unfolding received served unanswered
  received-Leaves k calls w (failed msg) called = (call_of k (failed msg), called, refl, tt, refl)
  received-Leaves k calls w (replied r) called =
      either_branch (Leaves k calls) (leb 400 r.status)
        (λ bad. rejected-Leaves k r calls w (leb→le 400 r.status bad) called)
        (λ good. concluded-Leaves k r calls _ _ (ground arith, _, _, refl) called)

  pub attempt-Leaves :
      (path payload k : String) (w : Work W) → Leaves k w.calls (attempt world path payload k w)
  unfolding attempt
  attempt-Leaves path payload k w =
      let w1 = on world begun w in
      received-Leaves k w.calls _ (world.execute w1.tick w1.up.cfg.name k path payload) refl
