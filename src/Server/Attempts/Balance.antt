-- ===== src/Server/Attempts/Balance.antt =====
-- The calls in flight of a provider, over the attempts with it.
use claude_code_gateway.Prelude.{
  ℕ, zero, suc, ◌+◌, String, Bool, true, false, List, [], ◌∷◌, ◌++◌, subst, ◌≡◌, refl, ◌∙◌, ap, ltb,
  leb, length, either_branch,
}
use claude_code_gateway.Prelude.Int.{ℤ, pos, negsuc, ◌+ℤ◌}
use claude_code_gateway.Provider.Breaker.Load.{
  inflight-note_upstream, inflight-begin_request, inflight-end_request, add_sub_one,
}
use claude_code_gateway.Provider.Pool.{
  Pool, Picked, no_keys, key, panic, pick, report, report_hint, success, soft_fail, hard_fail,
}
use claude_code_gateway.Provider.Registry.{Upstream}
use claude_code_gateway.Server.Attempts.{
  FailKind, fatal, soft, hard, retryable, classify_status, Executed, failed, replied, ExecResult,
  Ending, whole, cut_off, withheld, World, Work, delivered, refused, blocked, crashed, Tried,
  settled, again, Progress, ended, onward, parse_retry_after, on, reported, noted, begun, finished,
  unanswered, penalised, rejected, concluded, served, received, attempt, carry_on, round, attempts,
  has_key,
}

abbrev pub load : {W : Type 0} → Work W → ℤ
load w = w.up.health.inflight

-- What an attempt comes to, `n` being the calls in flight when it has begun.
abbrev Ends : {W R : Type 0} → ℤ → Tried W R → Type 0
Ends n (again w) = load w ≡ n +ℤ negsuc 0
Ends n (settled (delivered x) w) = load w ≡ n +ℤ negsuc 0
Ends n (settled (refused s) w) = load w ≡ n +ℤ negsuc 0
Ends n (settled blocked w) = load w ≡ n
Ends n (settled crashed w) = load w ≡ n +ℤ negsuc 0

-- The calls in flight after a request, and between two of its attempts, are as many as before; but
-- one more where the guardrails withheld the answer.
abbrev pub Balanced : {W R : Type 0} → ℤ → Progress W R → Type 0
Balanced n (ended (delivered x) w) = load w ≡ n
Balanced n (ended (refused s) w) = load w ≡ n
Balanced n (ended blocked w) = load w ≡ n +ℤ pos 1
Balanced n (ended crashed w) = load w ≡ n
Balanced n (onward left w) = load w ≡ n

module _ {W R : Type 0} (world : World W R)
    (steady : (n : ℕ) (u : Upstream) → (world.others n u).health.inflight ≡ u.health.inflight) where
  load-on_noted : (ok : Bool) (t : ℕ) (w : Work W) → load (on world (noted ok t) w) ≡ load w
  load-on_noted ok t w =
      inflight-note_upstream ok t (world.others w.tick w.up).health ∙ steady w.tick w.up

  load-on_begun : (w : Work W) → load (on world begun w) ≡ load w +ℤ pos 1
  load-on_begun w =
      inflight-begin_request (world.others w.tick w.up).health
      ∙ ap (λ n. n +ℤ pos 1) (steady w.tick w.up)

  load-on_finished :
      (ms : ℤ) (w : Work W) → load (on world (finished world ms) w) ≡ load w +ℤ negsuc 0
  load-on_finished ms w =
      inflight-end_request world.smooth ms (world.others w.tick w.up).health
      ∙ ap (λ n. n +ℤ negsuc 0) (steady w.tick w.up)

  load-on_reported : (f : Pool → Pool) (w : Work W) → load (on world (reported f) w) ≡ load w
  load-on_reported f w = steady w.tick w.up

  load-penalised :
      (kind : FailKind) (k hint : String) (w : Work W)
      → load (penalised world kind k hint w) ≡ load w
  load-penalised fatal k hint w = refl
  load-penalised soft k hint w =
      let min_wait = parse_retry_after world.atoi world.parse_time (world.now w.tick) hint in
      let f = report_hint (world.now w.tick) k soft_fail min_wait in
      let w1 = on world (reported f) w in
      load-on_noted false (world.now w1.tick) w1 ∙ load-on_reported f w
  load-penalised hard k hint w =
      let f = report (world.now w.tick) k hard_fail in
      let w1 = on world (reported f) w in
      load-on_noted false (world.now w1.tick) w1 ∙ load-on_reported f w

  unanswered-Ends :
      (k msg : String) (w : Work W) → Ends {R = R} (load w) (again (unanswered world k msg w))
  unfolding unanswered
  unanswered-Ends k msg w =
      let w1 = on world (finished world (world.elapsed w.tick)) w in
      let f = report (world.now w1.tick) k soft_fail in
      let w2 = on world (reported f) w1 in
      load-on_noted false (world.now w2.tick) w2
      ∙ load-on_reported f w1
      ∙ load-on_finished (world.elapsed w.tick) w

  rejected-Ends : (k : String) (r : ExecResult) (w : Work W) → Ends (load w) (rejected world k r w)
  unfolding rejected
  rejected-Ends k r w =
      let w1 = on world (finished world (world.elapsed w.tick)) w in
      let kind = classify_status r.status world.retry_statuses world.key_fail_status in
      let e = load-penalised kind k r.retry_after w1 ∙ load-on_finished (world.elapsed w.tick) w in
      either_branch (Ends (load w)) (retryable kind) (λ _. e) (λ _. e)

  concluded-Ends :
      (k : String) (status : ℕ) (w : Work W) (e : Ending R)
      → Ends (load w) (concluded world k status w e)
  unfolding concluded
  concluded-Ends k status w withheld = refl
  concluded-Ends k status w (cut_off msg) = load-on_finished (world.elapsed w.tick) w
  concluded-Ends k status w (whole x) = load-on_finished (world.elapsed w.tick) w

  served-Ends : (k : String) (r : ExecResult) (w : Work W) → Ends (load w) (served world k r w)
  unfolding served
  served-Ends k r w =
      let f = report (world.now w.tick) k success in
      let w1 = on world (reported f) w in
      let w2 = on world (noted true (world.now w1.tick)) w1 in
      let d = world.deliver w2.tick w2.up r in
      let w3 = record w2 { sent = w2.sent ++ d.written } in
      subst (λ n. Ends n (concluded world k r.status w3 d.ending))
        (load-on_noted true (world.now w1.tick) w1 ∙ load-on_reported f w)
        (concluded-Ends k r.status w3 d.ending)

  received-Ends : (k : String) (w : Work W) (e : Executed) → Ends (load w) (received world k w e)
  unfolding received
  received-Ends k w (failed msg) = unanswered-Ends k msg w
  received-Ends k w (replied r) =
      either_branch (Ends (load w)) (leb 400 r.status) (λ _. rejected-Ends k r w)
        (λ _. served-Ends k r w)

  carry_on-Balanced :
      (n : ℤ) (t : Tried W R) (rest : Work W → Progress W R)
      → Ends (n +ℤ pos 1) t
      → ((w : Work W) → load w ≡ n → Balanced n (rest w))
      → Balanced n (carry_on t rest)
  carry_on-Balanced n (again w) rest h ih = ih w (h ∙ add_sub_one n)
  carry_on-Balanced n (settled (delivered x) w) rest h ih = h ∙ add_sub_one n
  carry_on-Balanced n (settled (refused s) w) rest h ih = h ∙ add_sub_one n
  carry_on-Balanced n (settled blocked w) rest h ih = h
  carry_on-Balanced n (settled crashed w) rest h ih = h ∙ add_sub_one n

  attempt-Ends :
      (path payload k : String) (w : Work W)
      → Ends (load w +ℤ pos 1) (attempt world path payload k w)
  unfolding attempt
  attempt-Ends path payload k w =
      let w1 = on world begun w in
      let e = world.execute w1.tick w1.up.cfg.name k path payload in
      let w2 = record w1 { calls = w1.calls ++ record { key = k; gave = e } ∷ [] } in
      subst (λ n. Ends n (received world k w2 e)) (load-on_begun w) (received-Ends k w2 e)

  round-Balanced :
      (path payload : String) (left : ℕ) (tried : List String) (n : ℤ) (w : Work W)
      (picked : Picked) (rest : List String → Work W → Progress W R)
      → load w ≡ n
      → ((ks : List String) (w' : Work W) → load w' ≡ n → Balanced n (rest ks w'))
      → Balanced n (round world path payload left tried w picked rest)
  unfolding round
  round-Balanced path payload left tried n w no_keys rest h ih = h
  round-Balanced path payload left tried n w panic rest h ih = h
  round-Balanced path payload left tried n w (key k) rest h ih =
      either_branch (Balanced n) (has_key k tried) (λ _. ih tried w h)
        (λ _.
          carry_on-Balanced n (attempt world path payload k w) (rest (k ∷ tried))
            (subst (λ m. Ends (m +ℤ pos 1) (attempt world path payload k w)) h
              (attempt-Ends path payload k w))
            (ih (k ∷ tried)))

  attempts-Balanced_from :
      (path payload : String) (left : ℕ) (tried : List String) (n : ℤ) (w : Work W)
      → load w ≡ n
      → Balanced n (attempts world path payload left tried w)
  unfolding attempts
  attempts-Balanced_from path payload zero tried n w h = h
  attempts-Balanced_from path payload (suc left) tried n w h =
      let up = world.others w.tick w.up in
      let (pool, picked) = pick (world.now w.tick) up.pool in
      let w1 = record w { up = record up { pool = pool }; tick = w.tick + 1 } in
      either_branch (Balanced n) (ltb (length tried) (length w.up.pool.keys))
        (λ _.
          round-Balanced path payload left tried n w1 picked (attempts world path payload left)
            (steady w.tick w.up ∙ h) (λ ks w'. attempts-Balanced_from path payload left ks n w'))
        (λ _. h)

  -- Where the other requests leave the number of calls in flight of a provider as it is: the attempts
  -- with it leave it so too, however they end, but for an answer that the guardrails withhold, after
  -- which one call too many stays in flight.
  pub attempts-Balanced :
      (path payload : String) (left : ℕ) (tried : List String) (w : Work W)
      → Balanced (load w) (attempts world path payload left tried w)
  attempts-Balanced path payload left tried w =
      attempts-Balanced_from path payload left tried (load w) w refl
