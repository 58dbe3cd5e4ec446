-- ===== src/Server/Attempts/Counting.antt =====
-- The attempts with one provider: how many there are, with which keys, and which of them is the last.
use claude_code_gateway.Prelude.{
  ℕ, zero, suc, ◌+◌, ◌≤◌, ◌<◌, String, false, List, [], ◌∷◌, ◌++◌, ◌≡◌, refl, arith, ltb,
  either_branch, ◌∙◌, sym, subst, length, All, string_eq,
}
use mathlib.Core.List.{append_assoc, append-nil}
use claude_code_gateway.Provider.Pool.{Picked, no_keys, key, panic, pick}
use claude_code_gateway.Server.Attempts.{
  World, Call, Work, Answered, delivered, refused, blocked, crashed, Tried, settled, again,
  carry_on, attempt, round, attempts, Progress, ended, onward, has_key, Executed, failed, replied,
}
use claude_code_gateway.Server.Attempts.Answering.{
  status_of, IsRetried, IsLast, IsAnswer, Leaves, attempt-Leaves,
}

-- Calls with keys that are not among those tried, each once.
abbrev pub Fresh : List String → List Call → Type 0
Fresh tried [] = Unit {0}
Fresh tried (a ∷ as') = (has_key a.key tried ≡ false) × Fresh (a.key ∷ tried) as'

-- The status of the last call, or what it was before.
abbrev pub last_of : ℕ → List Call → ℕ
last_of st [] = st
last_of st (a ∷ as') = last_of (status_of a) as'

module _ {W R : Type 0} (world : World W R) where
  -- New calls that all failed, and the last status.
  pub record Failures (tried : List String) (left : ℕ) (log : List Call) (st : ℕ) (log' : List Call)
      (st' : ℕ) : Type 0 where
    pub new : List Call
    pub logged : log' ≡ log ++ new
    pub retried : All (IsRetried world) new
    pub fresh : Fresh tried new
    pub bounded : length new ≤ left
    pub status : st' ≡ last_of st new

  -- The same, and the last one, which is not a failure.
  pub record Success (tried : List String) (left : ℕ) (a : Answered R) (log log' : List Call)
      : Type 0 where
    pub new : List Call
    pub last : Call
    pub logged : log' ≡ log ++ (new ++ last ∷ [])
    pub retried : All (IsRetried world) new
    pub fresh : Fresh tried (new ++ last ∷ [])
    pub bounded : length new < left
    pub answers : IsLast world a last

  -- What the attempts come to: an answer with its call as the last of them, or failures, with the
  -- attempts that are left over.
  abbrev pub Account : List String → ℕ → List Call → ℕ → Progress W R → Type 0
  Account tried left log st (ended (delivered x) w) = Success tried left (delivered x) log w.calls
  Account tried left log st (ended (refused s) w) = Success tried left (refused s) log w.calls
  Account tried left log st (ended blocked w) = Success tried left blocked log w.calls
  Account tried left log st (ended crashed w) =
      (f : Failures tried left log st w.calls w.last_status) × (length f.new < left)
  Account tried left log st (onward left' w) =
      (f : Failures tried left log st w.calls w.last_status) × (length f.new + left' ≤ left)

  Failures-none :
      (tried : List String) (left : ℕ) (log : List Call) (st : ℕ)
      → Failures tried left log st log st
  Failures-none tried left log st = record {
    new = [];
    logged = sym (append-nil log);
    retried = tt;
    fresh = tt;
    bounded = omega arith;
    status = refl;
  }

  -- What the rest of the loop comes to, after a failure with a key that was not tried before.
  module _ (tried : List String) (left : ℕ) (log : List Call) (st : ℕ) (a : Call)
      (untried : has_key a.key tried ≡ false) (bad : IsRetried world a) where
    Failures-cons :
        {log' : List Call} {st' : ℕ}
        → Failures (a.key ∷ tried) left (log ++ a ∷ []) (status_of a) log' st'
        → Failures tried (suc left) log st log' st'
    Failures-cons f = record {
      new = a ∷ f.new;
      logged = f.logged ∙ append_assoc log (a ∷ []) f.new;
      retried = (bad, f.retried);
      fresh = (untried, f.fresh);
      bounded = omega (arith, f.bounded);
      status = f.status;
    }

    Success-cons :
        {log' : List Call} (x : Answered R)
        → Success (a.key ∷ tried) left x (log ++ a ∷ []) log'
        → Success tried (suc left) x log log'
    Success-cons x f = record {
      new = a ∷ f.new;
      last = f.last;
      logged = f.logged ∙ append_assoc log (a ∷ []) (f.new ++ f.last ∷ []);
      retried = (bad, f.retried);
      fresh = (untried, f.fresh);
      bounded = omega (arith, f.bounded);
      answers = f.answers;
    }

    Account-cons :
        (p : Progress W R)
        → Account (a.key ∷ tried) left (log ++ a ∷ []) (status_of a) p
        → Account tried (suc left) log st p
    unfolding Failures-cons
    Account-cons (ended (delivered x) w) s = Success-cons (delivered x) s
    Account-cons (ended (refused x) w) s = Success-cons (refused x) s
    Account-cons (ended blocked w) s = Success-cons blocked s
    Account-cons (ended crashed w) (f, h) = (Failures-cons f, omega (arith, h))
    Account-cons (onward left' w) (f, h) = (Failures-cons f, omega (arith, h))

  -- Attempts that were not made do no harm.
  Failures-suc :
      (tried : List String) (left : ℕ) (log : List Call) (st : ℕ) (log' : List Call) (st' : ℕ)
      → Failures tried left log st log' st'
      → Failures tried (suc left) log st log' st'
  Failures-suc tried left log st log' st' f = record {
    status = f.status;
    new = f.new;
    logged = f.logged;
    retried = f.retried;
    fresh = f.fresh;
    bounded = omega (arith, f.bounded);
  }

  Success-suc :
      (tried : List String) (left : ℕ) (x : Answered R) (log log' : List Call)
      → Success tried left x log log'
      → Success tried (suc left) x log log'
  Success-suc tried left x log log' s = record {
    new = s.new;
    last = s.last;
    logged = s.logged;
    retried = s.retried;
    fresh = s.fresh;
    bounded = omega (arith, s.bounded);
    answers = s.answers;
  }

  Account-suc :
      (tried : List String) (left : ℕ) (log : List Call) (st : ℕ) (p : Progress W R)
      → Account tried left log st p
      → Account tried (suc left) log st p
  unfolding Failures-suc
  Account-suc tried left log st (ended (delivered x) w) s =
      Success-suc tried left (delivered x) log w.calls s
  Account-suc tried left log st (ended (refused x) w) s =
      Success-suc tried left (refused x) log w.calls s
  Account-suc tried left log st (ended blocked w) s = Success-suc tried left blocked log w.calls s
  Account-suc tried left log st (ended crashed w) (f, h) =
      (Failures-suc tried left log st w.calls w.last_status f, omega (arith, h))
  Account-suc tried left log st (onward left' w) (f, h) =
      (Failures-suc tried left log st w.calls w.last_status f, omega (arith, h))

  single :
      (tried : List String) (left : ℕ) (log log' : List Call) (k : String) (x : Answered R)
      → has_key k tried ≡ false
      → (a : Call) × (log' ≡ log ++ a ∷ []) × (a.key ≡ k) × IsLast world x a
      → Success tried (suc left) x log log'
  single tried left log log' k x untried (a, logged, e, last) = record {
    new = [];
    last = a;
    logged = logged;
    retried = tt;
    fresh = (rw e untried, tt);
    bounded = omega arith;
    answers = last;
  }

  crashed-not-IsAnswer : (e : Executed) → ¬ IsAnswer world crashed e
  crashed-not-IsAnswer (failed msg) h = h
  crashed-not-IsAnswer (replied r) h = h

  -- One more attempt, and what follows it.
  carry_on-Account :
      (tried : List String) (left : ℕ) (log : List Call) (st : ℕ) (k : String) (t : Tried W R)
      (rest : Work W → Progress W R)
      → has_key k tried ≡ false
      → Leaves world k log t
      → ((w : Work W) → Account (k ∷ tried) left w.calls w.last_status (rest w))
      → Account tried (suc left) log st (carry_on t rest)
  unfolding Failures-none
  carry_on-Account tried left log st k (settled (delivered x) w) rest untried l ih =
      single tried left log w.calls k (delivered x) untried l
  carry_on-Account tried left log st k (settled (refused x) w) rest untried l ih =
      single tried left log w.calls k (refused x) untried l
  carry_on-Account tried left log st k (settled blocked w) rest untried l ih =
      single tried left log w.calls k blocked untried l
  carry_on-Account tried left log st k (settled crashed w) rest untried (a, logged, e, last) ih =
      absurd (crashed-not-IsAnswer a.gave last)
  carry_on-Account tried left log st k (again w) rest untried (a, logged, e, bad, last) ih =
      Account-cons tried left log st a (rw e untried) bad (rest w) (
        subst (λ j. Account (j ∷ tried) left (log ++ a ∷ []) (status_of a) (rest w)) (sym e)
          (subst (λ l. Account (k ∷ tried) left l (status_of a) (rest w)) logged
            (subst (λ v. Account (k ∷ tried) left w.calls v (rest w)) last (ih w))))

  round-Account :
      (path payload : String) (left : ℕ) (tried : List String) (w : Work W) (picked : Picked)
      (rest : List String → Work W → Progress W R)
      → ((ks : List String) (w' : Work W) → Account ks left w'.calls w'.last_status (rest ks w'))
      → Account tried
          (suc left)
          w.calls
          w.last_status
          (round world path payload left tried w picked rest)
  unfolding round Failures-none
  round-Account path payload left tried w no_keys rest ih =
      (Failures-none tried (suc left) w.calls w.last_status, omega arith)
  round-Account path payload left tried w panic rest ih =
      (Failures-none tried (suc left) w.calls w.last_status, omega arith)
  round-Account path payload left tried w (key k) rest ih =
      either_branch (Account tried (suc left) w.calls w.last_status) (has_key k tried)
        (λ known. Account-suc tried left w.calls w.last_status (rest tried w) (ih tried w))
        (λ untried.
          carry_on-Account tried left w.calls w.last_status k (attempt world path payload k w)
            (rest (k ∷ tried)) untried (attempt-Leaves world path payload k w) (ih (k ∷ tried)))

  -- What the attempts with a provider come to, whatever the others do meanwhile.
  pub attempts-Account :
      (path payload : String) (left : ℕ) (tried : List String) (w : Work W)
      → Account tried left w.calls w.last_status (attempts world path payload left tried w)
  unfolding attempts Failures-none
  attempts-Account path payload zero tried w =
      (Failures-none tried zero w.calls w.last_status, omega arith)
  attempts-Account path payload (suc left) tried w =
      let up = world.others w.tick w.up in
      let (pool, picked) = pick (world.now w.tick) up.pool in
      let w1 = record w { up = record up { pool = pool }; tick = w.tick + 1 } in
      either_branch (Account tried (suc left) w.calls w.last_status)
        (ltb (length tried) (length w.up.pool.keys))
        (λ more.
          round-Account path payload left tried w1 picked (attempts world path payload left)
            (attempts-Account path payload left))
        (λ full. (Failures-none tried (suc left) w.calls w.last_status, omega arith))
