-- ===== src/Server/Failover/Bounded.antt =====
-- How often a request is sent upstream, over all providers, and which call it is answered by.
use claude_code_gateway.Prelude.{
  ℕ, ◌+◌, ◌≤◌, ◌<◌, ◌⊎◌, inl, inr, In, false, Bool-cases, leb, leb→le, ◌==◌, nat_eq, String, List,
  [], ◌∷◌, ◌++◌, ◌≡◌, refl, Option, none, some, arith, ◌∙◌, ap, sym, subst, length, All, All-append,
  string_eq, length-append,
}
use mathlib.Core.List.{append_assoc, append-nil}
use claude_code_gateway.Prelude.GoMap.{get}
use claude_code_gateway.Provider.Registry.{Upstream, Target}
use claude_code_gateway.Server.Attempts.{
  World, Call, delivered, refused, blocked, crashed, Progress, ended, onward, attempts,
}
use claude_code_gateway.Server.Attempts.Answering.{status_of, IsRetried, IsLast}
use claude_code_gateway.Server.Attempts.Counting.{last_of, Account, attempts-Account}
use claude_code_gateway.Server.Failover.{
  Serving, Ended, answered, from_cache, build_failed, exhausted, exhausted_status, enter, leave,
  go_on, recalled, built, visit, usable, serve,
}

last_of-append :
    (st : ℕ) (fs new : List Call) → last_of st (fs ++ new) ≡ last_of (last_of st fs) new
last_of-append st [] new = refl
last_of-append st (a ∷ fs) new = last_of-append (status_of a) fs new

-- The status of the answer where all calls failed, by that of the last.
abbrev pub IsChosen : ℕ → ℕ → Type 0
IsChosen last s =
    (In last (429 ∷ 401 ∷ 403 ∷ []) × (s ≡ last))
    ⊎ ((500 ≤ last) × (s ≡ 503))
    ⊎ ((last < 500) × (¬ In last (429 ∷ 401 ∷ 403 ∷ [])) × (s ≡ 502))

exhausted_status-IsChosen : (last : ℕ) → IsChosen last (exhausted_status last)
unfolding exhausted_status
exhausted_status-IsChosen last = elim (Bool-cases (last == 429)) [
  | inl same ↦ rw same (inl (inl (ground (arith, same)), refl))
  | inr no_429 ↦ elim (Bool-cases (last == 401)) [
    | inl same ↦ rw (no_429, same) (inl (inr (inl (ground (arith, same))), refl))
    | inr no_401 ↦ elim (Bool-cases (last == 403)) [
      | inl same ↦ rw (no_429, no_401, same) (inl (inr (inr (inl (ground (arith, same)))), refl))
      | inr no_403 ↦ elim (Bool-cases (leb 500 last)) [
        | inl high ↦ rw (no_429, no_401, no_403, high) (inr (inl (leb→le 500 last high, refl)))
        | inr low ↦
            rw (no_429, no_401, no_403, low)
              (inr (inr (ground (arith, low), other no_429 no_401 no_403, refl)))
      ]
    ]
  ]
]
  where
    other :
        (last == 429) ≡ false
        → (last == 401) ≡ false
        → (last == 403) ≡ false
        → ¬ In last (429 ∷ 401 ∷ 403 ∷ [])
    other a b c (inl e) = absurd (ground (arith, a, e))
    other a b c (inr (inl e)) = absurd (ground (arith, b, e))
    other a b c (inr (inr (inl e))) = absurd (ground (arith, c, e))
    other a b c (inr (inr (inr e))) = e

module _ {C W R : Type 0} (world : Target → World W R)
    (build : Upstream → Target → Option (String × String))
    (recall : Target → Upstream → String → C → C × Option W) where
  -- A call that was followed by others, whichever target it was made for.
  abbrev pub IsPassed : Call → Type 0
  IsPassed a = (tg : Target) × IsRetried (world tg) a

  -- The end of a request, by the calls that are new: an answer of an upstream is that of the last call
  -- and all before it failed; without such an answer all of them failed.
  abbrev pub Explains : ℕ → List Call → Ended R → Type 0
  Explains st new (answered tg (delivered x)) =
      (before : List Call) × (a : Call) × (new ≡ before ++ a ∷ [])
      × All IsPassed before
      × IsLast (world tg) (delivered x) a
  Explains st new (answered tg (refused s)) =
      (before : List Call) × (a : Call) × (new ≡ before ++ a ∷ [])
      × All IsPassed before
      × IsLast (world tg) (refused s) a
  Explains st new (answered tg blocked) =
      (before : List Call) × (a : Call) × (new ≡ before ++ a ∷ [])
      × All IsPassed before
      × IsLast (world tg) blocked a
  Explains st new (answered tg crashed) = All IsPassed new
  Explains st new (from_cache tg) = All IsPassed new
  Explains st new build_failed = All IsPassed new
  Explains st new (exhausted s) = All IsPassed new × IsChosen (last_of st new) s

  pub record IsBounded (left : ℕ) (log : List Call) (st : ℕ) (r : Serving C W × Ended R)
      : Type 0 where
    pub new : List Call
    pub logged : r.0.calls ≡ log ++ new
    pub bounded : length new ≤ left
    pub explained : Explains st new r.1

  All-IsPassed : (tg : Target) (new : List Call) → All (IsRetried (world tg)) new → All IsPassed new
  All-IsPassed tg [] h = tt
  All-IsPassed tg (a ∷ new) h = ((tg, h.0), All-IsPassed tg new h.1)

  -- Failures before the entries that are explained.
  Explains-append :
      (fs new : List Call) (st : ℕ) (e : Ended R)
      → All IsPassed fs
      → Explains (last_of st fs) new e
      → Explains st (fs ++ new) e
  Explains-append fs new st (answered tg (delivered x)) h (before, a, split, passed, last) = (
    fs ++ before,
    a,
    ap (λ l. fs ++ l) split ∙ sym (append_assoc fs before (a ∷ [])),
    All-append IsPassed fs before h passed,
    last,
  )
  Explains-append fs new st (answered tg (refused x)) h (before, a, split, passed, last) = (
    fs ++ before,
    a,
    ap (λ l. fs ++ l) split ∙ sym (append_assoc fs before (a ∷ [])),
    All-append IsPassed fs before h passed,
    last,
  )
  Explains-append fs new st (answered tg blocked) h (before, a, split, passed, last) = (
    fs ++ before,
    a,
    ap (λ l. fs ++ l) split ∙ sym (append_assoc fs before (a ∷ [])),
    All-append IsPassed fs before h passed,
    last,
  )
  Explains-append fs new st (answered tg crashed) h x = All-append IsPassed fs new h x
  Explains-append fs new st (from_cache tg) h x = All-append IsPassed fs new h x
  Explains-append fs new st build_failed h x = All-append IsPassed fs new h x
  Explains-append fs new st (exhausted s) h (all, e) = (
    All-append IsPassed fs new h all,
    subst (λ l. IsChosen l s) (sym (last_of-append st fs new)) e,
  )

  -- What is bounded after failures is bounded before them.
  IsBounded-after :
      (left left' : ℕ) (log : List Call) (st : ℕ) (fs : List Call) (r : Serving C W × Ended R)
      → All IsPassed fs
      → length fs + left' ≤ left
      → IsBounded left' (log ++ fs) (last_of st fs) r
      → IsBounded left log st r
  IsBounded-after left left' log st fs r h fits b = record {
    new = fs ++ b.new;
    logged = b.logged ∙ append_assoc log fs b.new;
    bounded = omega (arith, length-append {0} fs b.new, b.bounded);
    explained = Explains-append fs b.new st r.1 h b.explained;
  }

  IsBounded-none :
      (left : ℕ) (s : Serving C W) (e : Ended R)
      → Explains s.last_status [] e
      → IsBounded left s.calls s.last_status (s, e)
  IsBounded-none left s e x = record {
    new = [];
    logged = sym (append-nil s.calls);
    bounded = omega arith;
    explained = x;
  }

  go_on-IsBounded :
      (tg : Target) (left : ℕ) (s : Serving C W) (p : Progress W R)
      (rest : ℕ → Serving C W → Serving C W × Ended R)
      → Account (world tg) [] left s.calls s.last_status p
      → ((left' : ℕ) (s' : Serving C W) → IsBounded left' s'.calls s'.last_status (rest left' s'))
      → IsBounded left s.calls s.last_status (go_on world build recall tg s p rest)
  go_on-IsBounded tg left s (ended (delivered x) w) rest f ih = record {
    new = f.new ++ f.last ∷ [];
    logged = f.logged;
    bounded = omega (arith, length-append {0} f.new (f.last ∷ []), f.bounded);
    explained = (f.new, f.last, refl, All-IsPassed tg f.new f.retried, f.answers);
  }
  go_on-IsBounded tg left s (ended (refused x) w) rest f ih = record {
    new = f.new ++ f.last ∷ [];
    logged = f.logged;
    bounded = omega (arith, length-append {0} f.new (f.last ∷ []), f.bounded);
    explained = (f.new, f.last, refl, All-IsPassed tg f.new f.retried, f.answers);
  }
  go_on-IsBounded tg left s (ended blocked w) rest f ih = record {
    new = f.new ++ f.last ∷ [];
    logged = f.logged;
    bounded = omega (arith, length-append {0} f.new (f.last ∷ []), f.bounded);
    explained = (f.new, f.last, refl, All-IsPassed tg f.new f.retried, f.answers);
  }
  go_on-IsBounded tg left s (ended crashed w) rest (f, h) ih = record {
    new = f.new;
    logged = f.logged;
    bounded = f.bounded;
    explained = All-IsPassed tg f.new f.retried;
  }
  go_on-IsBounded tg left s (onward left' w) rest (f, h) ih =
      IsBounded-after left left' s.calls s.last_status f.new (rest left' (leave tg.name w s))
        (All-IsPassed tg f.new f.retried) h
        (subst
          (λ l. IsBounded left' l (last_of s.last_status f.new) (rest left' (leave tg.name w s)))
          f.logged
          (subst (λ v. IsBounded left' w.calls v (rest left' (leave tg.name w s))) f.status
            (ih left' (leave tg.name w s))))

  recalled-IsBounded :
      (tg : Target) (request : String × String) (left : ℕ) (u : Upstream) (s : Serving C W)
      (hit : Option W) (rest : ℕ → Serving C W → Serving C W × Ended R)
      → ((left' : ℕ) (s' : Serving C W) → IsBounded left' s'.calls s'.last_status (rest left' s'))
      → IsBounded left s.calls s.last_status
          (recalled world build recall tg request left u s hit rest)
  recalled-IsBounded tg (payload, path) left u s (some hit) rest ih =
      IsBounded-none left (record s { sent = s.sent ++ hit ∷ [] }) (from_cache tg) tt
  recalled-IsBounded tg (payload, path) left u s none rest ih =
      go_on-IsBounded tg left s (attempts (world tg) path payload left [] (enter u s)) rest
        (attempts-Account (world tg) path payload left [] (enter u s)) ih

  built-IsBounded :
      (tg : Target) (left : ℕ) (u : Upstream) (s : Serving C W) (o : Option (String × String))
      (rest : ℕ → Serving C W → Serving C W × Ended R)
      → ((left' : ℕ) (s' : Serving C W) → IsBounded left' s'.calls s'.last_status (rest left' s'))
      → IsBounded left s.calls s.last_status (built world build recall tg left u s o rest)
  built-IsBounded tg left u s none rest ih = IsBounded-none left s build_failed tt
  built-IsBounded tg left u s (some request) rest ih =
      let (caches, hit) = recall tg u request.0 s.caches in
      recalled-IsBounded tg request left u (record s { caches = caches }) hit rest ih

  visit-IsBounded :
      (tg : Target) (left : ℕ) (s : Serving C W) (o : Option Upstream)
      (rest : ℕ → Serving C W → Serving C W × Ended R)
      → ((left' : ℕ) (s' : Serving C W) → IsBounded left' s'.calls s'.last_status (rest left' s'))
      → IsBounded left s.calls s.last_status (visit world build recall tg left s o rest)
  visit-IsBounded tg left s none rest ih = ih left s
  visit-IsBounded tg left s (some u) rest ih = built-IsBounded tg left u s (build u tg) rest ih

  -- Whatever the upstreams answer, whatever the other requests do, and for any targets: at most as many
  -- calls are made to the upstreams as there are attempts. Where an answer is delivered, or withheld by
  -- the guardrails, it is what the last call gave, with a status below 400; a refusal that is passed on
  -- has the status that the last call gave, which is not listed as one to try again. Every call before
  -- it gave no answer, one that was cut off, or a status from 400 on that is listed. Where nothing else
  -- ends the request all calls failed so, and the status that is chosen for the answer is that of the
  -- last, if it is 429, 401 or 403, else 503 if that is at least 500, and 502 otherwise. (It is not what
  -- the client sees where the headers of a stream were sent before.)
  pub serve-IsBounded :
      (tgs : List Target) (left : ℕ) (s : Serving C W)
      → IsBounded left s.calls s.last_status (serve world build recall tgs left s)
  unfolding serve
  serve-IsBounded [] left s =
      IsBounded-none left s (exhausted (exhausted_status s.last_status))
        (tt, exhausted_status-IsChosen s.last_status)
  serve-IsBounded (tg ∷ tgs) left s =
      visit-IsBounded tg left s (usable (get s.providers tg.name)) (serve world build recall tgs)
        (serve-IsBounded tgs)
