-- ===== src/Server/Failover.antt =====
-- internal/server/handlers.go: the loop of `handleMessages` over the targets of a request, from provider to
-- provider, and the answer where all of them failed. Building the request to the upstream and the lookup
-- in the caches are arguments here. The status at an end is the one that the code chooses: where it has
-- sent the headers of a stream before, the client has seen 200.
pub mod Bounded
mod Examples
use claude_code_gateway.Prelude.{
  ℕ, zero, suc, ◌+◌, String, Bool, true, false, ◌||◌, List, [], ◌∷◌, ◌++◌, Option, none, some, leb,
  if◌then◌else◌, ◌==◌, nat_eq, string_eq, length,
}
use claude_code_gateway.Prelude.GoMap.{GoMap, get, put}
use claude_code_gateway.Prelude.Int.{ℤ, ltb_ℤ, pos, pos_part}
use claude_code_gateway.Provider.Registry.{Upstream, Target}
use claude_code_gateway.Server.Attempts.{
  World, Attempt, Call, Work, Answered, Progress, ended, onward, attempts,
}

-- `attemptsLeft`: the configured number, or that of the request where it has one.
abbrev pub attempts_allowed : ℤ → ℕ → ℕ
attempts_allowed configured asked = if leb 1 asked then asked else pos_part configured

-- The status where every provider failed.
unfoldable pub exhausted_status : ℕ → ℕ
exhausted_status last =
    if last == 429 || last == 401 || last == 403 then last else if leb 500 last then 503 else 502

-- The state of a request between two targets: the providers, what the caches hold, and what `Work` has.
pub record Serving (C W : Type 0) : Type 0 where
  pub providers : GoMap String Upstream
  pub caches : C
  pub tick : ℕ
  pub sent : List W
  pub log : List Attempt
  pub calls : List Call
  pub last_prov : String
  pub last_msg : String
  pub last_status : ℕ

-- How a request ends.
pub data Ended (R : Type 0) : Type 0 where
  answered : Target → Answered R → Ended R
  from_cache : Target → Ended R
  build_failed : Ended R
  exhausted : ℕ → Ended R

abbrev pub enter : {C W : Type 0} → Upstream → Serving C W → Work W
enter u s = record {
  up = u;
  tick = s.tick;
  sent = s.sent;
  log = s.log;
  calls = s.calls;
  last_prov = s.last_prov;
  last_msg = s.last_msg;
  last_status = s.last_status;
}

abbrev pub leave : {C W : Type 0} → String → Work W → Serving C W → Serving C W
leave name w s = record s {
  providers = put s.providers name w.up;
  tick = w.tick;
  sent = w.sent;
  log = w.log;
  calls = w.calls;
  last_prov = w.last_prov;
  last_msg = w.last_msg;
  last_status = w.last_status;
}

-- A provider that the registry knows and that has keys.
abbrev pub usable : Option Upstream → Option Upstream
usable none = none
usable (some u) = if length u.pool.keys == 0 then none else some u

module _ {C W R : Type 0} (world : Target → World W R)
    (build : Upstream → Target → Option (String × String))
    (recall : Target → Upstream → String → C → C × Option W) where
  -- What follows the attempts with a provider: `rest` is the loop over the other targets.
  abbrev pub go_on :
      Target
      → Serving C W
      → Progress W R
      → (ℕ → Serving C W → Serving C W × Ended R)
      → Serving C W × Ended R
  go_on tg s (ended a w) rest = (leave tg.name w s, answered tg a)
  go_on tg s (onward left w) rest = rest left (leave tg.name w s)

  -- What follows the lookup in the caches.
  abbrev pub recalled :
      Target
      → String × String
      → ℕ
      → Upstream
      → Serving C W
      → Option W
      → (ℕ → Serving C W → Serving C W × Ended R)
      → Serving C W × Ended R
  recalled tg (payload, path) left u s (some hit) rest =
      (record s { sent = s.sent ++ hit ∷ [] }, from_cache tg)
  recalled tg (payload, path) left u s none rest =
      go_on tg s (attempts (world tg) path payload left [] (enter u s)) rest

  abbrev pub built :
      Target
      → ℕ
      → Upstream
      → Serving C W
      → Option (String × String)
      → (ℕ → Serving C W → Serving C W × Ended R)
      → Serving C W × Ended R
  built tg left u s none rest = (s, build_failed)
  built tg left u s (some request) rest =
      let (caches, hit) = recall tg u request.0 s.caches in
      recalled tg request left u (record s { caches = caches }) hit rest

  abbrev pub visit :
      Target
      → ℕ
      → Serving C W
      → Option Upstream
      → (ℕ → Serving C W → Serving C W × Ended R)
      → Serving C W × Ended R
  visit tg left s none rest = rest left s
  visit tg left s (some u) rest = built tg left u s (build u tg) rest

  -- The loop over the targets, with the attempts that are left.
  unfoldable pub serve : List Target → ℕ → Serving C W → Serving C W × Ended R
  unfolding exhausted_status
  serve [] left s = (s, exhausted (exhausted_status s.last_status))
  serve (tg ∷ tgs) left s = visit tg left s (usable (get s.providers tg.name)) (serve tgs)
