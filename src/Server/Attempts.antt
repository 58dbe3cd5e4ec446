-- ===== src/Server/Attempts.antt =====
-- internal/server/handlers.go: the attempts to have a request answered by one provider, the inner loop of
-- `handleMessages`. What happens between two steps of a request, `others`, is what the other requests
-- do to the provider; what the upstream answers, the clock and the time that a call took are parameters
-- too. Building a request and delivering an answer are steps of their own, in modules beside this one.
pub mod Counting
pub mod Answering
pub mod Balance
pub mod Once
pub mod Examples
use Prim.Native.String.{len, slice, ◌++◌ as str_append}
use claude_code_gateway.Prelude.{
  ℕ, zero, suc, ◌+◌, ◌-◌, ◌*◌, ◌%◌, ◌^◌, String, Bool, true, false, ◌||◌, List, [], ◌∷◌, ◌++◌,
  Option, none, some, ltb, leb, nat_beq, if◌then◌else◌, ◌==◌, string_eq, nat_eq, length,
}
use claude_code_gateway.Prelude.Int.{ℤ, pos, ltb_ℤ, pos_part}
use claude_code_gateway.Prelude.Text.{trim_space}
use claude_code_gateway.Prelude.Time.{second, minute}
use claude_code_gateway.Provider.Pool.{
  Pool, Picked, no_keys, key, panic, pick, report, report_hint, success, soft_fail, hard_fail,
}
use claude_code_gateway.Provider.Breaker.{note_upstream, begin_request, end_request}
use claude_code_gateway.Provider.Registry.{Upstream}

-- `parseRetryAfter`; `http.ParseTime` gives the moment that a text names. The product of seconds wraps
-- around in 64 bits; a duration below 0 is 0 here, since `ReportHint` takes it only where it is more
-- than a wait of its own.
abbrev pub ten_minutes_at_most : ℕ → ℕ
ten_minutes_at_most d = if ltb (10 * minute) d then 10 * minute else d

abbrev pub wrapped : ℕ → ℕ
wrapped d = let n = d % 2 ^ 64 in if ltb n (2 ^ 63) then n else 0

unfoldable pub parse_retry_after : (String → Option ℤ) → (String → Option ℕ) → ℕ → String → ℕ
parse_retry_after atoi parse_time now h =
    let s = trim_space h in
    let by_date : ℕ = elim (parse_time s) [ none ↦ 0 | some t ↦ ten_minutes_at_most (t - now) ] in
    if s == "" then 0 else elim (atoi s) [
      | none ↦ by_date
      | some n ↦
          if ltb_ℤ (pos 0) n then ten_minutes_at_most (wrapped (pos_part n * second)) else by_date
    ]

pub data FailKind : Type 0 where
  fatal soft hard : FailKind

abbrev pub retryable : FailKind → Bool
retryable fatal = false
retryable soft = true
retryable hard = true

abbrev pub among : ℕ → List ℕ → Bool
among s [] = false
among s (c ∷ cs) = if s == c then true else among s cs

unfoldable pub classify_status : ℕ → List ℕ → List ℕ → FailKind
classify_status status soft_list hard_list =
    if among status hard_list then hard else if among status soft_list then soft else fatal

-- `TrimString`, for a text of ASCII characters.
unfoldable pub trim_string : String → ℕ → String
trim_string s n = if leb (len s) n then s else str_append (trim_space (slice s 0 n)) "..."

-- `FirstNonEmptyStr` of two texts
unfoldable pub first_non_blank : String → String → String
first_non_blank v w = if trim_space v == "" then if trim_space w == "" then "" else w else v

-- A body: its lines, as far as they can be read, its text, as far as the reader with a limit gives it, and
-- the error that reading ends in, if any.
pub record Body : Type 0 where
  pub lines : List String
  pub text : String
  pub fault : Option String

pub record ExecResult : Type 0 where
  pub status : ℕ
  pub content_type : String
  pub retry_after : String
  pub err_msg : String
  pub body : Body

-- What `Execute` returns.
pub data Executed : Type 0 where
  failed : String → Executed
  replied : ExecResult → Executed

-- How the delivery of an answer ends: whole, cut off by an error, or withheld by the guardrails.
pub data Ending (R : Type 0) : Type 0 where
  whole : R → Ending R
  cut_off : String → Ending R
  withheld : Ending R

-- What is written to the client, and how it ended.
pub record Delivery (W R : Type 0) : Type 0 where
  pub written : List W
  pub ending : Ending R

-- What is fixed during a request, and its surroundings: `W` is what can be written to the client, and `R`
-- what a delivered answer leaves to be noted.
pub record World (W R : Type 0) : Type 0 where
  pub retry_statuses : List ℕ
  pub key_fail_status : List ℕ
  pub now : ℕ → ℕ
  pub elapsed : ℕ → ℤ
  pub smooth : ℕ → ℤ → ℕ
  pub others : ℕ → Upstream → Upstream
  pub execute : ℕ → String → String → String → String → Executed
  pub atoi : String → Option ℤ
  pub parse_time : String → Option ℕ
  pub deliver : ℕ → Upstream → ExecResult → Delivery W R
  pub pass_through : ℕ → String → W

-- One attempt that reached the upstream, as the log has it.
pub record Attempt : Type 0 where
  pub provider : String
  pub key : String
  pub status : ℕ
  pub error : String

-- A call of `Execute`, by its key and what it returned.
pub record Call : Type 0 where
  pub key : String
  pub gave : Executed

-- The state of a request during the attempts with a provider: `tick` counts the steps, and `calls` are
-- all calls of `Execute`, which the program does not keep.
pub record Work (W : Type 0) : Type 0 where
  pub up : Upstream
  pub tick : ℕ
  pub sent : List W
  pub log : List Attempt
  pub calls : List Call
  pub last_prov : String
  pub last_msg : String
  pub last_status : ℕ

-- What became of a request.
pub data Answered (R : Type 0) : Type 0 where
  delivered : R → Answered R
  refused : ℕ → Answered R
  blocked : Answered R
  crashed : Answered R

-- How an attempt and the attempts with a provider end: with an answer, or so that others may follow.
pub data Tried (W R : Type 0) : Type 0 where
  settled : Answered R → Work W → Tried W R
  again : Work W → Tried W R

pub data Progress (W R : Type 0) : Type 0 where
  ended : Answered R → Work W → Progress W R
  onward : ℕ → Work W → Progress W R

abbrev pub reported : (Pool → Pool) → Upstream → Upstream
reported f u = record u { pool = f u.pool }

abbrev pub noted : Bool → ℕ → Upstream → Upstream
noted ok now u = record u { health = note_upstream ok now u.health }

abbrev pub begun : Upstream → Upstream
begun u = record u { health = begin_request u.health }

abbrev pub has_key : String → List String → Bool
has_key k [] = false
has_key k (j ∷ js) = if j == k then true else has_key k js

-- The loop goes on after a failure.
abbrev pub carry_on : {W R : Type 0} → Tried W R → (Work W → Progress W R) → Progress W R
carry_on (settled a w) rest = ended a w
carry_on (again w) rest = rest w

-- The end of a call that failed: its entry in the log, and the last failure.
abbrev pub fail : {W : Type 0} → String → ℕ → String → Work W → Work W
fail k status msg w = record w {
  log = w.log ++ record { provider = w.up.cfg.name; key = k; status = status; error = msg } ∷ [];
  last_prov = w.up.cfg.name;
  last_msg = msg;
  last_status = status;
}

module _ {W R : Type 0} (world : World W R) where
  -- A step on the provider, after what the others did to it.
  abbrev pub on : (Upstream → Upstream) → Work W → Work W
  on f w = record w { up = f (world.others w.tick w.up); tick = w.tick + 1 }

  abbrev pub finished : ℤ → Upstream → Upstream
  finished ms u = record u { health = end_request world.smooth ms u.health }

  -- A call that the upstream did not answer.
  unfoldable pub unanswered : String → String → Work W → Work W
  unanswered k msg w =
      let w1 = on (finished (world.elapsed w.tick)) w in
      let w2 = on (reported (report (world.now w1.tick) k soft_fail)) w1 in
      fail k 0 (trim_string msg 400) (on (noted false (world.now w2.tick)) w2)

  abbrev pub penalised : FailKind → String → String → Work W → Work W
  penalised fatal k hint w = w
  penalised hard k hint w =
      let w1 = on (reported (report (world.now w.tick) k hard_fail)) w in
      on (noted false (world.now w1.tick)) w1
  penalised soft k hint w =
      let min_wait = parse_retry_after world.atoi world.parse_time (world.now w.tick) hint in
      let w1 = on (reported (report_hint (world.now w.tick) k soft_fail min_wait)) w in
      on (noted false (world.now w1.tick)) w1

  -- A status of 400 or above.
  unfoldable pub rejected : String → ExecResult → Work W → Tried W R
  unfolding classify_status parse_retry_after trim_string first_non_blank
  rejected k r w =
      let w1 = on (finished (world.elapsed w.tick)) w in
      let kind = classify_status r.status world.retry_statuses world.key_fail_status in
      let msg = trim_string (first_non_blank r.err_msg r.body.text) 400 in
      let w2 = fail k r.status msg (penalised kind k r.retry_after w1) in
      if retryable kind
      then again w2
      else settled (refused r.status)
          (record w2 { sent = w2.sent ++ world.pass_through r.status r.body.text ∷ [] })

  -- What follows a delivery. Where the guardrails withhold the answer, the request is not ended.
  unfoldable pub concluded : String → ℕ → Work W → Ending R → Tried W R
  unfolding trim_string
  concluded k status w withheld = settled blocked w
  concluded k status w (cut_off msg) =
      again (fail k status (trim_string msg 300) (on (finished (world.elapsed w.tick)) w))
  concluded k status w (whole x) =
      let w' = on (finished (world.elapsed w.tick)) w in
      settled (delivered x) (record w' {
        log =
            w'.log
            ++ record { provider = w'.up.cfg.name; key = k; status = status; error = "" } ∷ [];
      })

  -- An answer that is sent on.
  unfoldable pub served : String → ExecResult → Work W → Tried W R
  unfolding concluded
  served k r w =
      let w1 = on (reported (report (world.now w.tick) k success)) w in
      let w2 = on (noted true (world.now w1.tick)) w1 in
      let d = world.deliver w2.tick w2.up r in
      concluded k r.status (record w2 { sent = w2.sent ++ d.written }) d.ending

  -- What follows a call.
  unfoldable pub received : String → Work W → Executed → Tried W R
  unfolding unanswered rejected served
  received k w (failed msg) = again (unanswered k msg w)
  received k w (replied r) = if leb 400 r.status then rejected k r w else served k r w

  -- One attempt with a key, by the path and the payload of the request to the upstream.
  unfoldable pub attempt : String → String → String → Work W → Tried W R
  unfolding received
  attempt path payload k w =
      let w1 = on begun w in
      let e = world.execute w1.tick w1.up.cfg.name k path payload in
      received k (record w1 { calls = w1.calls ++ record { key = k; gave = e } ∷ [] }) e

  -- One round of the loop over the keys, for what `Pick` returned: `rest` is the loop.
  unfoldable pub round :
      String
      → String
      → ℕ
      → List String
      → Work W
      → Picked
      → (List String → Work W → Progress W R)
      → Progress W R
  unfolding attempt
  round path payload left tried w no_keys rest = onward left w
  round path payload left tried w panic rest = ended crashed w
  round path payload left tried w (key k) rest =
      if has_key k tried
      then rest tried w
      else carry_on (attempt path payload k w) (rest (k ∷ tried))

  -- The loop over the keys, with the attempts that are left and the keys that were tried.
  unfoldable pub attempts : String → String → ℕ → List String → Work W → Progress W R
  unfolding round
  attempts path payload zero tried w = onward 0 w
  attempts path payload (suc left) tried w =
      let up = world.others w.tick w.up in
      let (pool, picked) = pick (world.now w.tick) up.pool in
      let w1 = record w { up = record up { pool = pool }; tick = w.tick + 1 } in
      let once = round path payload left tried w1 picked (attempts path payload left) in
      if ltb (length tried) (length w.up.pool.keys) then once else onward (suc left) w
