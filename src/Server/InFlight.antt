-- ===== src/Server/InFlight.antt =====
-- internal/server/ratelimit.go, `inFlight`: the requests that are waited for when the server stops.
-- Each atomic operation is a step of its own, so that calls interleave in every way. A call of `end`
-- that has brought the count to 0 has more steps, to read `closing`, to look at the channel and to close
-- it.
pub mod Waking
mod Examples
use claude_code_gateway.Prelude.{ℕ, zero, suc, ◌+◌, Bool, true, false, nat_beq, if◌then◌else◌}

-- Where the call of `wait` is.
pub data Waiter : Type 0 where
  idle : Waiter
  checking : Waiter
  blocked : Waiter
  returned : Waiter

-- `done` tells whether the channel is closed; `ending` and `closers` count the calls of `end` that are
-- about to read `closing` and to look at the channel, and
-- `at_close` those that have found it open and are about to close it; to close it twice is a panic.
-- That `wait` also returns when its context ends is left out.
pub record InFlight : Type 0 where
  pub count : ℕ
  pub closing : Bool
  pub done : Bool
  pub ending : ℕ
  pub closers : ℕ
  pub at_close : ℕ
  pub panicked : Bool
  pub waiter : Waiter

abbrev pub new_in_flight : InFlight
new_in_flight = record {
  count = 0;
  closing = false;
  done = false;
  ending = 0;
  closers = 0;
  at_close = 0;
  panicked = false;
  waiter = idle;
}

pub data Step : Type 0 where
  begin : Step
  end_add : Step
  end_load : Step
  end_select : Step
  end_close : Step
  wait_store : Step
  wait_load : Step
  wait_receive : Step

-- A step that cannot be taken leaves everything as it is.
abbrev pub end_adds : ℕ → InFlight → InFlight
end_adds zero s = s
end_adds (suc n) s = record s { count = n; ending = if nat_beq n 0 then s.ending + 1 else s.ending }

abbrev pub end_loads : ℕ → InFlight → InFlight
end_loads zero s = s
end_loads (suc n) s = record s {
  ending = n;
  closers = if s.closing then s.closers + 1 else s.closers;
}

abbrev pub end_selects : ℕ → InFlight → InFlight
end_selects zero s = s
end_selects (suc n) s = record s {
  closers = n;
  at_close = if s.done then s.at_close else s.at_close + 1;
}

abbrev pub end_closes : ℕ → InFlight → InFlight
end_closes zero s = s
end_closes (suc n) s = record s {
  at_close = n;
  done = true;
  panicked = if s.done then true else s.panicked;
}

abbrev pub wait_stores : Waiter → InFlight → InFlight
wait_stores idle s = record s { closing = true; waiter = checking }
wait_stores checking s = s
wait_stores blocked s = s
wait_stores returned s = s

abbrev pub wait_loads : Waiter → InFlight → InFlight
wait_loads idle s = s
wait_loads checking s = record s { waiter = if nat_beq s.count 0 then returned else blocked }
wait_loads blocked s = s
wait_loads returned s = s

abbrev pub wait_receives : Waiter → InFlight → InFlight
wait_receives idle s = s
wait_receives checking s = s
wait_receives blocked s = if s.done then record s { waiter = returned } else s
wait_receives returned s = s

unfoldable pub step : Step → InFlight → InFlight
step begin s = record s { count = s.count + 1 }
step end_add s = end_adds s.count s
step end_load s = end_loads s.ending s
step end_select s = end_selects s.closers s
step end_close s = end_closes s.at_close s
step wait_store s = wait_stores s.waiter s
step wait_load s = wait_loads s.waiter s
step wait_receive s = wait_receives s.waiter s

-- What can come of a new tracker.
pub data Reachable : InFlight → Type 0 where
  at_start : Reachable new_in_flight
  after : {s : InFlight} (a : Step) → Reachable s → Reachable (step a s)
