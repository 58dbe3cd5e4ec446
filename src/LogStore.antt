-- ===== src/LogStore.antt =====
-- internal/logstore/logstore.go: the usage log in memory, the last records and the totals. The log
-- file is left out. The format of a time as a day and as an hour is a parameter, and so are floats.
pub mod Totals
pub mod Ring
mod Examples
use claude_code_gateway.Prelude.{
  ℕ, ◌+◌, ◌-◌, String, Bool, not, ◌||◌, List, [], ◌∷◌, ◌++◌, Option, none, some, ltb, leb, nat_beq,
  if◌then◌else◌, ◌==◌, string_eq, length, drop,
}
use claude_code_gateway.Prelude.Floats.{Floats}
use claude_code_gateway.Prelude.GoMap.{GoMap, get, put}
use claude_code_gateway.Prelude.Int.{ℤ, pos, ◌+ℤ◌, leb_ℤ, pos_part}

module _ (F : Floats) where
  open F use {Float, from_int, add}

  -- The fields that the totals read; `status` is never negative.
  pub record Record : Type 0 where
    pub time : ℕ
    pub model : String
    pub provider : String
    pub status : ℕ
    pub in_tok : ℤ
    pub out_tok : ℤ
    pub cache_read : ℤ
    pub cache_write : ℤ
    pub cost_usd : Float
    pub error : String

  pub record Stat : Type 0 where
    pub requests : ℕ
    pub errors : ℕ
    pub in_tok : ℤ
    pub out_tok : ℤ
    pub cost_usd : Float

  abbrev pub no_stat : Stat
  no_stat = record {
    requests = 0;
    errors = 0;
    in_tok = pos 0;
    out_tok = pos 0;
    cost_usd = from_int (pos 0);
  }

  abbrev pub is_error : Record → Bool
  is_error r = not (r.error == "") || leb 400 r.status || nat_beq r.status 0

  unfoldable pub add_stat : Record → Stat → Stat
  add_stat r s = record {
    requests = s.requests + 1;
    errors = if is_error r then s.errors + 1 else s.errors;
    in_tok = s.in_tok +ℤ ((r.in_tok +ℤ r.cache_read) +ℤ r.cache_write);
    out_tok = s.out_tok +ℤ r.out_tok;
    cost_usd = add s.cost_usd r.cost_usd;
  }

  pub record LogStore : Type 0 where
    pub ring_max : ℕ
    pub ring : List Record
    pub days : GoMap String Stat
    pub hours : GoMap String Stat
    pub models : GoMap String Stat
    pub provs : GoMap String Stat
    pub total : Stat

  unfoldable pub new_log : ℤ → LogStore
  new_log ring_size = record {
    ring_max = if leb_ℤ ring_size (pos 0) then 500 else pos_part ring_size;
    ring = [];
    days = [];
    hours = [];
    models = [];
    provs = [];
    total = no_stat;
  }

  abbrev pub or_new : Option Stat → Stat
  or_new none = no_stat
  or_new (some s) = s

  -- `get(m, k).add(r)`
  unfoldable pub count : String → Record → GoMap String Stat → GoMap String Stat
  unfolding add_stat
  count k r m = put m k (add_stat r (or_new (get m k)))

  module _ (day hour : ℕ → String) where
    unfoldable pub add_record : Record → LogStore → LogStore
    unfolding count
    add_record r s =
        let ring = s.ring ++ r ∷ [] in
        record s {
          days = count (day r.time) r s.days;
          hours = count (hour r.time) r s.hours;
          models = if r.model == "" then s.models else count r.model r s.models;
          provs = if r.provider == "" then s.provs else count r.provider r s.provs;
          total = add_stat r s.total;
          ring =
              if ltb s.ring_max (length ring) then drop (length ring - s.ring_max) ring else ring;
        }

    unfoldable pub add_records : List Record → LogStore → LogStore
    unfolding add_record
    add_records [] s = s
    add_records (r ∷ rs) s = add_records rs (add_record r s)

    -- `Today` of a snapshot: the zero value where the day has no records.
    pub today : ℕ → LogStore → Stat
    today now s = or_new (get s.days (day now))
