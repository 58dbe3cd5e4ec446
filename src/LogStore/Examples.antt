-- ===== src/LogStore/Examples.antt =====
-- Runs of internal/logstore/logstore.go.
use claude_code_gateway.Prelude.{
  ℕ, ◌≡◌, refl, String, List, [], ◌∷◌, length, nat_beq, if◌then◌else◌,
}
use claude_code_gateway.Prelude.Int.{pos}
use claude_code_gateway.Cache.Examples.{integers}
use claude_code_gateway.LogStore.{Record, add_records, new_log}
use claude_code_gateway.LogStore.Totals.{Adds, failures, add_records-Adds}
use claude_code_gateway.LogStore.Ring.{last, add_records-ring}

abbrev day : ℕ → String
day t = if nat_beq t 0 then "1970-01-01" else "1970-01-02"

abbrev logged : ℕ → ℕ → Record integers
logged t status = record {
  time = t;
  model = "m";
  provider = "";
  status = status;
  in_tok = pos 1;
  out_tok = pos 2;
  cache_read = pos 0;
  cache_write = pos 0;
  cost_usd = pos 3;
  error = "";
}

abbrev records : List (Record integers)
records = logged 0 200 ∷ logged 1 500 ∷ logged 1 200 ∷ []

add_records-Adds_example :
    Adds integers
      (add_records integers day day records (new_log integers (pos 2)))
      (length records)
      (failures integers records)
add_records-Adds_example = add_records-Adds integers day day (pos 2) records

add_records-ring_example :
    (add_records integers day day records (new_log integers (pos 2))).ring
    ≡ last (new_log integers (pos 2)).ring_max records
add_records-ring_example = add_records-ring integers day day (pos 2) records

keeps_two :
    (add_records integers day day records (new_log integers (pos 2))).ring
    ≡ logged 1 500 ∷ logged 1 200 ∷ []
unfolding add_records new_log
keeps_two = refl
