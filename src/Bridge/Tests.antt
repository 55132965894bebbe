-- ===== src/Bridge/Tests.antt =====
-- Runs of the listener and of the caller of project/scripts, and the theorems at them.
use mathlib.Core.Option.{some-injective}
use lab.Base.{
  ℕ, List, [], ◌∷◌, ◌≡◌, ◌≤◌, ◌<◌, none, some, true, refl, arith, if◌then◌else◌, ltb, leb, Option,
  inl, inr, string_eq, ◌&&◌, lt→ltb, ◌+◌, u64_mod,
}
use lab.Base.Results.{err}
use lab.Bridge.Types.{World, LogEntry}
use lab.Bridge.Listener.{monitor, process_logs, submitted}
use lab.Bridge.Coverage.{hits, Refuses, IsRising, monitor_covers, monitor_stuck}
use lab.Bridge.Answers.{IsAnswer, IsEntry, IsStep, process_logs-IsAnswer}
use lab.Bridge.Caller.{
  View, Found, WaitEvent, tick, timeout, wait_for_response, timed_out, not_fetched,
}

abbrev request_log : LogEntry
request_log = record {
  topics = "RequestCreated" ∷ "r1" ∷ "alice" ∷ [];
  payload = 7 ∷ [];
  block_number = 7;
}

-- A chain whose logs are one request, and which refuses a range whose end is before its start.
abbrev chain : Option ℕ → World
chain current = record {
  block_number = current;
  filter_logs = λ first last. if ltb last first then none else some (request_log ∷ []);
  marshal_request = λ r. some (1 ∷ []);
  new_request = λ b. some b;
  post = λ b. some (record { status = 200; body = 2 ∷ [] });
  decode_response = λ b. some (record { ipfs_cid = "cid"; error = "" });
  unpack_prompt = λ b. some "prompt";
  hex_to_key = λ s. some 5;
  chain_id = some 1;
  keyed_transactor = λ k c. some "oracle";
  pending_nonce = λ a. some 0;
  gas_price = some 9;
  transact = λ o a b c. true;
}

abbrev growing : List World
growing = chain (some 10) ∷ chain none ∷ chain (some 10) ∷ chain (some 12) ∷ []

monitor_covers_example :
    (5 ≤ (monitor growing "key" 5).last_block)
    × (hits 12 (monitor growing "key" 5).scanned
        ≡ (if ltb 5 12 && leb 12 (monitor growing "key" 5).last_block then 1 else 0))
monitor_covers_example = monitor_covers growing "key" 5 5 12 (omega arith) (omega arith) rising
  where
    rising : IsRising 5 growing
    rising = (omega arith, omega arith, (omega arith, omega arith, (omega arith, omega arith, tt)))

refuses : (c : Option ℕ) → Refuses (chain c)
refuses c first last h = rw (lt→ltb last first h) refl

monitor_stuck_example :
    ((monitor (chain (some 50) ∷ chain (some 300) ∷ []) "key" 0).scanned ≡ [])
    × ((monitor (chain (some 50) ∷ chain (some 300) ∷ []) "key" 0).steps ≡ [])
monitor_stuck_example =
    monitor_stuck (chain (some 50)) (chain (some 300) ∷ []) "key" 50 refl (omega arith) (
      refuses (some 50),
      (λ c e. small 50 c e (omega arith)),
      (refuses (some 300), (λ c e. small 300 c e (omega arith)), tt),
    )
  where
    small : (n c : ℕ) → some n ≡ some c → n < 1000 → c + 100 < u64_mod
    small n c e h = omega (arith, some-injective n c e)

there : IsStep (submitted "r1" "cid") (process_logs (chain (some 10)) "key" (request_log ∷ []))
unfolding process_logs
there = inr (inl refl)

process_logs-IsAnswer_example :
    (entry : LogEntry) × IsEntry entry (request_log ∷ [])
    × IsAnswer (chain (some 10)) "r1" "cid" entry
process_logs-IsAnswer_example =
    process_logs-IsAnswer (chain (some 10)) "key" "r1" "cid" (request_log ∷ []) there

abbrev response_log : LogEntry
response_log = record { topics = []; payload = 7 ∷ []; block_number = 21 }

-- A chain with one response, in block 21.
abbrev view : Option ℕ → View
view current = record {
  block_number = current;
  filter_logs =
      λ id first last. some (if leb first 21 && leb 21 last then response_log ∷ [] else []);
  unpack_response = λ b. some (record { response = "yes"; ipfs_cid = "cid" });
  http_get = λ cid. none;
  parse_json = λ b. none;
  format_json = λ b. none;
}

abbrev ticks : List WaitEvent
ticks = tick (view none) ∷ tick (view (some 20)) ∷ tick (view (some 22)) ∷ timeout ∷ []

abbrev answer : Found
answer = record {
  block_number = 21;
  event = record { response = "yes"; ipfs_cid = "cid" };
  document = err not_fetched;
}

timed_out_test :
    wait_for_response (some 20) "r1" (tick (view (some 20)) ∷ timeout ∷ []) ≡ some (timed_out 0)
unfolding wait_for_response
timed_out_test = refl
