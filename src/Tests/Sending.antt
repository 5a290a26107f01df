-- ===== src/Tests/Sending.antt =====
-- Emits, sends, retries and the cancellation of sends.
use Prim.Native.Nat.{◌^◌}
use module_lib.Prelude.{
  ℕ, zero, suc, ◌+◌, ◌-◌, ◌*◌, ◌<◌, ◌≤◌, ◌≡◌, refl, ◌≢◌, true, ◌||◌, Option, none, some, List, [],
  ◌∷◌, ◌++◌, arith, Text, codes, ◌==◌, leb, ltb, keep, if◌then◌else◌,
}
use module_lib.Prelude.Int.{ℤ, pos, negsuc, pos_part, ◌≤ℤ◌, int64}
use module_lib.Errors.{Err, plain, retryable_error, should_retry}
use module_lib.Node.{Edge, EdgeRetryPolicy}
use module_lib.Dict
use module_lib.Run.{Msg, Run, new_run, ordinal}
use module_lib.Runner.Backoff.{Floats, IsLawful, max_delay, uncapped, backoff_delay}
use module_lib.Runner.Backoff.Laws.{backoff_delay_mono}
use module_lib.Runner.Send.{
  Outcome, ok, fail, Deadline, Transport, max_attempts, again, attempts, send_to_edge, stamp,
  with_timeout,
}
use module_lib.Runner.Send.Attempts.{IsCount, Course, attempts-Course, send_to_edge-calls}
use module_lib.Runner.Send.Durable.{IsLog, copies, durable_msg, stored, send_to_edge-run}
use module_lib.Runner.Fanout.{unique_edges, send_all}
use module_lib.Runner.Fanout.Edges.{is_over, unique_edges-first}
use module_lib.Runner.Fanout.Results.{summary, outcomes, send_all-summary}
use module_lib.Runner.Cancels.{Cancels, begin_send, end_send, cancel_removed_edges}
use module_lib.Runner.Cancels.Laws.{
  busy, registered_as, removed, cancel_removed_edges_exact, Tracked, begin_send-Tracked,
  end_send-Tracked, cancel_removed_edges_overlap,
}
use module_lib.Runner.Cancels.Laws as CancelLaws

-- Whole numbers of nanoseconds; what is past int64 converts to its lowest value.
floats : Floats
floats = record {
  F = ℕ;
  of_ns = pos_part;
  times = λ a b. a * b;
  two = 2;
  parse_float = λ s. some 3;
  at_least_one = λ n. leb 1 n;
  to_ns = λ n. if ltb n (2 ^ 63) then pos n else negsuc (2 ^ 63 - 1);
}

times_grows : (d c : ℕ) → leb 1 c ≡ true → d ≤ d * c
times_grows d zero h = cc
times_grows d (suc c) h = grind arith

floats-IsLawful : IsLawful floats
unfolding floats
floats-IsLawful = record {
  InRange = λ n. n < 2 ^ 63;
  le = λ a b. a ≤ b;
  two_large = refl;
  times_grows = λ d c h k. times_grows d c k;
  in_range_below = λ d e h k. omega arith;
  to_ns_mono = λ d e h k. ground arith;
}

abbrev policy : EdgeRetryPolicy
policy = record {
  max_attempts = 2;
  initial_delay_ms = 100;
  backoff_coefficient = [];
  max_delay_ms = 150;
  non_retryable_error_codes = [];
  timeout_ms = 50;
}

backoff_delay_mono_example :
    (backoff_delay floats (some policy) 1 ≤ℤ backoff_delay floats (some policy) 2)
    × (backoff_delay floats (some policy) 2 ≤ℤ max_delay (some policy))
unfolding floats uncapped floats-IsLawful int64 ◌==◌
backoff_delay_mono_example =
    backoff_delay_mono floats floats-IsLawful (some policy) 1 (omega arith) (omega arith)
      (omega arith)

capped : backoff_delay floats (some policy) 2 ≡ pos 150000000
unfolding backoff_delay floats int64 ◌==◌
capped = refl

-- A broker that fails as often as its number says, then stores; each call is counted.
abbrev World : Type 0
World = ℕ × ℕ

abbrev slow : Err
slow = retryable_error (plain (codes "slow")) true

abbrev dead : Err
dead = plain (codes "dead")

abbrev respond : World → Outcome ℕ × World
respond (zero, calls) = (ok (some calls), (zero, suc calls))
respond (suc n, calls) = (fail slow, (n, suc calls))

-- A wait ends with the context's error if there is a deadline.
abbrev waited : Deadline → World → Option Err × World
waited none w = (none, w)
waited (some d) w = (some dead, w)

abbrev broker : Transport World ℕ
broker = record { handle = λ d m w. respond w; wait = λ d x w. waited d w; now = λ w. 0 }

abbrev calls : World → ℕ
calls w = w.1

broker-IsCount : IsCount broker calls
broker-IsCount = record { counted = respond_counted; kept = waited_kept }
  where
    respond_counted : (d : Deadline) (m : Msg) (w : World) → calls (respond w).1 ≡ suc (calls w)
    respond_counted d m (zero, n) = refl
    respond_counted d m (suc k, n) = refl

    waited_kept : (d : Deadline) (x : ℤ) (w : World) → calls (waited d w).1 ≡ calls w
    waited_kept none x w = refl
    waited_kept (some d) x w = refl

abbrev edge_with : Option EdgeRetryPolicy → Text → Text → Edge
edge_with p port to = record {
  id = codes "e1";
  port = port;
  to = to;
  flow_id = [];
  retry_policy = p;
}

abbrev edge : Edge
edge = edge_with none (codes "out") (codes "b:in")

abbrev run : Run
unfolding new_run
run = new_run (codes "r1") (codes "r1.root")

-- Two failures and a success, with the default of three attempts.
third_succeeds :
    (send_to_edge floats broker none edge (codes "a:out") edge.to (codes "{}") none (2, 0)).0
    ≡ ok (some 2)
unfolding send_to_edge attempts again should_retry max_attempts with_timeout
third_succeeds = refl

-- The broker, with the messages that it was given, the last one first.
abbrev Logged : Type 0
Logged = World × List Msg

abbrev logging : Transport Logged ℕ
logging = record {
  handle = λ d m w. ((respond w.0).0, ((respond w.0).1, m ∷ w.1));
  wait = λ d x w. ((waited d w.0).0, ((waited d w.0).1, w.1));
  now = λ w. 0;
}

logging-IsLog : IsLog logging (λ w. w.1)
logging-IsLog = record { logged = λ d m w. refl; kept = λ d x w. refl }

-- A failure, and a success.
send_to_edge-run_example :
    let (outcome, run', w') =
      send_to_edge floats logging none edge
        (codes "a:out")
        edge.to
        (codes "{}")
        (some run)
        ((1, 0), []) in
    ((k : ℕ) × (w'.1
        ≡ copies (suc k) (durable_msg edge (codes "a:out") edge.to (codes "{}") run) []))
    × (run'
        ≡ some (record run {
          seq = Dict.put run.seq edge.id (ordinal run.seq edge.id + 1);
          emits = run.emits ++ stored edge (codes "a:out") edge.to (codes "{}") run outcome;
        }))
send_to_edge-run_example =
    send_to_edge-run floats logging (λ w. w.1) logging-IsLog none edge (codes "a:out") edge.to
      (codes "{}") run ((1, 0), [])

abbrev msg : Msg
msg = (stamp none edge (codes "a:out") edge.to (codes "{}")).0

attempts-Course_example :
    Course floats broker none none msg 2 1
      (2, 0)
      (attempts floats broker 3 1 none none msg none (2, 0))
attempts-Course_example = attempts-Course floats broker none none msg 2 1 none (2, 0)

send_to_edge-calls_example :
    let w' =
      (send_to_edge floats broker none edge (codes "a:out") edge.to (codes "{}") none (9, 0)).2 in
    (0 < calls w') × (calls w' ≤ 0 + max_attempts none)
send_to_edge-calls_example =
    send_to_edge-calls floats broker calls broker-IsCount none edge (codes "a:out") edge.to
      (codes "{}") none (9, 0)

abbrev timed_edge : Edge
timed_edge = edge_with (some policy) (codes "out") (codes "b:in")

abbrev other : Edge
other = edge_with none (codes "error") (codes "b:in")

unique_edges-first_example :
    keep (is_over (codes "out") (codes "b:in")) (unique_edges (other ∷ edge ∷ timed_edge ∷ []))
    ≡ edge ∷ []
unfolding ◌==◌
unique_edges-first_example =
    unique_edges-first (codes "out") (codes "b:in") (other ∷ edge ∷ timed_edge ∷ [])
      (refl, (refl, (refl, tt)))

send_all-summary_example :
    (send_all floats broker none
      (codes "a:out")
      (codes "{}")
      (timed_edge ∷ edge ∷ [])
      []
      []
      none
      (1, 0)).0
    ≡ summary (
        outcomes floats broker none
          (codes "a:out")
          (codes "{}")
          (timed_edge ∷ edge ∷ [])
          none
          (1, 0))
send_all-summary_example =
    send_all-summary floats broker none (codes "a:out") (codes "{}") (timed_edge ∷ edge ∷ []) none
      (1, 0)

abbrev idle : Cancels
idle = record { registered = []; in_flight = []; cancelled = [] }

abbrev sending : Cancels
sending = record {
  registered = (codes "e1", 1) ∷ [];
  in_flight = (codes "e1", 1) ∷ [];
  cancelled = [];
}

not_empty : codes "e1" ≢ []
not_empty = ground arith

cancel_removed_edges_exact_example :
    CancelLaws.listed 1 (cancel_removed_edges (codes "e1" ∷ []) [] sending).cancelled
    ≡ (removed (codes "e1" ∷ []) [] sending 1 || CancelLaws.listed 1 sending.cancelled)
cancel_removed_edges_exact_example = cancel_removed_edges_exact (codes "e1" ∷ []) [] sending 1

cancel_removed_edges_overlap_example :
    let after =
      end_send (codes "e1") 1 (begin_send (codes "e1") 2 (begin_send (codes "e1") 1 idle)) in
    (busy (codes "e1") after.in_flight ≡ true)
    × (cancel_removed_edges (codes "e1" ∷ []) [] after ≡ after)
cancel_removed_edges_overlap_example =
    cancel_removed_edges_overlap idle (codes "e1") 1 2 not_empty (omega arith)
