-- ===== src/Tests/Reconciling.antt =====
-- The reconciler over a bucket that is a list of keys and values.
use module_lib.Prelude.{
  ℕ, suc, ◌+◌, ◌≡◌, refl, ◌≤◌, ◌↔◌, true, false, Option, none, some, List, [], ◌∷◌, ◌++◌, Text,
  codes, ◌==◌, any, In, if◌then◌else◌,
}
use module_lib.Prelude.Int.{pos}
use module_lib.Dict
use module_lib.Dict.{Dict, get-put}
use module_lib.Names.{split}
use module_lib.Run.{EmitRecord, StepRecord, done, failed}
use module_lib.Ledger.{
  Cluster, listed, Settings, fail_step, RunLedger, frontier_of, read_keys, stored, redrive_hop,
  redrive_attempts, failed_record, reconcile_runs, record_redrive,
}
use module_lib.Ledger.Numbers
use module_lib.Ledger.Keys.{classify, step_key, redrive_key}
use module_lib.Ledger.Frontier.{EmittedBy, frontier_of_exact}
use module_lib.Ledger.Reading.{record_at, read_keys_exact}
use module_lib.Ledger.Counters.{IsLawful}
use module_lib.Ledger.Redrive.{IsCount, passes, redrives_bounded, redrive_hop_exhausted}

-- The clock stands at ten minutes. A record is written as its node and its error, or as "root" for
-- the run's first step.
abbrev World : Type 0
World = Dict Text

abbrev hop : EmitRecord
hop = record {
  to = codes "b:in";
  from = codes "a:out";
  edge_id = codes "e1";
  step_key = codes "k1";
  payload = codes "{}";
  reply_subject = [];
  reply_target = [];
  reply_deadline = 0;
}

abbrev root_record : StepRecord
root_record = record {
  node = codes "a:in";
  status = done;
  error = [];
  emits = hop ∷ [];
  started_at = 0;
  completed_at = 1000;
  duration_ms = 1000;
}

abbrev failed_with : Text → Text → StepRecord
failed_with node error = record {
  node = node;
  status = failed;
  error = error;
  emits = [];
  started_at = 0;
  completed_at = 600000;
  duration_ms = 0;
}

abbrev decode_parts : List Text → Option StepRecord
decode_parts (node ∷ error ∷ []) = some (failed_with node error)
decode_parts (node ∷ []) = some root_record
decode_parts _ = none

bucket : Cluster World
unfolding split Dict.keys Dict.get Dict.put Dict.delete
bucket = record {
  keys = λ w. listed (Dict.keys w);
  get = λ k w. Dict.get w k;
  put = λ k v w. (true, Dict.put w k v);
  delete = λ k w. Dict.delete w k;
  publish = λ m w. (true, w);
  now = λ w. 600000;
  decode = λ t. decode_parts (split b'|' t);
  encode = λ (r : StepRecord). some (r.node ++ (b'|' ∷ r.error));
}

bucket-IsLawful : IsLawful bucket
unfolding bucket
bucket-IsLawful = record { get-put = λ k v j w. get-put w k j v; get-publish = λ m j w. refl }

abbrev world : World
world = (step_key (codes "r1") (codes "r1.root"), codes "root") ∷ []

abbrev settings : Settings
settings = record { stale_after = 0; gc_after = 0 }

-- The run is stale: its hop is published again, and the counter says so.
redriven :
    let (hops, w) = reconcile_runs bucket settings world in
    (hops ≡ some (hop ∷ []))
    × (Dict.get w (redrive_key (codes "r1") (codes "k1")) ≡ some (codes "1"))
unfolding reconcile_runs bucket Dict.get step_key redrive_key ◌==◌ Numbers.atoi Numbers.itoa
    classify frontier_of Dict.has redrive_attempts record_redrive Numbers.next_ℤ
redriven = (refl, refl)

abbrev ledger : RunLedger
ledger = record { records = (codes "r1.root", root_record) ∷ []; raw_keys = []; latest = 1000 }

frontier_of_exact_example :
    In hop (frontier_of ledger)
    ↔ (EmittedBy ledger.records hop × (Dict.has ledger.records hop.step_key ≡ false))
frontier_of_exact_example = frontier_of_exact ledger hop

read_keys_exact_example :
    record_at (read_keys bucket (Dict.keys world) world []) (codes "r1") (codes "r1.root") ≡ (
      if any (λ k. k == step_key (codes "r1") (codes "r1.root")) (Dict.keys world)
      then stored bucket (step_key (codes "r1") (codes "r1.root")) world
      else none)
read_keys_exact_example =
    read_keys_exact bucket world (Dict.keys world) (codes "r1") (codes "r1.root") refl

-- A bucket with a broker that stores each message, and counts them.
abbrev Counted : Type 0
Counted = World × ℕ

broker : Cluster Counted
unfolding bucket
broker = record {
  keys = λ w. bucket.keys w.0;
  get = λ k w. bucket.get k w.0;
  put = λ k v w. (true, ((bucket.put k v w.0).1, w.1));
  delete = λ k w. (bucket.delete k w.0, w.1);
  publish = λ m w. (true, (w.0, suc w.1));
  now = λ w. bucket.now w.0;
  decode = bucket.decode;
  encode = bucket.encode;
}

broker-IsLawful : IsLawful broker
unfolding broker
broker-IsLawful = record { get-put = λ k v j w. get-put w.0 k j v; get-publish = λ m j w. refl }

broker-IsCount : IsCount broker (codes "r1") hop (λ w. w.1) (λ w. 0)
unfolding broker
broker-IsCount = record {
  calls-publish = λ w. refl;
  refused-publish = λ w. refl;
  calls-put = λ k v w. refl;
  refused-put = λ k v w. refl;
}

abbrev idle : Counted → Counted
idle w = w

abbrev five : List (Counted → Counted)
five = idle ∷ idle ∷ idle ∷ idle ∷ idle ∷ []

-- Three of the five passes publish the hop.
three_calls :
    (passes broker broker-IsLawful
      (codes "r1")
      hop
      (λ w. w.1)
      (λ w. 0)
      broker-IsCount
      five
      (world, 0)).1
    ≡ 3
unfolding passes redrive_hop broker Dict.get Dict.put step_key redrive_key ◌==◌ Numbers.atoi
    Numbers.itoa redrive_attempts record_redrive Numbers.next_ℤ fail_step
three_calls = refl

redrives_bounded_example :
    (passes broker broker-IsLawful
        (codes "r1")
        hop
        (λ w. w.1)
        (λ w. 0)
        broker-IsCount
        five
        (world, 0)).1
      + 0
    ≤ 0 + 3 + 0
unfolding broker Dict.get redrive_key step_key ◌==◌
redrives_bounded_example =
    redrives_bounded broker broker-IsLawful (codes "r1") hop (λ w. w.1) (λ w. 0) broker-IsCount five
      (world, 0) (kept, (kept, (kept, (kept, (kept, tt))))) refl
  where
    kept :
        (w : Counted)
        → (broker.get (redrive_key (codes "r1") (codes "k1")) (idle w)
            ≡ broker.get (redrive_key (codes "r1") (codes "k1")) w)
          × (◌≡◌ {A = ℕ} w.1 w.1)
          × (◌≡◌ {A = ℕ} 0 0)
    kept w = (refl, refl, refl)

abbrev used : World
used = (redrive_key (codes "r1") (codes "k1"), codes "3") ∷ world

abbrev written : Text
written =
    (failed_record broker hop (pos 3) (used, 3)).node
    ++ (b'|' ∷ (failed_record broker hop (pos 3) (used, 3)).error)

redrive_hop_exhausted_example :
    let (again, w') = redrive_hop broker (codes "r1") hop (used, 3) in
    (again ≡ false)
    × (w'.1 ≡ 3)
    × (stored broker (step_key (codes "r1") hop.step_key) w'
        ≡ some (failed_record broker hop (pos 3) (used, 3)))
unfolding broker redrive_attempts redrive_key Dict.get ◌==◌ split Numbers.atoi Numbers.itoa
redrive_hop_exhausted_example =
    redrive_hop_exhausted broker broker-IsLawful (codes "r1") hop (λ w. w.1) (λ w. 0) broker-IsCount
      (used, 3) written refl refl refl
