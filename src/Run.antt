-- ===== src/Run.antt =====
-- Durable runs: module/run.go, the message of internal/scheduler/runner/msg.go and the ledger
-- records of module/ledger.go. Text fields are Go strings; times are unix milliseconds.
pub mod Keys
use Prim.Native.Nat.{bit_xor, ◌%◌, ◌/◌, ◌^◌}
use module_lib.Prelude.{
  ℕ, zero, suc, ◌+◌, ◌-◌, ◌*◌, ◌<◌, Bool, true, false, not, ◌&&◌, Option, none, some, List, [], ◌∷◌,
  ◌++◌, Text, codes, ◌==◌, ltb, if◌then◌else◌,
}
use module_lib.Dict
use module_lib.Dict.{Dict}

pub record Msg : Type 0 where
  pub edge_id : Text
  pub from : Text
  pub to : Text
  pub payload : Text
  pub depth : ℕ
  pub mode : Text
  pub run_id : Text
  pub step_key : Text
  pub reply_subject : Text
  pub reply_target : Text
  pub reply_deadline : ℕ

unfoldable pub is_reply_hop : Msg → Bool
is_reply_hop m = not (m.reply_subject == []) && not (m.reply_target == []) && m.to == m.reply_target

pub record EmitRecord : Type 0 where
  pub to : Text
  pub from : Text
  pub edge_id : Text
  pub step_key : Text
  pub payload : Text
  pub reply_subject : Text
  pub reply_target : Text
  pub reply_deadline : ℕ

pub data StepStatus : Type 0 where
  done failed : StepStatus

pub record StepRecord : Type 0 where
  pub node : Text
  pub status : StepStatus
  pub error : Text
  pub emits : List EmitRecord
  pub started_at : ℕ
  pub completed_at : ℕ
  pub duration_ms : ℕ

abbrev pub step_ledger_prefix : Text
step_ledger_prefix = codes "step/"

abbrev pub step_ledger_key : Text → Text
step_ledger_key step_key = step_ledger_prefix ++ step_key

pub record Run : Type 0 where
  pub run_id : Text
  pub step_key : Text
  pub reply_subject : Text
  pub reply_target : Text
  pub reply_deadline : ℕ
  pub seq : Dict ℕ
  pub emits : List EmitRecord

unfoldable pub new_run : Text → Text → Run
new_run run_id step_key = record {
  run_id = run_id;
  step_key = step_key;
  reply_subject = [];
  reply_target = [];
  reply_deadline = 0;
  seq = [];
  emits = [];
}

unfoldable pub with_reply : Run → Text → Text → ℕ → Run
with_reply r subject target deadline = record r {
  reply_subject = subject;
  reply_target = target;
  reply_deadline = deadline;
}

-- The identifier that uuid.NewString gives is an argument.
unfoldable pub mint_run : Text → Run
unfolding new_run
mint_run id = new_run id (id ++ codes ".root")

-- hash/fnv: h = (h ^ byte) * prime, on 64 bits
fnv_step : ℕ → ℕ → ℕ
fnv_step h c = bit_xor h c * 1099511628211 % 2 ^ 64

fnv64a_from : ℕ → Text → ℕ
fnv64a_from h [] = h
fnv64a_from h (c ∷ s) = fnv64a_from (fnv_step h c) s

unfoldable pub fnv64a : Text → ℕ
unfolding fnv64a_from fnv_step
fnv64a s = fnv64a_from 14695981039346656037 s

abbrev hex_digit : ℕ → ℕ
hex_digit d = if ltb d 10 then b'0' + d else b'a' + (d - 10)

-- the last w hex digits: %016x at w = 16
unfoldable pub hex : ℕ → ℕ → Text
hex zero n = []
hex (suc w) n = hex w (n / 16) ++ (hex_digit (n % 16) ∷ [])

-- %d; a number has fewer digits than its successor
decimal_fuel : ℕ → ℕ → Text
decimal_fuel zero n = []
decimal_fuel (suc k) n =
    let front = decimal_fuel k (n / 10) in
    (if ltb n 10 then [] else front) ++ ((b'0' + n % 10) ∷ [])

unfoldable pub decimal : ℕ → Text
unfolding decimal_fuel
decimal n = decimal_fuel (suc n) n

-- "%s|%s|%d", then "%s.%016x"
unfoldable pub step_key_of : Text → Text → Text → ℕ → Text
unfolding fnv64a hex decimal
step_key_of run_id step_key edge n =
    run_id ++ (b'.' ∷ hex 16 (fnv64a (step_key ++ (b'|' ∷ (edge ++ (b'|' ∷ decimal n))))))

unfoldable pub ordinal : Dict ℕ → Text → ℕ
ordinal seq edge = elim (Dict.get seq edge) [ none ↦ 0 | some n ↦ n ]

unfoldable pub next_step_key : Run → Text → Text × Run
unfolding step_key_of ordinal
next_step_key r edge =
    let n = ordinal r.seq edge in
    (step_key_of r.run_id r.step_key edge n, record r { seq = Dict.put r.seq edge (n + 1) })

unfoldable pub record_emit : Run → EmitRecord → Run
record_emit r e = record r { emits = r.emits ++ (e ∷ []) }

-- The run that the context carries is kept; otherwise one is minted.
unfoldable pub begin_run : Option Run → Text → Run
unfolding mint_run
begin_run none id = mint_run id
begin_run (some r) id = r

unfoldable pub begin_run_with_reply : Option Run → Text → Text → Text → ℕ → Run
unfolding mint_run with_reply
begin_run_with_reply none id subject target deadline =
    with_reply (mint_run id) subject target deadline
begin_run_with_reply (some r) id subject target deadline = r
