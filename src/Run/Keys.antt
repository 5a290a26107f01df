-- ===== src/Run/Keys.antt =====
-- The idempotency keys of a run's hops.
use Prim.Native.Nat.{◌/◌}
use module_lib.Prelude.{
  ℕ, zero, suc, ◌+◌, ◌≡◌, refl, List, [], ◌∷◌, ◌++◌, arith, Text, ◌==◌, eq_iff, length,
  length-append, if◌then◌else◌,
}
use module_lib.Dict.{get-put}
use module_lib.Run.{Run, next_step_key, step_key_of, hex, fnv64a, decimal, ordinal}

-- The run after hops over these edges, in this order.
pub emitted : Run → List Text → Run
emitted r [] = r
emitted r (e ∷ es) = emitted (next_step_key r e).1 es

-- How many of the hops went over this edge.
pub count : Text → List Text → ℕ
count e [] = 0
count e (d ∷ ds) = (if d == e then 1 else 0) + count e ds

pub ordinal-next :
    (r : Run) (d e : Text)
    → ordinal (next_step_key r d).1.seq e ≡ (if d == e then 1 else 0) + ordinal r.seq e
unfolding next_step_key ordinal
ordinal-next r d e = ground (arith, get-put r.seq d e (ordinal r.seq d + 1), eq_iff d e)

ordinal-emitted :
    (r : Run) (es : List Text) (e : Text)
    → ordinal (emitted r es).seq e ≡ count e es + ordinal r.seq e
unfolding emitted count
ordinal-emitted r [] e = omega arith
ordinal-emitted r (d ∷ ds) e =
    omega (arith, ordinal-emitted (next_step_key r d).1 ds e, ordinal-next r d e)

run_id-emitted :
    (r : Run) (es : List Text)
    → ((emitted r es).run_id ≡ r.run_id) × ((emitted r es).step_key ≡ r.step_key)
unfolding emitted next_step_key
run_id-emitted r [] = (refl, refl)
run_id-emitted r (d ∷ ds) = run_id-emitted (next_step_key r d).1 ds

next_step_key_key :
    (r : Run) (e : Text)
    → (next_step_key r e).0 ≡ step_key_of r.run_id r.step_key e (ordinal r.seq e)
unfolding next_step_key
next_step_key_key r e = refl

-- After any hops, the key of the next hop over an edge is determined by the run, the step that is
-- handled, the edge and the number of earlier hops over that edge. Hops over other edges, and
-- the order among them, do not matter.
pub next_step_key-emitted :
    (r : Run) (es : List Text) (e : Text)
    → (next_step_key (emitted r es) e).0
      ≡ step_key_of r.run_id r.step_key e (count e es + ordinal r.seq e)
next_step_key-emitted r es e =
    rw (next_step_key_key, (run_id-emitted r es).0, (run_id-emitted r es).1, ordinal-emitted r es e)

length-hex : (w n : ℕ) → length (hex w n) ≡ w
unfolding hex
length-hex zero n = refl
length-hex (suc w) n = omega (arith, length-append {0} (hex w (n / 16)), length-hex w (n / 16))

length-step_key_of :
    (run step edge : Text) (n : ℕ) → length (step_key_of run step edge n) ≡ length run + 17
unfolding step_key_of
length-step_key_of run step edge n = omega (
  arith,
  length-append {0} run (b'.' ∷ hex 16 (fnv64a (step ++ (b'|' ∷ (edge ++ (b'|' ∷ decimal n)))))),
  length-hex 16 (fnv64a (step ++ (b'|' ∷ (edge ++ (b'|' ∷ decimal n))))),
)

-- A key has the length of the run's identifier and seventeen bytes, at any depth of the chain.
pub length-next_step_key :
    (r : Run) (e : Text) → length (next_step_key r e).0 ≡ length r.run_id + 17
unfolding next_step_key
length-next_step_key r e = omega (arith, length-step_key_of r.run_id r.step_key e (ordinal r.seq e))
