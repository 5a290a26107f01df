-- ===== src/Scheduler/Rpc/Capture.antt =====
-- What a tool call returns: the first emit on the output port, however many there are and on whatever ports.
use module_lib.Prelude.{
  ◌≡◌, refl, ◌∙◌, ap, sym, Bool, true, false, Option, none, some, codes, inl, inr, List, [], ◌∷◌,
  Text, ◌==◌, if◌then◌else◌, Bool-cases,
}
use module_lib.Dict
use module_lib.Run.{Msg, Run}
use module_lib.Runner.Send.{Outcome, ok, fail}
use module_lib.Runner.Messages.{Values, Emit, listed_ports}
use module_lib.Scheduler.{Kind, Schedule}
use module_lib.Scheduler.Rpc.{
  Cell, capture, keep_first, handle_rpc, registered, as_tool, typed, invoked, replied, captured_or,
  input_of, or_default, port_configuration_type,
}

-- The first of the data on the port, or what there was.
unfoldable pub first_at : {V : Type 0} → Text → List (Text × V) → Option V → Option V
first_at port [] old = old
first_at port ((p, v) ∷ es) (some old) = some old
first_at port ((p, v) ∷ es) none =
    let rest = first_at port es none in if p == port then some v else rest

pub record IsCell {W V : Type 0} (cell : Cell W V) : Type 0 where
  pub read-fresh : (w : W) → cell.read (cell.fresh w) ≡ none
  pub read-write : (v : V) (w : W) → cell.read (cell.write v w) ≡ some v

first_at-some :
    {V : Type 0} (port : Text) (es : List (Text × V)) (v : V) → first_at port es (some v) ≡ some v
unfolding first_at
first_at-some port [] v = refl
first_at-some port (e ∷ es) v = refl

first_at-first_at :
    {V : Type 0} (port p : Text) (v : V) (es : List (Text × V)) (old : Option V)
    → first_at port ((p, v) ∷ es) old ≡ (
        if p == port
        then first_at port es (first_at [] (([], v) ∷ []) old)
        else first_at port es old)
unfolding first_at ◌==◌
first_at-first_at port p v es none = elim (Bool-cases (p == port)) [
  | inl y ↦ rw y (sym (first_at-some port es v))
  | inr n ↦ rw n refl
]
first_at-first_at port p v es (some x) = elim (Bool-cases (p == port)) [
  | inl y ↦ rw y (sym (first_at-some port es x))
  | inr n ↦ rw n (sym (first_at-some port es x))
]

module _ {W V : Type 0} (cell : Cell W V) (law : IsCell cell) where
  -- What an emit on the port leaves, where the cell held this.
  read-keep_first :
      (v : V) (old : Option V) (w : W)
      → cell.read w ≡ old
      → cell.read (keep_first cell v old w) ≡ first_at [] (([], v) ∷ []) old
  unfolding keep_first first_at ◌==◌
  read-keep_first v none w e = law.read-write v w
  read-keep_first v (some x) w e = e

-- What a component does with an input, step by step: it emits and goes on with the reply, it looks at the
-- world, it changes the world but for the captured object, of which it does not know, and it ends.
pub data Body {W V : Type 0} (A : Type 0) (cell : Cell W V) : Type 0 where
  ends : Outcome A → Body A cell
  emits : Text → V → (Outcome A → Body A cell) → Body A cell
  looks : (W → Body A cell) → Body A cell
  acts : (f : W → W) → ((w : W) → cell.read (f w) ≡ cell.read w) → Body A cell → Body A cell

module _ {W V A : Type 0} {cell : Cell W V} where
  -- The run of a body with a handler of its emits.
  unfoldable pub run_body : Emit W V A → Body A cell → Option Run → W → Outcome A × Option Run × W
  run_body emit (ends o) run w = (o, run, w)
  run_body emit (emits port v next) run w =
      let (o, run', w') = emit port v run w in run_body emit (next o) run' w'
  run_body emit (looks next) run w = run_body emit (next w) run w
  run_body emit (acts f keeps next) run w = run_body emit next run (f w)

  -- The data that it emits in that run, each with its port.
  unfoldable pub emitted : Emit W V A → Body A cell → Option Run → W → List (Text × V)
  emitted emit (ends o) run w = []
  emitted emit (emits port v next) run w =
      let (o, run', w') = emit port v run w in (port, v) ∷ emitted emit (next o) run' w'
  emitted emit (looks next) run w = emitted emit (next w) run w
  emitted emit (acts f keeps next) run w = emitted emit next run (f w)

module _ {W V : Type 0} (A : Type 0) (cell : Cell W V) (law : IsCell cell) (port : Text) where
  read-capture :
      (p : Text) (v : V) (es : List (Text × V)) (run : Option Run) (w : W)
      → first_at port es (cell.read (capture {A = A} cell port p v run w).2)
        ≡ first_at port ((p, v) ∷ es) (cell.read w)
  unfolding capture
  read-capture p v es run w = after (p == port) ∙ sym (first_at-first_at port p v es (cell.read w))
    where
      after :
          (b : Bool)
          → (let kept : Outcome A × Option Run × W =
                (ok none, run, keep_first cell v (cell.read w) w) in
              let out = if b then kept else (ok none, run, w) in first_at port es (cell.read out.2))
            ≡ (if b
                then first_at port es (first_at [] (([], v) ∷ []) (cell.read w))
                else first_at port es (cell.read w))
      after true = ap (first_at port es) (read-keep_first cell law v (cell.read w) w refl)
      after false = refl

module _ {W V A : Type 0} (cell : Cell W V) (law : IsCell cell) (port : Text) where
  -- After the run the cell holds the first of the data on the port, or what it held.
  read-run_body :
      (body : Body A cell) (run : Option Run) (w : W)
      → cell.read (run_body (capture cell port) body run w).2
        ≡ first_at port (emitted (capture cell port) body run w) (cell.read w)
  unfolding run_body emitted first_at
  read-run_body (ends o) run w = refl
  read-run_body (emits p v next) run w =
      let (o, run', w') = capture {A = A} cell port p v run w in
      read-run_body (next o) run' w'
      ∙ read-capture A cell law port p v (emitted (capture cell port) (next o) run' w') run w
  read-run_body (looks next) run w = read-run_body (next w) run w
  read-run_body (acts f keeps next) run w =
      read-run_body next run (f w)
      ∙ ap (first_at port (emitted (capture cell port) next run (f w))) (keeps w)

module _ {W V A D J : Type 0} (cell : Cell W V) (law : IsCell cell) (values : Values V D J)
    (zero_of : V → V) (returned : V → A) where
  -- The message calls an installed tool, which has an instance, and whose input has a type that the payload can be read into; with that
  -- input the component runs this body, which ends well when its emits are captured.
  pub record Calls (s : Schedule W V A) (msg : Msg) (w : W) (kind : Kind W V A)
      (input output : Text) (body : Body A cell) (res : Option A) : Type 0 where
    pub named : msg.to ≡ kind.name
    pub valid : (kind.name == []) ≡ false
    pub installed : Dict.get s.components kind.name ≡ some kind
    pub tool : kind.agent_tool ≡ some (input, output)
    pub instantiated : kind.instantiates ≡ true
    pub configuration : V
    pub is_configured :
        port_configuration_type
          (or_default (codes "in") input)
          (listed_ports (kind.component.ports w))
        ≡ inr configuration
    pub value : V
    pub is_value : input_of values zero_of configuration msg.payload ≡ inr value
    pub runs :
        (emit : Emit W V A)
        → kind.component.handle emit (or_default (codes "in") input) value none (cell.fresh w)
          ≡ run_body emit body none (cell.fresh w)
    pub ends_well :
        (run_body (capture cell (or_default (codes "out") output)) body none (cell.fresh w)).0
        ≡ ok res

  replied-ok :
      (x : Outcome A × Option Run × W) (res : Option A)
      → x.0 ≡ ok res
      → (replied cell values zero_of returned x).0 ≡ captured_or returned res (cell.read x.2)
  unfolding handle_rpc
  replied-ok (ok r, run, w) res e = ap (λ o. reply_at o w) e
    where
      reply_at : Outcome A → W → Outcome A
      reply_at o w = (replied cell values zero_of returned (o, none, w)).0
  replied-ok (fail x, run, w) res e = cc

  -- A call of an installed tool that has an instance and whose input can be built, and which emits and acts
  -- in one goroutine and ends well, returns the first of the data that it emits on its output port,
  -- whatever it emits on other ports or later; and the tool's own result where it emits none there.
  pub handle_rpc-first_at :
      (s : Schedule W V A) (msg : Msg) (w : W) (kind : Kind W V A) (input output : Text)
      (body : Body A cell) (res : Option A)
      → Calls s msg w kind input output body res
      → let port = or_default (codes "out") output in
        (handle_rpc cell values zero_of returned s msg w).0
        ≡ captured_or returned res
            (first_at port (emitted (capture cell port) body none (cell.fresh w)) none)
  unfolding handle_rpc registered as_tool typed invoked
  handle_rpc-first_at s msg w kind input output body res c =
      let port = or_default (codes "out") output in
      rw
        (
          c.named,
          c.valid,
          c.installed,
          c.tool,
          c.instantiated,
          c.is_configured,
          c.is_value,
          c.runs (capture cell port),
        )
        (replied-ok (run_body (capture cell port) body none (cell.fresh w)) res c.ends_well
          ∙ ap (captured_or returned res) (
              read-run_body cell law port body none (cell.fresh w)
              ∙ ap (first_at port (emitted (capture cell port) body none (cell.fresh w)))
                  (law.read-fresh w)))
