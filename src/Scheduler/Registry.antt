-- ===== src/Scheduler/Registry.antt =====
-- The tables of the scheduler after any operations, and what an uninstalled component leaves.
use module_lib.Prelude.{
  ◌≡◌, refl, ◌∙◌, ap, sym, Bool, true, false, not, ◌||◌, Option, none, some, ◌⊎◌, inl, inr, List,
  [], ◌∷◌, Text, ◌==◌, arith, if◌then◌else◌, Bool-cases, eq_iff,
}
use module_lib.Dict
use module_lib.Dict.{Dict, get-put, get-delete, has-put, has-delete, has-get}
use module_lib.Errors.{Err}
use module_lib.Node.{Node, Status}
use module_lib.Runner.Send.{Outcome, ok, fail}
use module_lib.Runner.Messages.{StepLedger, Values, Clock, Runner, Emit, msg_handler}
use module_lib.Runner.Messages.Prepared.{msg_handler-node}
use module_lib.Runner.Status.{JsonCodec, Encodings}
use module_lib.Scheduler.{
  Kind, Instance, Schedule, Report, install, uninstall, destroy, destroy_each, shut_down, update,
  update_kind, update_at, update_instance, after_reconcile, after_settings, new_instance, introduce,
  reconcile, stored, settings_msg,
}
use module_lib.Scheduler.Removal.{
  get-destroy, destroy-components, destroy_each-components, get-destroy_each, find-is_of,
}

-- Each component stands under its own name, each instance under its node's, and the component of each
-- instance is installed.
pub record IsRegistered {W V A : Type 0} (s : Schedule W V A) : Type 0 where
  pub named : (k : Text) (c : Kind W V A) → Dict.get s.components k ≡ some c → c.name ≡ k
  pub keyed :
      (k : Text) (i : Instance W V A) → Dict.get s.instances k ≡ some i → i.runner.node.name ≡ k
  pub installed :
      (k : Text) (i : Instance W V A)
      → Dict.get s.instances k ≡ some i
      → Dict.has s.components i.kind.name ≡ true

put-cases :
    {X : Type 0} (m : Dict X) (k j : Text) (x y : X)
    → Dict.get (Dict.put m k x) j ≡ some y
    → ((k ≡ j) × (x ≡ y)) ⊎ (Dict.get m j ≡ some y)
put-cases m k j x y e = chosen (k == j) refl (sym (get-put m k j x) ∙ e)
  where
    chosen :
        (b : Bool)
        → (k == j) ≡ b
        → (if b then some x else Dict.get m j) ≡ some y
        → ((k ≡ j) × (x ≡ y)) ⊎ (Dict.get m j ≡ some y)
    chosen true h e = inl ((eq_iff k j).0 h, cc)
    chosen false h e = inr e

module _ {W V A : Type 0} where
  install-IsRegistered :
      (kind : Kind W V A) (s : Schedule W V A) → IsRegistered s → IsRegistered (install kind s).1
  unfolding install
  install-IsRegistered kind s h = elim (Bool-cases (kind.name == [])) [
    | inl y ↦ rw y h
    | inr n ↦ rw n (record {
      named = λ k c e.
          ground (arith, get-put s.components kind.name k kind, eq_iff kind.name k, h.named k c);
      keyed = h.keyed;
      installed = λ k i e.
          ground (arith, has-put s.components kind.name i.kind.name kind, h.installed k i e);
    })
  ]

  destroy-IsRegistered :
      (name : Text) (s : Schedule W V A) (w : W)
      → IsRegistered s
      → IsRegistered (destroy name s w).0
  destroy-IsRegistered name s w h = record {
    named = λ k c e. h.named k c (ap (λ m. Dict.get m k) (sym (destroy-components name s w)) ∙ e);
    keyed = λ k i e. h.keyed k i (there k i e);
    installed = λ k i e.
        ap (λ m. Dict.has m i.kind.name) (destroy-components name s w)
        ∙ h.installed k i (there k i e);
  }
    where
      there :
          (k : Text) (i : Instance W V A)
          → Dict.get (destroy name s w).0.instances k ≡ some i
          → Dict.get s.instances k ≡ some i
      there k i e = kept (name == k) (sym (get-destroy name k s w) ∙ e)
        where
          kept :
              (b : Bool)
              → (if b then none else Dict.get s.instances k) ≡ some i
              → Dict.get s.instances k ≡ some i
          kept true e = cc
          kept false e = e

  destroy_each-IsRegistered :
      (name : Text) (s : Schedule W V A) (w : W)
      → IsRegistered s
      → IsRegistered
          (destroy_each name s.instances
            (record s { components = Dict.delete s.components name })
            w).0
  destroy_each-IsRegistered name s w h =
      let s' : Schedule W V A = record s { components = Dict.delete s.components name } in
      let same = destroy_each-components name s.instances s' w in
      record {
        named = λ k c e.
            let g = sym (get-delete s.components name k) ∙ ap (λ m. Dict.get m k) (sym same) ∙ e in
            h.named k c (ground (arith, g));
        keyed = λ k i e. h.keyed k i (get-destroy_each name k s.instances s' w i e).0;
        installed = λ k i e.
            let (there, left) = get-destroy_each name k s.instances s' w i e in
            ap (λ m. Dict.has m i.kind.name) same
            ∙ has-delete s.components name i.kind.name
            ∙ ground (
              arith,
              h.installed k i there,
              h.keyed k i there,
              eq_iff i.kind.name name,
              eq_iff name i.kind.name,
              eq_iff i.runner.node.name k,
              find-is_of name k s.instances i there,
              left,
            );
      }

  uninstall-IsRegistered :
      (name : Text) (s : Schedule W V A) (w : W)
      → IsRegistered s
      → IsRegistered (uninstall name s w).1
  unfolding uninstall
  uninstall-IsRegistered name s w h =
      elim (Bool-cases (name == [] || not (Dict.has s.components name))) [
        | inl y ↦ rw y h
        | inr n ↦ rw n (destroy_each-IsRegistered name s w h)
      ]

  shut_down-IsRegistered :
      (names : List Text) (s : Schedule W V A) → IsRegistered s → IsRegistered (shut_down names s)
  unfolding shut_down
  shut_down-IsRegistered [] s h = h
  shut_down-IsRegistered (name ∷ names) s h =
      shut_down-IsRegistered names (record s { instances = Dict.delete s.instances name })
        (record {
          named = h.named;
          keyed = λ k i e. h.keyed k i (ground (arith, sym (get-delete s.instances name k) ∙ e));
          installed =
              λ k i e. h.installed k i (ground (arith, sym (get-delete s.instances name k) ∙ e));
        })

  -- The instance is of this component, and its node has this name.
  abbrev Serves : Text → Kind W V A → Instance W V A → Type 0
  Serves name kind i = (i.kind ≡ kind) × (i.runner.node.name ≡ name)

  module _ {D J : Type 0} (ledger : StepLedger W) (values : Values V D J) (clock : Clock W)
      (codec : JsonCodec) (encodings : Encodings V) (emits : Text → Emit W V A)
      (notify : Dict Text → W → W) where
    after_settings-Serves :
        (backup : Node) (status : Status) (kind : Kind W V A) (x : Outcome A × Runner V × W)
        (name : Text)
        → backup.name ≡ name
        → x.1.node.name ≡ name
        → Serves name kind
            (after_settings ledger values clock codec encodings emits notify backup status kind x).1
    unfolding after_settings
    after_settings-Serves backup status kind (fail e, r, w) name b n = (refl, b)
    after_settings-Serves backup status kind (ok res, r, w) name b n = (refl, n)

    after_reconcile-Serves :
        (backup node : Node) (kind : Kind W V A) (r : Runner V) (x : Option Err × W)
        → backup.name ≡ node.name
        → r.node.name ≡ node.name
        → Serves node.name kind
            (after_reconcile ledger values clock codec encodings emits notify backup node kind r
              x).1
    unfolding after_reconcile
    after_reconcile-Serves backup node kind r (some e, w) b n = (refl, b)
    after_reconcile-Serves backup node kind r (none, w) b n =
        after_settings-Serves backup node.status kind
          (msg_handler kind.component ledger values clock (emits node.name) none (settings_msg node)
            r (notify node.status.metadata w))
          node.name b
          (ap (λ (m : Node). m.name)
              (msg_handler-node kind.component ledger values clock (emits node.name) none
                (settings_msg node) r (notify node.status.metadata w))
            ∙ n)

    update_instance-Serves :
        (s : Schedule W V A) (is_new : Bool) (node : Node) (i : Instance W V A) (w : W)
        → i.runner.node.name ≡ node.name
        → Serves node.name i.kind
            (update_instance ledger values clock codec encodings emits notify s is_new node i w).1
    unfolding update_instance
    update_instance-Serves s is_new node i w h =
        after_reconcile-Serves i.runner.node node i.kind _
          (reconcile i.kind.lifecycle.on_reconcile node
            (introduce s is_new node i.kind.lifecycle w))
          h refl

    stored-IsRegistered :
        (s : Schedule W V A) (node : Node) (kind : Kind W V A) (x : Report × Instance W V A × W)
        → IsRegistered s
        → Dict.has s.components kind.name ≡ true
        → Serves node.name kind x.1
        → IsRegistered (stored ledger values clock codec encodings emits notify node.name s x).1
    stored-IsRegistered s node kind (report, i, w) h there (is, name) = record {
      named = h.named;
      keyed = λ k j e. elim (put-cases s.instances node.name k i j e) [
        | inl (n, x) ↦ ap (λ y. y.runner.node.name) (sym x) ∙ name ∙ n
        | inr old ↦ h.keyed k j old
      ];
      installed = λ k j e. elim (put-cases s.instances node.name k i j e) [
        | inl (n, x) ↦
            ap (λ y. Dict.has s.components y.kind.name) (sym x)
            ∙ ap (λ y. Dict.has s.components y.name) is
            ∙ there
        | inr old ↦ h.installed k j old
      ];
    }

    update-IsRegistered :
        (node : Node) (s : Schedule W V A) (w : W)
        → IsRegistered s
        → IsRegistered (update ledger values clock codec encodings emits notify node s w).1
    unfolding update
    update-IsRegistered node s w h = known (Dict.get s.components node.component) refl
      where
        served :
            (kind : Kind W V A)
            → Dict.get s.components node.component ≡ some kind
            → (o : Option (Instance W V A)) → Dict.get s.instances node.name ≡ o
            → IsRegistered
                (update_at ledger values clock codec encodings emits notify kind node s w o).1
        served kind e none g =
            stored-IsRegistered s node kind
              (update_instance ledger values clock codec encodings emits notify s true node
                (new_instance kind node) w)
              h
              ((has-get s.components kind.name).1
                (λ q. cc (ap (Dict.get s.components) (h.named node.component kind e), e, q)))
              (update_instance-Serves s true node (new_instance kind node) w refl)
        served kind e (some i) g =
            stored-IsRegistered s node i.kind
              (update_instance ledger values clock codec encodings emits notify s false node i w) h
              (h.installed node.name i g)
              (update_instance-Serves s false node i w (h.keyed node.name i g))

        known :
            (o : Option (Kind W V A))
            → Dict.get s.components node.component ≡ o
            → IsRegistered
                (update_kind ledger values clock codec encodings emits notify node s w o).1
        known none e = h
        known (some kind) e = served kind e (Dict.get s.instances node.name) refl

    -- What the callers of the scheduler do, in any order, with any state of the world.
    pub data Step (s : Schedule W V A) : Schedule W V A → Type 0 where
      installs : (kind : Kind W V A) → Step s (install kind s).1
      uninstalls : (name : Text) (w : W) → Step s (uninstall name s w).1
      updates :
          (node : Node) (w : W)
          → Step s (update ledger values clock codec encodings emits notify node s w).1
      destroys : (name : Text) (w : W) → Step s (destroy name s w).0
      shuts_down : (names : List Text) → Step s (shut_down names s)

    pub data Reach (s : Schedule W V A) : Schedule W V A → Type 0 where
      here : Reach s s
      next : {t u : Schedule W V A} → Reach s t → Step t u → Reach s u

    Step-IsRegistered : {s t : Schedule W V A} → Step s t → IsRegistered s → IsRegistered t
    Step-IsRegistered {s} (installs kind) h = install-IsRegistered kind s h
    Step-IsRegistered {s} (uninstalls name w) h = uninstall-IsRegistered name s w h
    Step-IsRegistered {s} (updates node w) h = update-IsRegistered node s w h
    Step-IsRegistered {s} (destroys name w) h = destroy-IsRegistered name s w h
    Step-IsRegistered {s} (shuts_down names) h = shut_down-IsRegistered names s h

    -- However installations, removals, updates, deletions and shutdowns follow on one another from empty
    -- tables, every instance stands under the name of its node, also after an update that was rolled
    -- back, and serves a component that is still installed.
    pub Reach-IsRegistered :
        {s t : Schedule W V A} → s.components ≡ [] → s.instances ≡ [] → Reach s t → IsRegistered t
    unfolding Dict.get
    Reach-IsRegistered c i here = record {
      named = λ k x e. cc (ap (λ m. Dict.get m k) c, e);
      keyed = λ k x e. cc (ap (λ m. Dict.get m k) i, e);
      installed = λ k x e. cc (ap (λ m. Dict.get m k) i, e);
    }
    Reach-IsRegistered c i (next r step) = Step-IsRegistered step (Reach-IsRegistered c i r)
