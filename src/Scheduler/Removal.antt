-- ===== src/Scheduler/Removal.antt =====
-- What Destroy and Uninstall of internal/scheduler/scheduler.go take from the tables.
use module_lib.Prelude.{
  ◌≡◌, refl, ◌∙◌, ap, sym, Bool, true, false, ◌&&◌, Option, none, some, inl, inr, [], ◌∷◌, Text,
  ◌==◌, arith, if◌then◌else◌, Bool-cases, eq_iff, any,
}
use module_lib.Dict
use module_lib.Dict.{Dict, get-put, get-delete, has-put, has-delete, has-get}
use module_lib.Scheduler.{Instance, Schedule, destroy, destroy_found, destroy_each}

module _ {W V A : Type 0} where
  -- The instance is one of this component, at the node of this name.
  abbrev pub is_of : Text → Text → Instance W V A → Bool
  is_of name k i = i.kind.name == name && i.runner.node.name == k

  pub get-destroy :
      (name k : Text) (s : Schedule W V A) (w : W)
      → Dict.get (destroy name s w).0.instances k
        ≡ (if name == k then none else Dict.get s.instances k)
  unfolding destroy
  get-destroy name k s w = found (Dict.get s.instances name) refl
    where
      found :
          (o : Option (Instance W V A))
          → Dict.get s.instances name ≡ o
          → Dict.get (destroy_found name s w o).0.instances k
            ≡ (if name == k then none else Dict.get s.instances k)
      found none e = elim (Bool-cases (name == k)) [
        | inl y ↦ rw y (ap (Dict.get s.instances) (sym ((eq_iff name k).0 y)) ∙ e)
        | inr n ↦ rw n refl
      ]
      found (some i) e = get-delete s.instances name k

  pub destroy-components :
      (name : Text) (s : Schedule W V A) (w : W) → (destroy name s w).0.components ≡ s.components
  unfolding destroy
  destroy-components name s w = found (Dict.get s.instances name)
    where
      found : (o : Option (Instance W V A)) → (destroy_found name s w o).0.components ≡ s.components
      found none = refl
      found (some i) = refl

  pub destroy_each-components :
      (name : Text) (items : Dict (Instance W V A)) (s : Schedule W V A) (w : W)
      → (destroy_each name items s w).0.components ≡ s.components
  unfolding destroy_each
  destroy_each-components name [] s w = refl
  destroy_each-components name ((k, i) ∷ items) s w = elim (Bool-cases (i.kind.name == name)) [
    | inl y ↦ rw y (
        destroy_each-components name items (destroy i.runner.node.name s w).0
          (destroy i.runner.node.name s w).1
        ∙ destroy-components i.runner.node.name s w)
    | inr n ↦ rw n (destroy_each-components name items s w)
  ]

  -- What is left was there, and is not among the items of this component.
  pub get-destroy_each :
      (name k : Text) (items : Dict (Instance W V A)) (s : Schedule W V A) (w : W)
      (i : Instance W V A)
      → Dict.get (destroy_each name items s w).0.instances k ≡ some i
      → (Dict.get s.instances k ≡ some i) × (any (λ e. is_of name k e.1) items ≡ false)
  unfolding destroy_each
  get-destroy_each name k [] s w i h = (h, refl)
  get-destroy_each name k ((j, x) ∷ items) s w i h = elim (Bool-cases (x.kind.name == name)) [
    | inl y ↦
        let (t, w') = destroy x.runner.node.name s w in
        let (a, b) = get-destroy_each name k items t w' i (ap branch (sym y) ∙ h) in
        let c = sym (get-destroy x.runner.node.name k s w) ∙ a in ground (arith, c)
    | inr n ↦
        let (a, b) = get-destroy_each name k items s w i (ap branch (sym n) ∙ h) in
        (a, ground arith)
  ]
    where
      branch : Bool → Option (Instance W V A)
      branch c =
          Dict.get
            (if c
              then destroy_each name items (destroy x.runner.node.name s w).0
                  (destroy x.runner.node.name s w).1
              else destroy_each name items s w).0.instances
            k

  pub find-is_of :
      (name k : Text) (items : Dict (Instance W V A)) (i : Instance W V A)
      → Dict.get items k ≡ some i
      → is_of name k i ≡ true
      → any (λ e. is_of name k e.1) items ≡ true
  unfolding Dict.get
  find-is_of name k [] i h y = cc
  find-is_of name k ((j, x) ∷ items) i h y = elim (Bool-cases (j == k)) [
    | inl e ↦ ground (arith, h, y)
    | inr n ↦ ground (
      arith,
      find-is_of name k items i (ap (λ b. if b then some x else Dict.get items k) (sym n) ∙ h) y,
    )
  ]
