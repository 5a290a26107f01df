-- ===== src/Graph/Validation/Sound.antt =====
-- Projects whose validation reports no error: pkg/utils/import_validation.go.
use module_lib.Prelude.{
  ℕ, suc, ◌≡◌, refl, ap, Bool, true, false, not, ◌&&◌, ◌||◌, Option, none, some, List, [], ◌∷◌,
  ◌++◌, arith, Text, codes, ◌==◌, eq_iff, if◌then◌else◌, append-eq-nil,
}
use module_lib.Json.{Fields, at, as_object}
use module_lib.Graph.Elements.{string_at, tiny_node_type, tiny_edge_type, ProjectExport}
use module_lib.Graph.Problems.{Place, Problem, Report}
use module_lib.Graph.Validation.Indexing.{Index, listed, index_of, flow_names}
use module_lib.Graph.Validation.{
  flow_problems, validate_import_node, validate_node_data, validate_import_edge, validate_element,
  validate_elements, validate_project_import, ◌⧺◌, problem_if, edge_place, validate_edge_data,
  node_place, no_flow_problems,
}

-- What a node element has that the validation accepts.
pub record NodeOk (e : Fields) : Type 0 where
  pub id_there : (string_at e (codes "id") == []) ≡ false
  pub flow_there : (string_at e (codes "flow") == []) ≡ false
  pub dm : Fields
  pub is_data : as_object (at e (codes "data")) ≡ some dm
  pub component_there : (string_at dm (codes "component") == []) ≡ false
  pub module_there : (string_at dm (codes "module") == []) ≡ false

first_report : (b : Bool) (x y : Report) → b ≡ true → (if b then x else y).0 ≡ [] → x.0 ≡ []
first_report b x y e h = ground arith

second_report :
    (b c : Bool) (x y z : Report)
    → b ≡ false
    → c ≡ true
    → (if b then x else if c then y else z).0 ≡ []
    → y.0 ≡ []
second_report b c x y z e f h = ground arith

problem_if-eq-nil :
    (b : Bool) (p : Problem) (r : List Problem)
    → (problem_if b p).0 ++ r ≡ []
    → (b ≡ false) × (r ≡ [])
problem_if-eq-nil true p r h = cc
problem_if-eq-nil false p r h = (refl, h)

-- What each element has, by its type.
abbrev pub ElementOk : Index → Fields → Type 0
ElementOk ix e =
    (string_at e (codes "type") ≡ tiny_node_type → NodeOk e)
    × (string_at e (codes "type") ≡ tiny_edge_type
        → (listed (string_at e (codes "source")) ix.node_ids ≡ true)
          × (listed (string_at e (codes "target")) ix.node_ids ≡ true))

-- Each element of the list has it.
abbrev pub ElementsOk : Index → List Fields → Type 0
ElementsOk ix [] = Unit
ElementsOk ix (e ∷ es) = ElementOk ix e × ElementsOk ix es

module _ (title : Text → Text) where
  data_ok :
      (p : Place) (o : Option Fields)
      → (validate_node_data title p o).0 ≡ []
      → (dm : Fields) × (o ≡ some dm)
        × ((string_at dm (codes "component") == []) ≡ false)
        × ((string_at dm (codes "module") == []) ≡ false)
  unfolding validate_import_node
  data_ok p none h = cc
  data_ok p (some dm) h = (dm, refl, ground arith, ground arith)

  node_ok :
      (ix : Index) (i : ℕ) (e : Fields) → (validate_import_node title ix i e).0 ≡ [] → NodeOk e
  unfolding validate_import_node
  node_ok ix i e h =
      let p = node_place i (string_at e (codes "id")) in
      let (a, rest) =
        append-eq-nil (problem_if (string_at e (codes "id") == []) (Problem.missing_id p)).0 _ h in
      let (b, c) = append-eq-nil (flow_problems ix p (string_at e (codes "flow"))).0 _ rest in
      let (dm, is, comp, modl) = data_ok p (as_object (at e (codes "data"))) c in
      record {
        id_there = ground arith;
        flow_there = ground arith;
        dm = dm;
        is_data = is;
        component_there = comp;
        module_there = modl;
      }

  -- The nodes that an edge element connects are there.
  edge_ok :
      (ix : Index) (i : ℕ) (e : Fields)
      → (validate_import_edge title ix i e).0 ≡ []
      → (listed (string_at e (codes "source")) ix.node_ids ≡ true)
        × (listed (string_at e (codes "target")) ix.node_ids ≡ true)
  unfolding validate_import_edge
  edge_ok ix i e h =
      let source = string_at e (codes "source") in
      let target = string_at e (codes "target") in
      let p = edge_place ix e in
      let (a, ra) = problem_if-eq-nil (source == []) (Problem.missing_source i) _ h in
      let (b, rb) = problem_if-eq-nil (target == []) (Problem.missing_target i) _ ra in
      let (c, rc) =
        problem_if-eq-nil (string_at e (codes "sourceHandle") == [])
          (Problem.missing_source_handle p) _ rb in
      let (d, rd) =
        problem_if-eq-nil (string_at e (codes "targetHandle") == [])
          (Problem.missing_target_handle p) _ rc in
      let (s, rs) =
        problem_if-eq-nil (not (source == []) && not (listed source ix.node_ids))
          (Problem.unknown_source p source) _ rd in
      let (t, rt) =
        problem_if-eq-nil (not (target == []) && not (listed target ix.node_ids))
          (Problem.unknown_target p target)
          (flow_problems ix p (string_at e (codes "flow"))
            ⧺ validate_edge_data title ix p target (string_at e (codes "targetHandle"))
                (as_object (at e (codes "data")))).0
          rs in
      known (string_at e (codes "source") == []) (string_at e (codes "target") == [])
        (listed (string_at e (codes "source")) ix.node_ids)
        (listed (string_at e (codes "target")) ix.node_ids) a b s t
    where
      known :
          (a b s t : Bool)
          → a ≡ false
          → b ≡ false
          → (not a && not s) ≡ false
          → (not b && not t) ≡ false
          → (s ≡ true) × (t ≡ true)
      known a b s t p q r u = ground arith

  element_ok :
      (ix : Index) (i : ℕ) (e : Fields) → (validate_element title ix i e).0 ≡ [] → ElementOk ix e
  unfolding validate_element ◌==◌
  element_ok ix i e h = ((λ n. node_ok ix i e (as_node n)), (λ t. edge_ok ix i e (as_edge t)))
    where
      as_node :
          string_at e (codes "type") ≡ tiny_node_type → (validate_import_node title ix i e).0 ≡ []
      as_node n =
          first_report (string_at e (codes "type") == tiny_node_type) _ _
            ((eq_iff (string_at e (codes "type")) tiny_node_type).1 n) h

      as_edge :
          string_at e (codes "type") ≡ tiny_edge_type → (validate_import_edge title ix i e).0 ≡ []
      as_edge t =
          second_report (string_at e (codes "type") == tiny_node_type)
            (string_at e (codes "type") == tiny_edge_type
              || string_at e (codes "type") == codes "edge")
            _ _ _ (ap (λ s. s == tiny_node_type) t)
            (ap (λ s. s == tiny_edge_type || s == codes "edge") t) h

  elements_ok :
      (ix : Index) (i : ℕ) (es : List Fields)
      → (validate_elements title ix i es).0 ≡ []
      → ElementsOk ix es
  unfolding validate_elements
  elements_ok ix i [] h = tt
  elements_ok ix i (e ∷ es) h =
      let (a, b) = append-eq-nil (validate_element title ix i e).0 _ h in
      (element_ok ix i e a, elements_ok ix (suc i) es b)

  -- An import whose validation reports no error has in every node's element an ID, a flow and a data
  -- object with a component and a module, and in every edge's element the IDs of two nodes that are
  -- elements of the same import.
  pub validate_project_import-ElementsOk :
      (project : ProjectExport)
      → (validate_project_import title project).0 ≡ []
      → ElementsOk (index_of project) project.elements
  unfolding validate_project_import
  validate_project_import-ElementsOk project h =
      let (a, b) = append-eq-nil (flow_names project.tiny_flows).1 _ h in
      let (c, d) = append-eq-nil (no_flow_problems project.tiny_flows) _ b in
      let (e, f) =
        append-eq-nil (validate_elements title (index_of project) 0 project.elements).0 _ d in
      elements_ok (index_of project) 0 project.elements e
