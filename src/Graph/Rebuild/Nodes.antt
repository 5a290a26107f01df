-- ===== src/Graph/Rebuild/Nodes.antt =====
-- The first pass of NodesFromGraphElements in pkg/utils/graph_import.go, over the elements of nodes.
use module_lib.Prelude.{
  ◌≡◌, refl, ◌∙◌, ap, sym, true, false, ◌&&◌, ◌||◌, List, [], ◌∷◌, arith, Text, codes, ◌==◌, eq_iff,
  eq_refl, any, Bool-cases, inl, inr,
}
use module_lib.Dict
use module_lib.Dict.{Dict, has-put, has-get}
use module_lib.Json.{Fields, at, as_array}
use module_lib.Graph.Elements.{is_node, string_at, tiny_node_type}
use module_lib.Graph.Validation.Indexing.{node_named, Index}
use module_lib.Graph.Validation.Sound.{NodeOk, ElementOk, ElementsOk}
use module_lib.Graph.Rebuild.{Build, Numbers, handles, built_node, add_node_data, add_nodes}
use module_lib.Graph.Rebuild.Parts.{
  MarshalsAll, is_node_accepted, is_node_other, handle_ports-errors,
}

-- No two elements of nodes have one ID.
abbrev pub DistinctNodeIds : List Fields → Type 0
DistinctNodeIds [] = Unit
DistinctNodeIds (e ∷ es) =
    (string_at e (codes "type") ≡ tiny_node_type
      → any (node_named (string_at e (codes "id"))) es ≡ false)
    × DistinctNodeIds es

-- The nodes that there are, and those to come, differ.
abbrev Apart : Build → List Fields → Type 0
Apart b es = (s : Text) → (Dict.has b.nodes s && any (node_named s) es) ≡ false

module _ (numbers : Numbers) (total : MarshalsAll numbers) where
  built_node-errors : (id : Text) (e dm : Fields) → (built_node numbers id e dm).1 ≡ []
  unfolding built_node
  built_node-errors id e dm =
      handle_ports-errors numbers total id (handles (as_array (at dm (codes "handles"))))

  -- What one accepted element adds.
  Added : Fields → Build → Type 0
  Added e b =
      ((add_node_data numbers e (is_node e) b).errors ≡ [])
      × ((s : Text)
          → Dict.has (add_node_data numbers e (is_node e) b).nodes s
            ≡ (node_named s e || Dict.has b.nodes s))

  add_node :
      (e : Fields) (b : Build)
      → NodeOk e
      → b.errors ≡ []
      → Dict.has b.nodes (string_at e (codes "id")) ≡ false
      → string_at e (codes "type") ≡ tiny_node_type
      → Added e b
  unfolding Added add_nodes
  add_node e b ok h new t = rw (is_node_accepted e ok.dm t ok.is_data) (
    rw (ok.id_there, new, ok.component_there, ok.module_there, ok.flow_there)
        (ground (arith, built_node-errors (string_at e (codes "id")) e ok.dm)),
    (λ s.
        rw (ok.id_there, new, ok.component_there, ok.module_there, ok.flow_there)
          (has-put b.nodes (string_at e (codes "id")) s _
            ∙ ground (arith, (eq_iff (string_at e (codes "type")) tiny_node_type).1 t))),
  )

  add_element :
      (ix : Index) (e : Fields) (b : Build)
      → ElementOk ix e
      → b.errors ≡ []
      → (node_named (string_at e (codes "id")) e ≡ true
          → Dict.has b.nodes (string_at e (codes "id")) ≡ false)
      → Added e b
  unfolding Added add_nodes
  add_element ix e b (ok, _) h new =
      elim (Bool-cases (string_at e (codes "type") == tiny_node_type)) [
        | inl y ↦
            let t = (eq_iff (string_at e (codes "type")) tiny_node_type).0 y in
            let node = ok t in
            add_node e b node h
              (new (ground (arith, node.id_there, eq_refl (string_at e (codes "id"))))) t
        | inr n ↦ rw (is_node_other e n) (h, (λ s. ground arith))
      ]

  Apart-Added :
      (e : Fields) (es : List Fields) (s : Text) (b : Build)
      → (string_at e (codes "type") ≡ tiny_node_type
          → any (node_named (string_at e (codes "id"))) es ≡ false)
      → Dict.has (add_node_data numbers e (is_node e) b).nodes s
        ≡ (node_named s e || Dict.has b.nodes s)
      → (Dict.has b.nodes s && any (node_named s) (e ∷ es)) ≡ false
      → (Dict.has (add_node_data numbers e (is_node e) b).nodes s && any (node_named s) es) ≡ false
  Apart-Added e es s b d has apart = elim (Bool-cases (node_named s e)) [
    | inl y ↦
        let t = (eq_iff (string_at e (codes "type")) tiny_node_type).0 (ground arith) in
        let i = (eq_iff (string_at e (codes "id")) s).0 (ground arith) in
        ground (arith, ap (λ i. any (node_named i) es) (sym i) ∙ d t)
    | inr n ↦ ground arith
  ]

  pub add_nodes_accepted :
      (ix : Index) (es : List Fields) (b : Build)
      → ElementsOk ix es
      → DistinctNodeIds es
      → Apart b es
      → b.errors ≡ []
      → ((add_nodes numbers es b).errors ≡ [])
        × ((s : Text)
            → Dict.has (add_nodes numbers es b).nodes s
              ≡ (any (node_named s) es || Dict.has b.nodes s))
  unfolding Added add_nodes
  add_nodes_accepted ix [] b ok d apart h = (h, (λ s. refl))
  add_nodes_accepted ix (e ∷ es) b (ok, oks) (d, ds) apart h =
      let id = string_at e (codes "id") in
      let (none_yet, has) =
        add_element ix e b ok h (λ n. ground (arith, apart (string_at e (codes "id")))) in
      let (errors, hass) =
        add_nodes_accepted ix es (add_node_data numbers e (is_node e) b) oks ds
          (λ s. Apart-Added e es s b d (has s) (apart s)) none_yet in
      (errors, (λ s. hass s ∙ ground (arith, has s)))
