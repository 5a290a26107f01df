-- ===== src/Graph/Rebuild/Accepted.antt =====
-- The rebuilding of a project whose validation reports no error: NodesFromGraphElements of
-- pkg/utils/graph_import.go after ValidateProjectImport of pkg/utils/import_validation.go.
use module_lib.Prelude.{
  ◌≡◌, refl, ◌∙◌, ap, sym, Bool, true, false, Option, none, some, List, [], ◌∷◌, arith, Text, codes,
  if◌then◌else◌, Bool-cases, inl, inr,
}
use module_lib.Dict
use module_lib.Dict.{Dict, has-put, has-get}
use module_lib.Json.{Fields, at, as_object}
use module_lib.Node.{Node}
use module_lib.Graph.Elements.{is_edge, string_at, tiny_edge_type, ProjectExport}
use module_lib.Graph.Validation.Indexing.{node_ids-index_of, Index, listed, index_of}
use module_lib.Graph.Validation.{validate_project_import}
use module_lib.Graph.Validation.Sound.{ElementsOk, validate_project_import-ElementsOk}
use module_lib.Graph.Rebuild.{
  Build, BuildError, Numbers, add_nodes, update, append_config, append_edge, edge_of, add_edge_data,
  add_edge, add_edges, nodes_from_graph_elements,
}
use module_lib.Graph.Rebuild.Parts.{MarshalsAll, is_edge-type, marshalled-errors, has-update}
use module_lib.Graph.Rebuild.Nodes.{DistinctNodeIds, add_nodes_accepted}

has-unless :
    (c : Bool) (s : Text) (x y : Dict Node)
    → Dict.has y s ≡ Dict.has x s
    → Dict.has (if c then x else y) s ≡ Dict.has x s
has-unless true s x y h = refl
has-unless false s x y h = h

-- The nodes at both ends of an edge are there.
abbrev Connected : Build → List Fields → Type 0
Connected b [] = Unit
Connected b (e ∷ es) =
    (string_at e (codes "type") ≡ tiny_edge_type
      → (Dict.has b.nodes (string_at e (codes "source")) ≡ true)
        × (Dict.has b.nodes (string_at e (codes "target")) ≡ true))
    × Connected b es

module _ (numbers : Numbers) (total : MarshalsAll numbers) where
  -- What one edge's data keeps.
  add_edge_data_accepted :
      (e : Fields) (o : Option Fields) (b : Build)
      → b.errors ≡ []
      → ((add_edge_data numbers e o b).errors ≡ [])
        × ((s : Text) → Dict.has (add_edge_data numbers e o b).nodes s ≡ Dict.has b.nodes s)
  unfolding add_edges
  add_edge_data_accepted e none b h = (h, (λ s. refl))
  add_edge_data_accepted e (some dm) b h = (
    ground (
      arith,
      marshalled-errors numbers total (BuildError.edge_configuration (edge_of e).id)
          (at dm (codes "configuration")),
      marshalled-errors numbers total (BuildError.edge_schema (edge_of e).id)
          (at dm (codes "schema")),
    ),
    (λ s.
        has-unless _ s b.nodes _
          (has-update (append_config _) (string_at e (codes "target")) s b.nodes)),
  )

  -- What one edge keeps.
  Kept : Fields → Build → Type 0
  Kept e b =
      ((add_edge numbers e b).errors ≡ [])
      × ((s : Text) → Dict.has (add_edge numbers e b).nodes s ≡ Dict.has b.nodes s)

  add_edge_accepted :
      (e : Fields) (b : Build)
      → b.errors ≡ []
      → Dict.has b.nodes (string_at e (codes "source")) ≡ true
      → Dict.has b.nodes (string_at e (codes "target")) ≡ true
      → Kept e b
  unfolding Kept add_edges
  add_edge_accepted e b h source target =
      let connected = record b {
        nodes = update (append_edge (edge_of e)) (string_at e (codes "source")) b.nodes;
      } in
      let (errors, has) = add_edge_data_accepted e (as_object (at e (codes "data"))) connected h in
      rw (source, target)
        (
          errors,
          (λ s.
              has s
              ∙ has-update (append_edge (edge_of e)) (string_at e (codes "source")) s b.nodes),
        )

  Connected-same :
      (b b' : Build) (es : List Fields)
      → ((s : Text) → Dict.has b'.nodes s ≡ Dict.has b.nodes s)
      → Connected b es
      → Connected b' es
  Connected-same b b' [] same c = tt
  Connected-same b b' (e ∷ es) same (c, cs) = (
    (λ t.
        let (source, target) = c t in
        (
          same (string_at e (codes "source")) ∙ source,
          same (string_at e (codes "target")) ∙ target,
        )),
    Connected-same b b' es same cs,
  )

  add_edges_accepted :
      (es : List Fields) (b : Build)
      → Connected b es
      → b.errors ≡ []
      → (add_edges numbers es b).errors ≡ []
  unfolding add_edges Kept
  add_edges_accepted [] b c h = h
  add_edges_accepted (e ∷ es) b (c, cs) h = elim (Bool-cases (is_edge e)) [
    | inl y ↦
        let (source, target) = c (is_edge-type e y) in
        let (errors, same) = add_edge_accepted e b h source target in
        ap branch y
        ∙ add_edges_accepted es (add_edge numbers e b)
            (Connected-same b (add_edge numbers e b) es same cs) errors
    | inr n ↦ ap branch n ∙ add_edges_accepted es b cs h
  ]
    where
      branch : Bool → List BuildError
      branch i = (add_edges numbers es (if i then add_edge numbers e b else b)).errors

  ElementsOk-Connected :
      (ix : Index) (es : List Fields) (b : Build)
      → ((s : Text) → Dict.has b.nodes s ≡ listed s ix.node_ids)
      → ElementsOk ix es
      → Connected b es
  ElementsOk-Connected ix [] b same ok = tt
  ElementsOk-Connected ix (e ∷ es) b same ((_, ok), oks) = (
    (λ t.
        let (source, target) = ok t in
        (
          same (string_at e (codes "source")) ∙ source,
          same (string_at e (codes "target")) ∙ target,
        )),
    ElementsOk-Connected ix es b same oks,
  )

  -- A project whose validation reports no error is rebuilt without an error, where every value has bytes
  -- in JSON and no two elements of nodes have the same ID.
  pub nodes_from_graph_elements-validate_project_import :
      (title : Text → Text) (project : ProjectExport)
      → (validate_project_import title project).0 ≡ []
      → DistinctNodeIds project.elements
      → (nodes_from_graph_elements numbers project.elements).errors ≡ []
  unfolding nodes_from_graph_elements Dict.has
  nodes_from_graph_elements-validate_project_import title project valid distinct =
      let ok = validate_project_import-ElementsOk title project valid in
      let empty : Build = record { nodes = []; order = []; errors = [] } in
      let (errors, has) =
        add_nodes_accepted numbers total (index_of project) project.elements empty ok distinct
          (λ s. refl) refl in
      add_edges_accepted project.elements (add_nodes numbers project.elements empty)
        (ElementsOk-Connected (index_of project) project.elements
          (add_nodes numbers project.elements empty)
          (λ s. has s ∙ ground arith ∙ sym (node_ids-index_of s project)) ok)
        errors
