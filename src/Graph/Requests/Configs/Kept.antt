-- ===== src/Graph/Requests/Configs/Kept.antt =====
-- What the save of a flow does to the port configurations of the other flows.
use module_lib.Prelude.{
  ◌≡◌, refl, ◌∙◌, ap, Bool, false, not, ◌&&◌, Option, none, some, List, [], ◌∷◌, ◌++◌, Text, codes,
  ◌==◌, arith, keep, any, any-append, eq_iff,
}
use module_lib.Dict
use module_lib.Dict.{Dict}
use module_lib.Json.{Json, Fields, at, as_object}
use module_lib.Node.{PortConfig}
use module_lib.Graph.Requests.{RequestElement, RequestMap}
use module_lib.Graph.Requests.Configs.{
  HandlePort, fallback_key, existing_configs, clean_legacy_port_configs, listed_handles, edge_ports,
  fallen_back, converted, flow_configs, updated_configs, update_port_configs,
}

any-keep_and :
    (p q : PortConfig → Bool) (xs : List PortConfig) → any p (keep q xs) ≡ any (λ x. q x && p x) xs
any-keep_and p q [] = refl
any-keep_and p q (x ∷ xs) = ground (arith, any-keep_and p q xs)

any-pointwise :
    (p q : PortConfig → Bool) (xs : List PortConfig)
    → ((x : PortConfig) → p x ≡ q x)
    → any p xs ≡ any q xs
any-pointwise p q [] h = refl
any-pointwise p q (x ∷ xs) h = ground (arith, h x, any-pointwise p q xs h)

any-const :
    (b : Bool) (q : PortConfig → Bool) (xs : List PortConfig)
    → any (λ x. b && q x) xs ≡ (b && any q xs)
any-const b q [] = ground arith
any-const b q (x ∷ xs) = ground (arith, any-const b q xs)

-- The configurations of this flow, with a test.
abbrev of_flow : Text → (PortConfig → Bool) → PortConfig → Bool
of_flow other p c = c.flow_id == other && p c

any-clean :
    (flow other : Text) (p : PortConfig → Bool) (ports new : List PortConfig)
    → (flow == other) ≡ false
    → any (of_flow other p) new ≡ false
    → any
        (of_flow other p)
        (clean_legacy_port_configs (keep (λ c. not (c.flow_id == flow)) ports ++ new))
      ≡ (not (other == []) && any (of_flow other p) ports)
unfolding clean_legacy_port_configs
any-clean flow other p ports new h n =
    any-keep_and (of_flow other p) (λ c. not (c.flow_id == [])) _
    ∙ any-pointwise (λ c. not (c.flow_id == []) && of_flow other p c)
        (λ c. not (other == []) && of_flow other p c) _
        (λ c. ground (arith, eq_iff c.flow_id other))
    ∙ any-const (not (other == [])) (of_flow other p) _
    ∙ ap (λ b. not (other == []) && b)
        (any-append (of_flow other p) (keep (λ c. not (c.flow_id == flow)) ports) new
          ∙ ground (
            arith,
            n,
            any-keep_and (of_flow other p) (λ c. not (c.flow_id == flow)) ports,
            any-pointwise (λ c. not (c.flow_id == flow) && of_flow other p c) (of_flow other p)
                ports
                (λ c.
                  ground
                    (arith, h, eq_iff c.flow_id other, eq_iff c.flow_id flow, eq_iff flow other)),
          ))

module _ (marshal : Json → Text) (sort : List PortConfig → List PortConfig)
    (handle_schema edge_schema : Text → Json → Text) where
  fallen_back-flow :
      (hp : HandlePort) (pc : PortConfig) (old : Option PortConfig)
      → (fallen_back marshal sort handle_schema edge_schema hp pc old).flow_id ≡ pc.flow_id
  unfolding fallen_back
  fallen_back-flow hp pc none = refl
  fallen_back-flow hp pc (some old) = ground arith

  -- What is made of the request is the flow's.
  any-converted :
      (p : PortConfig → Bool) (flow other : Text) (m : Dict PortConfig) (hps : List HandlePort)
      → (flow == other) ≡ false
      → any
          (λ c. c.flow_id == other && p c)
          (converted marshal sort handle_schema edge_schema flow m hps)
        ≡ false
  unfolding converted
  any-converted p flow other m [] h = refl
  any-converted p flow other m (hp ∷ hps) h =
      let asked : PortConfig = record {
        from = hp.from;
        port = hp.name;
        schema = hp.schema;
        configuration = hp.configuration;
        flow_id = flow;
      } in
      ground (
        arith,
        h,
        any-converted p flow other m hps h,
        fallen_back-flow hp asked (Dict.get m (fallback_key hp.from hp.name)),
      )

  -- Where the request has the node with its data, the save of a flow keeps the configurations of each other
  -- flow, and adds none to them; those of no flow are removed. The sorting is taken to add none and to drop
  -- none.
  pub update_port_configs-keep :
      ((q : PortConfig → Bool) (xs : List PortConfig) → any q (sort xs) ≡ any q xs)
      → (p : PortConfig → Bool) (ports : List PortConfig) (flow other node : Text) (m : RequestMap)
        (e : RequestElement) (d : Fields)
      → Dict.get m node ≡ some e
      → as_object (at e.fields (codes "data")) ≡ some d
      → (flow == other) ≡ false
      → any
          (λ c. c.flow_id == other && p c)
          (update_port_configs marshal sort handle_schema edge_schema ports flow node m)
        ≡ (not (other == []) && any (λ c. c.flow_id == other && p c) ports)
  unfolding update_port_configs updated_configs flow_configs clean_legacy_port_configs
  update_port_configs-keep sorted p ports flow other node m e d there is h =
      rw (there, is)
        (sorted (of_flow other p) _
          ∙ any-clean flow other p ports _ h (
              any-converted p flow other (existing_configs flow ports [])
                (listed_handles marshal sort handle_schema edge_schema (at d (codes "handles"))
                  ++ edge_ports marshal sort handle_schema edge_schema node m)
                h))
