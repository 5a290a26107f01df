-- ===== src/Graph/Requests.antt =====
-- The request of a flow's editor as the map of its elements: pkg/utils/elements.go. An element of a node has
-- its outgoing edges under "_ports". `count` is a decoded number as a Go int, where a negative one, which
-- the senders of messages treat as 0, is 0.
pub mod Edges
pub mod Policy
pub mod Configs
use module_lib.Prelude.{
  ℕ, ◌≡◌, refl, Bool, true, false, not, ◌&&◌, ◌||◌, Option, none, some, ◌⊎◌, inl, inr, List, [],
  ◌∷◌, ◌++◌, map, Text, codes, ◌==◌, ltb, eqb, keep, any, if◌then◌else◌,
}
use module_lib.Dict
use module_lib.Dict.{Dict}
use module_lib.Json.{
  Json, null, bool, number, text, array, object, Fields, end, field, at, as_text, as_object,
  as_array, elements,
}
use module_lib.Errors.{Err, plain}
use module_lib.Node.{Edge, EdgeRetryPolicy}
use module_lib.Graph.Elements.{string_at}

pub record RequestElement : Type 0 where
  pub fields : Fields
  pub ports : Option (List Fields)

abbrev pub RequestMap : Type 0
RequestMap = Dict RequestElement

-- < on Go strings
unfoldable pub lt_text : Text → Text → Bool
lt_text [] [] = false
lt_text [] (d ∷ t) = true
lt_text (c ∷ s) [] = false
lt_text (c ∷ s) (d ∷ t) =
    let rest = lt_text s t in if ltb c d then true else if ltb d c then false else rest

-- sort.Slice by the ID; the edges that are sorted have different ones.
unfoldable pub insert_edge : Edge → List Edge → List Edge
insert_edge e [] = e ∷ []
insert_edge e (x ∷ xs) =
    let rest = insert_edge e xs in if lt_text x.id e.id then x ∷ rest else e ∷ x ∷ xs

unfoldable pub sort_edges : List Edge → List Edge
unfolding insert_edge
sort_edges [] = []
sort_edges (e ∷ es) = insert_edge e (sort_edges es)

-- The edges whose IDs are not among the duplicates, which grow, and the duplicates.
unfoldable pub unrepeated : List Text → List Edge → List Edge × List Text
unrepeated seen [] = ([], seen)
unrepeated seen (e ∷ es) =
    let skipped = unrepeated seen es in
    let (rest, seen') = unrepeated (e.id ∷ seen) es in
    if any (λ id. id == e.id) seen then skipped else (e ∷ rest, seen')

module _ (count : Text → ℕ) where
  count_at : Fields → Text → ℕ
  count_at m k = number_of (at m k)
    where
      number_of : Json → ℕ
      number_of (number s) = count s
      number_of _ = 0

  codes_of : List Json → List Text
  codes_of [] = []
  codes_of (v ∷ vs) = code (as_text v) (codes_of vs)
    where
      code : Option Text → List Text → List Text
      code none rest = rest
      code (some s) rest = if s == [] then rest else s ∷ rest

  items_of : Json → List Json
  items_of (array xs) = elements xs
  items_of _ = []

  -- the fields of the raw policy
  unfoldable pub read_policy : Fields → EdgeRetryPolicy
  unfolding count_at codes_of items_of
  read_policy raw = record {
    max_attempts = count_at raw (codes "maxAttempts");
    initial_delay_ms = count_at raw (codes "initialDelayMs");
    backoff_coefficient = string_at raw (codes "backoffCoefficient");
    max_delay_ms = count_at raw (codes "maxDelayMs");
    non_retryable_error_codes = codes_of (items_of (at raw (codes "nonRetryableErrorCodes")));
    timeout_ms = count_at raw (codes "timeoutMs");
  }

  abbrev is_empty : List Text → Bool
  is_empty [] = true
  is_empty (s ∷ ss) = false

  -- A policy that says nothing but one attempt.
  unfoldable pub only_defaults : EdgeRetryPolicy → Bool
  only_defaults p =
      (eqb p.max_attempts 0 || eqb p.max_attempts 1)
      && eqb p.initial_delay_ms 0
      && p.backoff_coefficient == []
      && eqb p.max_delay_ms 0
      && eqb p.timeout_ms 0
      && is_empty p.non_retryable_error_codes

  policy_of : Option Fields → Option EdgeRetryPolicy
  unfolding read_policy only_defaults
  policy_of none = none
  policy_of (some end) = none
  policy_of (some (field k v raw)) =
      let p = read_policy (field k v raw) in if only_defaults p then none else some p

  unfoldable pub parse_edge_retry_policy : Fields → Option EdgeRetryPolicy
  unfolding policy_of
  parse_edge_retry_policy edge = of_data (as_object (at edge (codes "data")))
    where
      of_data : Option Fields → Option EdgeRetryPolicy
      of_data none = none
      of_data (some data_fields) = policy_of (as_object (at data_fields (codes "retryPolicy")))

  -- The edge of the flow that a request's edge stands for.
  unfoldable pub requested_edge : Text → Fields → Edge
  unfolding parse_edge_retry_policy
  requested_edge flow v = record {
    id = string_at v (codes "id");
    port = string_at v (codes "sourceHandle");
    to = string_at v (codes "target") ++ (b':' ∷ string_at v (codes "targetHandle"));
    flow_id = flow;
    retry_policy = parse_edge_retry_policy v;
  }

  -- An edge that the request does not replace.
  unfoldable pub elsewhere : Text → List Fields → Edge → Bool
  elsewhere flow vs e =
      not (e.flow_id == flow)
      && not (e.flow_id == [] && not (e.id == []) && any (λ v. string_at v (codes "id") == e.id) vs)

  with_ports : List Edge → Text → List Fields → List Edge
  unfolding elsewhere requested_edge sort_edges unrepeated
  with_ports edges flow vs =
      let (kept, seen) = unrepeated [] (keep (elsewhere flow vs) edges) in
      let (new, seen') =
        unrepeated seen
          (map (requested_edge flow) (keep (λ v. not (string_at v (codes "id") == [])) vs)) in
      sort_edges (kept ++ new)

  updated_from :
      List Edge → Text → Text → RequestMap → Option RequestElement → Err ⊎ (List Edge × RequestMap)
  unfolding with_ports
  updated_from edges flow node m none = inl (plain (codes "element not found in request"))
  updated_from edges flow node m (some source) = of_ports source.ports
    where
      of_ports : Option (List Fields) → Err ⊎ (List Edge × RequestMap)
      of_ports none = inl (plain (codes "source element contains no _ports"))
      of_ports (some vs) =
          inr (with_ports edges flow vs, Dict.put m node (record source { ports = none }))

  -- The edges, and the request without the node's "_ports".
  unfoldable pub update_edges_from_request :
      List Edge → Text → Text → RequestMap → Err ⊎ (List Edge × RequestMap)
  unfolding updated_from
  update_edges_from_request edges flow node m = updated_from edges flow node m (Dict.get m node)
