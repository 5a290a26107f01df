-- ===== src/Graph/Requests/Edges.antt =====
-- The edges of a node after the save of a flow: which one stands under an ID, and the attempts of its sends.
use module_lib.Prelude.{
  ℕ, ◌≡◌, Bool, false, not, Option, none, some, List, [], ◌∷◌, map, Text, codes, ◌==◌, keep, any,
  if◌then◌else◌,
}
use module_lib.Dict
use module_lib.Json.{Fields}
use module_lib.Node.{Edge}
use module_lib.Graph.Elements.{string_at}
use module_lib.Graph.Requests.{requested_edge}

-- The first edge with the ID.
unfoldable pub find_edge : Text → List Edge → Option Edge
find_edge id [] = none
find_edge id (e ∷ es) = let rest = find_edge id es in if e.id == id then some e else rest

abbrev pub or_else : Option Edge → Option Edge → Option Edge
or_else none other = other
or_else (some e) other = some e

abbrev has_id : Text → Edge → Bool
has_id id e = e.id == id

-- No two of the edges have the same ID.
abbrev pub NodupIds : List Edge → Type 0
NodupIds [] = Unit
NodupIds (e ∷ es) = (any (λ x. x.id == e.id) es ≡ false) × NodupIds es

module _ (count : Text → ℕ) (edges : List Edge) (flow : Text) (vs : List Fields) where
  -- The edges of the request with an ID, in its order.
  abbrev pub requested : List Edge
  requested = map (requested_edge count flow) (keep (λ v. not (string_at v (codes "id") == [])) vs)
