-- ===== src/Runner/Fanout/Edges.antt =====
-- Which edges an emit goes out over.
use module_lib.Prelude.{
  ◌≡◌, ◌≢◌, Bool, true, not, ◌&&◌, ◌||◌, List, [], ◌∷◌, ◌++◌, arith, Text, ◌==◌, eq_iff, any, keep,
  if◌then◌else◌,
}
use module_lib.Node.{Edge}
use module_lib.Runner.Fanout.{edge_key, unique_from, unique_edges, of_port}

abbrev pub is_over : Text → Text → Edge → Bool
is_over port to e = e.port == port && e.to == to

-- No edge of another port or target has this port and this target run together.
abbrev pub Separate : Text → Text → List Edge → Type 0
Separate port to [] = Unit
Separate port to (e ∷ es) =
    ((not ((e.port ++ e.to) == (port ++ to)) || is_over port to e) ≡ true) × Separate port to es

abbrev pub first : List Edge → List Edge
first [] = []
first (e ∷ es) = e ∷ []

unique_from-first :
    (port to : Text) (seen : List Text) (es : List Edge)
    → Separate port to es
    → keep (is_over port to) (unique_from seen es)
      ≡ (if any (λ k. k == (port ++ to)) seen then [] else first (keep (is_over port to) es))
unfolding unique_from edge_key
unique_from-first port to seen [] h = ground arith
unique_from-first port to seen (e ∷ es) (h, hs) = ground (
  arith,
  eq_iff (e.port ++ e.to) (port ++ to),
  eq_iff e.port port,
  eq_iff e.to to,
  unique_from-first port to seen es hs,
  unique_from-first port to ((e.port ++ e.to) ∷ seen) es hs,
)

-- Where no other edge has the same port and target run together, of the edges from a port to a target
-- exactly one is left by the deduplication, the first, and none where there was none: an emit goes
-- out once for each port and target.
pub unique_edges-first :
    (port to : Text) (es : List Edge)
    → Separate port to es
    → keep (is_over port to) (unique_edges es) ≡ first (keep (is_over port to) es)
unfolding unique_edges
unique_edges-first port to es h = unique_from-first port to [] es h

-- The key is the port's name and the target with nothing between them. An edge whose key is that
-- of an earlier edge of another port is dropped: what its port emits goes to no target.
pub unique_edges_shadowed :
    (e d : Edge)
    → e.port ++ e.to ≡ d.port ++ d.to
    → e.port ≢ d.port
    → of_port d.port (unique_edges (e ∷ d ∷ [])) ≡ []
unfolding unique_edges edge_key
unique_edges_shadowed e d h n =
    ground (arith, eq_iff (e.port ++ e.to) (d.port ++ d.to), eq_iff e.port d.port)
