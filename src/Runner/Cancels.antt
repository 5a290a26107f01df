-- ===== src/Runner/Cancels.antt =====
-- The cancel functions of in-flight sends: `edgeCancels` of internal/scheduler/runner/runner.go. A send
-- is named by a token, which stands for its cancel function.
pub mod Laws
use module_lib.Prelude.{
  ℕ, Bool, not, Option, none, some, List, [], ◌∷◌, Text, ◌==◌, any, keep, eqb, if◌then◌else◌,
}
use module_lib.Dict
use module_lib.Dict.{Dict}

pub record Cancels : Type 0 where
  pub registered : Dict ℕ
  -- the sends that have begun and not returned, with their edges
  pub in_flight : List (Text × ℕ)
  pub cancelled : List ℕ

-- The start of sendToEdgeWithRetry: an edge with no id is not registered.
unfoldable pub begin_send : Text → ℕ → Cancels → Cancels
begin_send edge token c = record c {
  registered = if edge == [] then c.registered else Dict.put c.registered edge token;
  in_flight = (edge, token) ∷ c.in_flight;
}

-- Its deferred calls: the edge's entry is removed.
unfoldable pub end_send : Text → ℕ → Cancels → Cancels
end_send edge token c = record c {
  registered = if edge == [] then c.registered else Dict.delete c.registered edge;
  in_flight = keep (λ s. not (eqb s.1 token)) c.in_flight;
}

-- One round of the loop of cancelRemovedEdges, for an old edge's id
unfoldable pub cancel_edge : List Text → Text → Cancels → Cancels
cancel_edge new e c = if any (λ n. n == e) new then c else elim (Dict.get c.registered e) [
  | none ↦ c
  | some token ↦ record c { cancelled = token ∷ c.cancelled }
]

unfoldable pub cancel_removed_edges : List Text → List Text → Cancels → Cancels
unfolding cancel_edge
cancel_removed_edges [] new c = c
cancel_removed_edges (e ∷ old) new c = cancel_removed_edges old new (cancel_edge new e c)
