-- ===== src/Runner/Fanout.antt =====
-- `outputHandler` of internal/scheduler/runner/runner.go: an emit on a port goes out over the node's
-- edges of that port. The sends run concurrently; `order` gives the order in which they complete,
-- and each send is one step of the world.
pub mod Edges
pub mod Results
use module_lib.Prelude.{
  Bool, not, ◌&&◌, Option, none, some, ◌⊎◌, inl, inr, List, [], ◌∷◌, ◌++◌, Text, codes, ◌==◌, any,
  keep, if◌then◌else◌,
}
use module_lib.Names.{get_port_full_name, parse_full_port_name}
use module_lib.Errors.{Err, plain}
use module_lib.Node.{Edge}
use module_lib.Run.{Run}
use module_lib.Runner.Backoff.{Floats}
use module_lib.Runner.Send.{Outcome, ok, fail, Deadline, Transport, send_to_edge}

-- the key of uniqueTo
unfoldable pub edge_key : Edge → Text
edge_key e = e.port ++ e.to

unfoldable pub unique_from : List Text → List Edge → List Edge
unfolding edge_key
unique_from seen [] = []
unique_from seen (e ∷ es) =
    let skipped = unique_from seen es in
    let kept = e ∷ unique_from (edge_key e ∷ seen) es in
    if any (λ k. k == edge_key e) seen then skipped else kept

-- one edge for each key
unfoldable pub unique_edges : List Edge → List Edge
unfolding unique_from
unique_edges es = unique_from [] es

abbrev pub of_port : Text → List Edge → List Edge
of_port port es = keep (λ e. e.port == port) es

-- results[0], else errors[0], else nil
unfoldable pub choose {ℓ} : {A : Type ℓ} → List A → List Err → Outcome A
choose (v ∷ vs) errors = ok (some v)
choose [] (e ∷ es) = fail e
choose [] [] = ok none

-- results that are not nil, in the order of completion
unfoldable pub add_result {ℓ} : {A : Type ℓ} → Outcome A → List A → List A
add_result (ok (some v)) results = results ++ (v ∷ [])
add_result (ok none) results = results
add_result (fail e) results = results

unfoldable pub add_error {ℓ} : {A : Type ℓ} → Outcome A → List Err → List Err
add_error (ok res) errors = errors
add_error (fail e) errors = errors ++ (e ∷ [])

-- &v1alpha1.TinyNodeEdge{}
abbrev no_edge : Edge
no_edge = record { id = []; port = []; to = []; flow_id = []; retry_policy = none }

module _ (floats : Floats) {W A : Type 0} (t : Transport W A) (deadline : Deadline) where
  unfoldable pub send_all :
      Text → Text → List Edge → List A → List Err → Option Run → W → Outcome A × Option Run × W
  unfolding choose add_result add_error
  send_all from_port payload [] results errors run w = (choose results errors, run, w)
  send_all from_port payload (e ∷ es) results errors run w =
      let (outcome, run', w') = send_to_edge floats t deadline e from_port e.to payload run w in
      send_all from_port payload es (add_result outcome results) (add_error outcome errors) run' w'

  -- `inl` is the error of json.Marshal, `inr` the marshalled data; the handler is not nil.
  unfoldable pub output_handler :
      (List Edge → List Edge)
      → Text
      → List Edge
      → Text
      → Err ⊎ Text
      → Option Run
      → W
      → Outcome A × Option Run × W
  unfolding send_all unique_edges
  output_handler order name edges port (inl e) run w = (fail e, run, w)
  output_handler order name edges port (inr payload) run w =
      let direct = send_to_edge floats t deadline no_edge [] port payload run w in
      let fanned =
        send_all (get_port_full_name name port) payload (order (of_port port (unique_edges edges)))
          [] [] run w in
      if not ((parse_full_port_name port).0 == []) then direct else fanned
