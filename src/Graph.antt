-- ===== src/Graph.antt =====
-- The flow graph: the edits of a node's edges and port configurations, and their updates from an
-- editor's request, the identifiers of elements, the rebuilding of nodes from exported elements, and the validation of an import.
pub mod Requests
pub mod Edits
pub mod Ids
pub mod Elements
pub mod Problems
pub mod Validation
pub mod Rebuild
