-- ===== src/Graph/Edits/Laws.antt =====
-- What the edits remove and what they leave.
use module_lib.Prelude.{
  ◌≡◌, refl, ◌∙◌, ap, sym, inl, inr, Bool, true, false, not, ◌&&◌, ◌||◌, List, [], ◌∷◌, ◌++◌, arith,
  Text, ◌==◌, eq_iff, any, keep, append-nil, Bool-cases,
}
use mathlib.Core.Path.{subst, fun_ext}
use module_lib.Names.Address.{free, is_port_of, is_port_of-unparsed, parse-is_port_of}
use module_lib.Node.{Node, Edge, PortConfig}
use module_lib.Graph.Edits.{
  replace_flow_edges, replace_flow_port_configs, targets, sourced, remove_node_references,
}

module _ {A : Type 0} where
  -- Every element passes the test.
  abbrev pub all : (A → Bool) → List A → Bool
  all p [] = true
  all p (x ∷ xs) = p x && all p xs

  keep-append : (p : A → Bool) (xs ys : List A) → keep p (xs ++ ys) ≡ keep p xs ++ keep p ys
  keep-append p [] ys = refl
  keep-append p (x ∷ xs) ys = ground (arith, keep-append p xs ys)

  keep_twice : (p : A → Bool) (xs : List A) → keep p (keep p xs) ≡ keep p xs
  keep_twice p [] = refl
  keep_twice p (x ∷ xs) = ground (arith, keep_twice p xs)

  keep_none : (p : A → Bool) (xs : List A) → all (λ x. not (p x)) xs ≡ true → keep p xs ≡ []
  keep_none p [] h = refl
  keep_none p (x ∷ xs) h = ground (arith, keep_none p xs)

  keep_all : (p : A → Bool) (xs : List A) → any p xs ≡ false → keep (λ x. not (p x)) xs ≡ xs
  keep_all p [] h = refl
  keep_all p (x ∷ xs) h = ground (arith, keep_all p xs)

  any-keep : (p : A → Bool) (xs : List A) → any p (keep (λ x. not (p x)) xs) ≡ false
  any-keep p [] = refl
  any-keep p (x ∷ xs) = ground (arith, any-keep p xs)

  -- Elements that fail the test are dropped from a list that was rebuilt with them.
  keep-rebuilt :
      (p : A → Bool) (xs new : List A)
      → all (λ x. not (p x)) new ≡ true
      → keep p (keep p xs ++ new) ≡ keep p xs
  keep-rebuilt p xs new h =
      keep-append p (keep p xs) new
      ∙ rw (keep_twice p xs, keep_none p new h) (append-nil (keep p xs))

-- Importing the same flows twice changes nothing the second time: where the new edges and port
-- configurations belong to those flows, and the configurations are of edges, none is doubled.
-- What belongs to other flows, and a node's own configurations, stay as they were.
pub replace_flow_edges-replace_flow_port_configs :
    (flows : Text → Bool) (edges new : List Edge) (configs fresh : List PortConfig)
    → all (λ e. not (not (flows e.flow_id))) new ≡ true
    → all (λ p. not (p.from == [] || not (flows p.flow_id))) fresh ≡ true
    → let es = replace_flow_edges edges flows new in
      let ps = replace_flow_port_configs configs flows fresh in
      (replace_flow_edges es flows new ≡ es)
      × (replace_flow_port_configs ps flows fresh ≡ ps)
      × (keep (λ e. not (flows e.flow_id)) es ≡ keep (λ e. not (flows e.flow_id)) edges)
      × (keep (λ p. p.from == [] || not (flows p.flow_id)) ps
          ≡ keep (λ p. p.from == [] || not (flows p.flow_id)) configs)
unfolding replace_flow_edges replace_flow_port_configs
replace_flow_edges-replace_flow_port_configs flows edges new configs fresh h k =
    let e = keep-rebuilt (λ (e : Edge). not (flows e.flow_id)) edges new h in
    let p =
      keep-rebuilt (λ (p : PortConfig). p.from == [] || not (flows p.flow_id)) configs fresh k in
    (ap (λ es. es ++ new) e, ap (λ ps. ps ++ fresh) p, e, p)

targets-is_port_of :
    (name : Text) (e : Edge)
    → (name == []) ≡ false
    → free b':' name ≡ true
    → targets name e ≡ is_port_of name e.to
unfolding targets
targets-is_port_of name e named plain = parse-is_port_of name e.to named plain

sourced-is_port_of :
    (name : Text) (p : PortConfig)
    → (name == []) ≡ false
    → free b':' name ≡ true
    → sourced name p ≡ is_port_of name p.from
unfolding sourced
sourced-is_port_of name p named plain = elim (Bool-cases (p.from == [])) [
  | inl empty ↦ rw empty (rw ((eq_iff p.from []).0 empty) (sym (is_port_of-unparsed name [] refl)))
  | inr full ↦ rw full (parse-is_port_of name p.from named plain)
]

-- The two lists of a node's fields, filtered by these tests.
abbrev Filtered : Node → Text → (Edge → Bool) → (PortConfig → Bool) → Type 0
Filtered node name t s =
    let (changed, node') = remove_node_references node name in
    (any t node'.edges ≡ false)
    × (any s node'.ports ≡ false)
    × (node' ≡ record node {
      edges = keep (λ e. not (t e)) node.edges;
      ports = keep (λ p. not (s p)) node.ports;
    })
    × (changed ≡ (any t node.edges || any s node.ports))

remove_node_references-Filtered :
    (node : Node) (name : Text) → Filtered node name (targets name) (sourced name)
unfolding remove_node_references
remove_node_references-Filtered node name = ground (
  arith,
  any-keep (targets name) node.edges,
  any-keep (sourced name) node.ports,
  keep_all (targets name) node.edges,
  keep_all (sourced name) node.ports,
)

-- When a node with a name that is not empty and has no colon is deleted, no edge of another node goes to
-- a port of it any more and no port configuration comes from one; the other edges and configurations
-- stay, in order, and so does all else of the node; and the result says whether there was such a
-- reference.
pub remove_node_references_exact :
    (node : Node) (name : Text)
    → (name == []) ≡ false
    → free b':' name ≡ true
    → let (changed, node') = remove_node_references node name in
      (any (λ e. is_port_of name e.to) node'.edges ≡ false)
      × (any (λ p. is_port_of name p.from) node'.ports ≡ false)
      × (node' ≡ record node {
        edges = keep (λ e. not (is_port_of name e.to)) node.edges;
        ports = keep (λ p. not (is_port_of name p.from)) node.ports;
      })
      × (changed ≡ (
          any (λ e. is_port_of name e.to) node.edges
          || any (λ p. is_port_of name p.from) node.ports))
remove_node_references_exact node name named plain =
    subst (λ t. Filtered node name t (λ p. is_port_of name p.from))
      (fun_ext (λ (e : Edge). targets-is_port_of name e named plain))
      (subst (λ s. Filtered node name (targets name) s)
        (fun_ext (λ (p : PortConfig). sourced-is_port_of name p named plain))
        (remove_node_references-Filtered node name))
