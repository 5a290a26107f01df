-- ===== src/Names.antt =====
-- Port addresses "node:port": pkg/utils/port.go; and the node names of pkg/utils/naming.go and
-- module/naming_match.go.
pub mod Matching
pub mod Address
use module_lib.Prelude.{
  ℕ, ◌+◌, Bool, true, false, ◌&&◌, Option, none, some, List, [], ◌∷◌, ◌++◌, Text, codes, ◌==◌, eqb,
  leb, if◌then◌else◌,
}

cons_head : ℕ → List Text → List Text
cons_head c [] = (c ∷ []) ∷ []
cons_head c (p ∷ ps) = (c ∷ p) ∷ ps

-- strings.Split(s, sep) at a separator of one byte
unfoldable pub split : ℕ → Text → List Text
unfolding cons_head
split sep [] = [] ∷ []
split sep (c ∷ s) = let rest = split sep s in if eqb c sep then [] ∷ rest else cons_head c rest

unfoldable pub get_port_full_name : Text → Text → Text
get_port_full_name node port = if node == [] && port == [] then [] else node ++ (b':' ∷ port)

address_of : List Text → Text × Text
address_of (port ∷ []) = ([], port)
address_of (node ∷ port ∷ []) = (node, port)
address_of _ = ([], [])

-- the node and the port
unfoldable pub parse_full_port_name : Text → Text × Text
unfolding split address_of
parse_full_port_name name = address_of (split b':' name)

unfoldable pub get_node_full_name : Text → Text → Text → Text
get_node_full_name prefix module_name component =
    prefix ++ (b'.' ∷ (module_name ++ (b'.' ∷ component)))

-- the module and the component; `none` is the error
node_parts : List Text → Option (Text × Text)
node_parts (prefix ∷ module_name ∷ component ∷ rest) = some (module_name, component)
node_parts _ = none

unfoldable pub parse_node_full_name : Text → Option (Text × Text)
unfolding split node_parts
parse_node_full_name name = node_parts (split b'.' name)

-- strings.ToLower on ASCII text; module names are ASCII
lower : ℕ → ℕ
lower c = if leb b'A' c && leb c b'Z' then c + 32 else c

unfoldable pub normalize_module_separators : Text → Text
unfolding lower
normalize_module_separators [] = []
normalize_module_separators (c ∷ s) =
    lower (if eqb c b'/' then b'-' else c) ∷ normalize_module_separators s

-- strings.HasSuffix(s, t)
unfoldable pub ends_with : Text → Text → Bool
ends_with [] t = [] == t
ends_with (c ∷ s) t = if (c ∷ s) == t then true else ends_with s t

unfoldable pub name_matches : Text → Text → Bool
unfolding normalize_module_separators ends_with
name_matches found running =
    let f = normalize_module_separators found in
    let r = normalize_module_separators running in
    if f == []
    then false
    else if r == []
    then false
    else if f == r
    then true
    else if ends_with r (b'-' ∷ f)
    then true
    else ends_with f (b'-' ∷ r)
