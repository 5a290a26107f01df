-- ===== src/Graph/Ids.antt =====
-- The identifiers of flow elements: pkg/utils/elements.go. The hash prefix of a project and a flow,
-- eight hexadecimal digits of an MD5 hash, is an argument.
pub mod Laws
use module_lib.Prelude.{
  ℕ, zero, suc, ◌+◌, ◌≡◌, Bool, true, false, not, ◌&&◌, ◌||◌, Option, none, some, List, [], ◌∷◌,
  ◌++◌, Text, codes, ◌==◌, eqb, any, if◌then◌else◌,
}
use module_lib.Names.{split}

-- strings.TrimSpace drops ASCII white space and, past ASCII, what unicode.IsSpace lists; only the ASCII
-- characters are modelled.
abbrev is_space : ℕ → Bool
is_space c = eqb c b' ' || eqb c 9 || eqb c 10 || eqb c 11 || eqb c 12 || eqb c 13

unfoldable pub trim_left : Text → Text
trim_left [] = []
trim_left (c ∷ s) = let rest = trim_left s in if is_space c then rest else c ∷ s

unfoldable pub trim_right : Text → Text
trim_right [] = []
trim_right (c ∷ s) = drop_blank c (trim_right s)
  where
    drop_blank : ℕ → Text → Text
    drop_blank c [] = if is_space c then [] else c ∷ []
    drop_blank c (d ∷ t) = c ∷ d ∷ t

unfoldable pub trim_space : Text → Text
unfolding trim_left trim_right
trim_space s = trim_right (trim_left s)

-- strings.Join
unfoldable pub join_texts : Text → List Text → Text
join_texts sep [] = []
join_texts sep (s ∷ []) = s
join_texts sep (s ∷ t ∷ ts) = s ++ (sep ++ join_texts sep (t ∷ ts))

unfoldable pub contains_text : Text → List Text → Bool
contains_text s [] = false
contains_text s (t ∷ ts) = s == t || contains_text s ts

-- flowNameMap[f], where it is there and not empty
resolved : (Text → Option Text) → Text → Text
resolved names f = or_self f (names f)
  where
    or_self : Text → Option Text → Text
    or_self f none = f
    or_self f (some t) = if t == [] then f else t

resolve_each : (Text → Option Text) → List Text → List Text
resolve_each names [] = []
resolve_each names (f ∷ fs) = resolved names (trim_space f) ∷ resolve_each names fs

unfoldable pub resolve_shared_flows : Text → (Text → Option Text) → Text
unfolding resolved resolve_each
resolve_shared_flows shared names = join_texts (codes ",") (resolve_each names (split b',' shared))

-- element[n:], and whether element[n] is a dot
unfoldable pub drop_bytes : ℕ → Text → Text
drop_bytes zero s = s
drop_bytes (suc n) [] = []
drop_bytes (suc n) (c ∷ s) = drop_bytes n s

dotted_suffix : Text → Option Text
dotted_suffix [] = none
dotted_suffix (c ∷ []) = none
dotted_suffix (c ∷ d ∷ s) = if eqb c b'.' then some (d ∷ s) else none

or_whole : Text → Option Text → Text
or_whole element none = element
or_whole element (some suffix) = suffix

unfoldable pub get_flow_element_name : Text → Text → Text
unfolding drop_bytes dotted_suffix or_whole
get_flow_element_name hash_prefix [] = []
get_flow_element_name hash_prefix (c ∷ s) =
    hash_prefix ++ (b'.' ∷ or_whole (c ∷ s) (dotted_suffix (drop_bytes 8 (c ∷ s))))

unfoldable pub generate_edge_id : Text → Text → Text → Text → Text
generate_edge_id source source_handle target target_handle =
    source ++ (b'_' ∷ (source_handle ++ (b'-' ∷ (target ++ (b'_' ∷ target_handle)))))

-- strings.SplitN(s, sep, 2), none where there is one part
unfoldable pub cut : ℕ → Text → Option (Text × Text)
cut sep [] = none
cut sep (c ∷ s) =
    let rest = cut sep s in
    if eqb c sep then some ([], s) else elim rest [ none ↦ none | some (a, b) ↦ some (c ∷ a, b) ]

-- The parts before and after the last `sep`, none where strings.LastIndex gives -1
cut_later : ℕ → ℕ → Text → Option (Text × Text) → Option (Text × Text)
cut_later sep c s none = if eqb c sep then some ([], s) else none
cut_later sep c s (some (a, b)) = some (c ∷ a, b)

unfoldable pub cut_last : ℕ → Text → Option (Text × Text)
unfolding cut_later
cut_last sep [] = none
cut_last sep (c ∷ s) = cut_later sep c s (cut_last sep s)

pub record EdgeId : Type 0 where
  pub source : Text
  pub source_handle : Text
  pub target : Text
  pub target_handle : Text

both_parts : Option (Text × Text) → Option (Text × Text) → Option EdgeId
both_parts none t = none
both_parts (some s) none = none
both_parts (some (source, source_handle)) (some (target, target_handle)) = some (record {
  source = source;
  source_handle = source_handle;
  target = target;
  target_handle = target_handle;
})

parse_parts : Option (Text × Text) → Option EdgeId
parse_parts none = none
parse_parts (some (s, t)) = both_parts (cut_last b'_' s) (cut_last b'_' t)

-- none for any of the errors
unfoldable pub parse_edge_id : Text → Option EdgeId
unfolding cut cut_last parse_parts both_parts
parse_edge_id id = parse_parts (cut b'-' id)

abbrev is_found : Option EdgeId → Bool
is_found none = false
is_found (some e) = true

unfoldable pub is_edge_id : Text → Bool
unfolding parse_edge_id
is_edge_id id =
    if not (any (λ c. eqb c b'_') id) || not (any (λ c. eqb c b'-') id)
    then false
    else is_found (parse_edge_id id)
