-- ===== src/Graph/Ids/Laws.antt =====
-- Round trips of the identifiers, and where they fail.
use module_lib.Prelude.{
  ℕ, suc, ◌<◌, length-append, ◌≡◌, refl, ◌≢◌, ◌∙◌, ap, sym, true, Option, none, some, [], ◌∷◌, ◌++◌,
  arith, Text, length, append_assoc,
}
use mathlib.Core.Path.{subst}
use module_lib.Names.Address.{free}
use module_lib.Graph.Ids.{
  cut, cut_last, cut_later, EdgeId, generate_edge_id, parse_edge_id, get_flow_element_name,
  drop_bytes, dotted_suffix, or_whole, both_parts, parse_parts,
}

cut-append : (sep : ℕ) (s t : Text) → free sep s ≡ true → cut sep (s ++ (sep ∷ t)) ≡ some (s, t)
unfolding cut
cut-append sep [] t h = ground arith
cut-append sep (c ∷ s) t h = ground (arith, cut-append sep s t)

cut_last-free : (sep : ℕ) (t : Text) → free sep t ≡ true → cut_last sep t ≡ none
unfolding cut_last
cut_last-free sep [] h = refl
cut_last-free sep (c ∷ t) h = ground (arith, cut_last-free sep t)

cut_last-append :
    (sep : ℕ) (s t : Text) → free sep t ≡ true → cut_last sep (s ++ (sep ∷ t)) ≡ some (s, t)
unfolding cut_last
cut_last-append sep [] t h = ground (arith, cut_last-free sep t)
cut_last-append sep (c ∷ s) t h = ground (arith, cut_last-append sep s t)

free-append :
    (sep : ℕ) (s t : Text) → free sep s ≡ true → free sep t ≡ true → free sep (s ++ t) ≡ true
free-append sep [] t h k = k
free-append sep (c ∷ s) t h k = ground (arith, free-append sep s t)

-- An edge's identifier gives back its four parts, where the source node and its port have no
-- hyphen and neither port has an underscore; the target node may have both.
pub parse-generate_edge_id :
    (source source_handle target target_handle : Text)
    → free b'-' source ≡ true
    → free b'-' source_handle ≡ true
    → free b'_' source_handle ≡ true
    → free b'_' target_handle ≡ true
    → parse_edge_id (generate_edge_id source source_handle target target_handle)
      ≡ some (record {
        source = source;
        source_handle = source_handle;
        target = target;
        target_handle = target_handle;
      })
unfolding parse_edge_id generate_edge_id
parse-generate_edge_id s sh t th hs hsh ush uth =
    rw (← append_assoc s (b'_' ∷ sh) (b'-' ∷ (t ++ (b'_' ∷ th)))) (
      rw
        (cut-append b'-' (s ++ (b'_' ∷ sh)) (t ++ (b'_' ∷ th))
          (free-append b'-' s (b'_' ∷ sh) hs hsh))
        (rw (cut_last-append b'_' s sh ush, cut_last-append b'_' t th uth) refl))

drop_bytes-append : (p s : Text) → drop_bytes (length p) (p ++ s) ≡ s
unfolding drop_bytes
drop_bytes-append [] s = refl
drop_bytes-append (c ∷ p) s = drop_bytes-append p s

or_whole-dotted_suffix : (c : ℕ) (s t : Text) → or_whole (c ∷ s) (dotted_suffix t) ≢ []
unfolding get_flow_element_name
or_whole-dotted_suffix c s [] h = cc
or_whole-dotted_suffix c s (a ∷ []) h = cc
or_whole-dotted_suffix c s (a ∷ b ∷ t) h = ground arith

drop_bytes_eight : (p s : Text) → length p ≡ 8 → drop_bytes 8 (p ++ s) ≡ s
drop_bytes_eight p s h = subst (λ n. drop_bytes n (p ++ s) ≡ s) h (drop_bytes-append p s)

get_flow_element_name-prefixed :
    (p q rest : Text)
    → length p ≡ 8
    → rest ≢ []
    → get_flow_element_name q (p ++ (b'.' ∷ rest)) ≡ q ++ (b'.' ∷ rest)
unfolding get_flow_element_name
get_flow_element_name-prefixed [] q rest h n = absurd (omega arith)
get_flow_element_name-prefixed (a ∷ p) q [] h n = absurd (n refl)
get_flow_element_name-prefixed (a ∷ p) q (d ∷ r) h n =
    rw (drop_bytes_eight (a ∷ p) (b'.' ∷ (d ∷ r)) h) refl

-- Prefixing an element's name again replaces the prefix of eight bytes: the name in another flow, or
-- in the same, is the one that the original name would have got there.
pub get_flow_element_name_twice :
    (p q element : Text)
    → length p ≡ 8
    → get_flow_element_name q (get_flow_element_name p element) ≡ get_flow_element_name q element
unfolding get_flow_element_name
get_flow_element_name_twice p q [] h = refl
get_flow_element_name_twice p q (c ∷ s) h =
    get_flow_element_name-prefixed p q (or_whole (c ∷ s) (dotted_suffix (drop_bytes 8 (c ∷ s)))) h
      (or_whole-dotted_suffix c s (drop_bytes 8 (c ∷ s)))

abbrev first_length : Option (Text × Text) → ℕ
first_length none = 0
first_length (some (a, b)) = length a

abbrev source_length : Option EdgeId → ℕ
source_length none = 0
source_length (some e) = length e.source

length-cut_later :
    (sep c : ℕ) (s a b : Text) (o : Option (Text × Text))
    → ((x y : Text) → o ≡ some (x, y) → length x < length s)
    → cut_later sep c s o ≡ some (a, b)
    → length a < suc (length s)
unfolding cut_last
length-cut_later sep c s a b none ih h =
    ground (arith, ap (λ (o : Option (Text × Text)). first_length o) h)
length-cut_later sep c s a b (some (x, y)) ih h =
    omega (arith, ih x y refl, ap (λ (o : Option (Text × Text)). first_length o) h)

length-cut_last : (sep : ℕ) (s a b : Text) → cut_last sep s ≡ some (a, b) → length a < length s
unfolding cut_last
length-cut_last sep [] a b h = cc
length-cut_last sep (c ∷ s) a b h =
    length-cut_later sep c s a b (cut_last sep s) (length-cut_last sep s) h

length-parse_parts :
    (s t : Text) (e : EdgeId) → parse_parts (some (s, t)) ≡ some e → length e.source < length s
unfolding parse_edge_id
length-parse_parts s t e h = by_parts (cut_last b'_' s) (cut_last b'_' t) refl h
  where
    by_parts :
        (p q : Option (Text × Text))
        → cut_last b'_' s ≡ p
        → both_parts p q ≡ some e
        → length e.source < length s
    by_parts none q k h = cc
    by_parts (some p) none k h = cc
    by_parts (some (a, b)) (some (x, y)) k h =
        omega (arith, length-cut_last b'_' s a b k, ap (λ (o : Option EdgeId). source_length o) h)

parse_edge_id_hyphen :
    (a b sh t th : Text)
    → free b'-' a ≡ true
    → parse_edge_id (generate_edge_id (a ++ (b'-' ∷ b)) sh t th)
      ≡ parse_parts (some (a, b ++ (b'_' ∷ (sh ++ (b'-' ∷ (t ++ (b'_' ∷ th)))))))
unfolding parse_edge_id generate_edge_id
parse_edge_id_hyphen a b sh t th h =
    let rest : Text = b'_' ∷ (sh ++ (b'-' ∷ (t ++ (b'_' ∷ th)))) in
    ap (λ s. parse_parts (cut b'-' s)) (append_assoc a (b'-' ∷ b) rest)
    ∙ ap parse_parts (cut-append b'-' a (b ++ rest) h)

-- Where the source node's name has a hyphen, as the names of generated nodes have, the identifier
-- is not read back: it is refused, or the source that is read is another one.
pub parse-generate_edge_id_hyphen :
    (a b source_handle target target_handle : Text) (e : EdgeId)
    → free b'-' a ≡ true
    → parse_edge_id (generate_edge_id (a ++ (b'-' ∷ b)) source_handle target target_handle) ≡ some e
    → e.source ≢ a ++ (b'-' ∷ b)
parse-generate_edge_id_hyphen a b sh t th e h p same =
    let short = length-parse_parts a _ e (sym (parse_edge_id_hyphen a b sh t th h) ∙ p) in
    absurd (omega (arith, ap length same, length-append {0} a (b'-' ∷ b), short))
