-- ===== src/Names/Address.antt =====
-- Addresses and node names survive a print and a parse.
use module_lib.Prelude.{
  ℕ, ◌≡◌, refl, ◌∙◌, ap, sym, ◌⊎◌, inl, inr, Bool, true, false, ◌&&◌, some, List, [], ◌∷◌, ◌++◌,
  arith, Text, ◌==◌, eq_iff, eqb, eqb_iff, Bool-cases, starts_with, if◌then◌else◌,
}
use module_lib.Prelude.Strings.{drop_prefix}
use module_lib.Names.{
  split, get_port_full_name, parse_full_port_name, get_node_full_name, parse_node_full_name,
}

-- No byte of the text is `sep`.
abbrev pub free : ℕ → Text → Bool
free sep [] = true
free sep (c ∷ s) = if_free (eqb c sep) (free sep s)
  where
    if_free : Bool → Bool → Bool
    if_free true b = false
    if_free false b = b

split-free : (sep : ℕ) (s : Text) → free sep s ≡ true → split sep s ≡ s ∷ []
unfolding split
split-free sep [] h = refl
split-free sep (c ∷ s) h = ground (arith, split-free sep s)

split-append :
    (sep : ℕ) (s t : Text) → free sep s ≡ true → split sep (s ++ (sep ∷ t)) ≡ s ∷ split sep t
unfolding split
split-append sep [] t h = ground arith
split-append sep (c ∷ s) t h = ground (arith, split-append sep s t)

-- An address built from a node and a port without colons is parsed into that node and port.
pub parse-get_port_full_name :
    (node port : Text)
    → free b':' node ≡ true
    → free b':' port ≡ true
    → parse_full_port_name (get_port_full_name node port) ≡ (node, port)
unfolding parse_full_port_name get_port_full_name
parse-get_port_full_name node port hn hp =
    ground
      (arith, eq_iff node [], eq_iff port [], split-append b':' node port, split-free b':' port)

-- A text has no such byte, or is cut at the first.
cut_at :
    (sep : ℕ) (s : Text)
    → (free sep s ≡ true) ⊎ ((p : Text) × (q : Text) × (s ≡ p ++ (sep ∷ q)) × (free sep p ≡ true))
cut_at sep [] = inl refl
cut_at sep (c ∷ s) = elim (Bool-cases (eqb c sep)) [
  | inl y ↦ inr ([], s, ground (arith, eqb_iff c sep), refl)
  | inr n ↦ elim (cut_at sep s) [
    | inl f ↦ inl (rw n f)
    | inr (p, q, e, f) ↦ inr (c ∷ p, q, ap (λ t. c ∷ t) e, rw n f)
  ]
]

split-cons : (sep : ℕ) (s : Text) → (p : Text) × (ps : List Text) × (split sep s ≡ p ∷ ps)
split-cons sep s = elim (cut_at sep s) [
  | inl f ↦ (s, [], split-free sep s f)
  | inr (p, q, e, f) ↦ (p, split sep q, rw e (split-append sep p q f))
]

-- The node of an address that has a first colon.
parse-cut :
    (p q : Text)
    → free b':' p ≡ true
    → (parse_full_port_name (p ++ (b':' ∷ q))).0 ≡ (if free b':' q then p else [])
unfolding parse_full_port_name
parse-cut p q f = elim (cut_at b':' q) [
  | inl g ↦ rw (split-append b':' p q f, split-free b':' q g, g) refl
  | inr (a, b, e, g) ↦
      let (x, xs, h) = split-cons b':' b in
      rw (split-append b':' p q f) (rw (e, split-append b':' a b g, h, free-append a b) refl)
]
  where
    free-append : (a b : Text) → free b':' (a ++ (b':' ∷ b)) ≡ false
    free-append [] b = refl
    free-append (c ∷ a) b = ground (arith, free-append a b)

starts_with-cut :
    (name p q : Text)
    → free b':' name ≡ true
    → free b':' p ≡ true
    → starts_with (p ++ (b':' ∷ q)) (name ++ (b':' ∷ [])) ≡ (p == name)
unfolding starts_with ◌==◌
starts_with-cut [] [] q hn hp = refl
starts_with-cut [] (c ∷ p) q hn hp = ground arith
starts_with-cut (d ∷ name) [] q hn hp = ground arith
starts_with-cut (d ∷ name) (c ∷ p) q hn hp = ground (arith, starts_with-cut name p q)

starts_with-free :
    (name s : Text) → free b':' s ≡ true → starts_with s (name ++ (b':' ∷ [])) ≡ false
unfolding starts_with
starts_with-free [] [] h = refl
starts_with-free [] (c ∷ s) h = ground arith
starts_with-free (d ∷ name) [] h = refl
starts_with-free (d ∷ name) (c ∷ s) h = ground (arith, starts_with-free name s)

drop_prefix-colon : (p q : Text) → drop_prefix (p ++ (b':' ∷ [])) (p ++ (b':' ∷ q)) ≡ q
unfolding drop_prefix
drop_prefix-colon [] q = refl
drop_prefix-colon (c ∷ p) q = drop_prefix-colon p q

parse-free : (a : Text) → free b':' a ≡ true → (parse_full_port_name a).0 ≡ []
unfolding parse_full_port_name
parse-free a f = rw (split-free b':' a f) refl

-- The address is that of a port of this node: the name, a colon, and a port with no colon.
unfoldable pub is_port_of : Text → Text → Bool
is_port_of name address =
    starts_with address (name ++ (b':' ∷ []))
    && free b':' (drop_prefix (name ++ (b':' ∷ [])) address)

is_port_of-cut :
    (name p q : Text)
    → free b':' name ≡ true
    → free b':' p ≡ true
    → is_port_of name (p ++ (b':' ∷ q)) ≡ (if p == name then free b':' q else false)
unfolding is_port_of
is_port_of-cut name p q hn hp = elim (Bool-cases (p == name)) [
  | inl y ↦
      let e = (eq_iff p name).0 y in
      rw (starts_with-cut name p q hn hp, y)
        (ap (λ n. free b':' (drop_prefix (n ++ (b':' ∷ [])) (p ++ (b':' ∷ q)))) (sym e)
          ∙ ap (free b':') (drop_prefix-colon p q))
  | inr n ↦ rw (starts_with-cut name p q hn hp, n) refl
]

pub is_port_of-unparsed : (name a : Text) → free b':' a ≡ true → is_port_of name a ≡ false
unfolding is_port_of
is_port_of-unparsed name a f = rw (starts_with-free name a f) refl

-- The node that is read from an address is this one, exactly when the address is that of a port of it.
pub parse-is_port_of :
    (name a : Text)
    → (name == []) ≡ false
    → free b':' name ≡ true
    → ((parse_full_port_name a).0 == name) ≡ is_port_of name a
parse-is_port_of name a named plain = elim (cut_at b':' a) [
  | inl f ↦
      rw (parse-free a f)
        (ground (arith, eq_iff [] name, eq_iff name [], is_port_of-unparsed name a f))
  | inr (p, q, e, f) ↦ rw e (
      rw (parse-cut p q f, is_port_of-cut name p q plain f)
        (ground (arith, eq_iff [] name, eq_iff name [])))
]

-- A node's full name gives back its module and component, if none of the three parts has a dot.
pub parse-get_node_full_name :
    (prefix module_name component : Text)
    → free b'.' prefix ≡ true
    → free b'.' module_name ≡ true
    → free b'.' component ≡ true
    → parse_node_full_name (get_node_full_name prefix module_name component)
      ≡ some (module_name, component)
unfolding parse_node_full_name get_node_full_name
parse-get_node_full_name prefix m c hp hm hc =
    ground
      (arith, split-append b'.' prefix (m ++ (b'.' ∷ c)), split-append b'.' m c, split-free b'.' c)
