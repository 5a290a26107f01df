-- ===== src/Runner/Status/Hidden.antt =====
-- Credentials in published statuses.
use module_lib.Prelude.{
  ◌≡◌, refl, ◌∙◌, ap, sym, Bool, true, false, not, ◌&&◌, Option, none, some, ◌⊎◌, inl, inr, List,
  [], ◌∷◌, Text, ◌==◌, eq_iff, arith, ltb, In, Bool-cases, if◌then◌else◌,
}
use mathlib.Core.Path.{subst}
use module_lib.Json.{
  Json, Items, Fields, null, bool, number, text, array, object, nil, item, end, field,
}
use module_lib.Redact.{
  secrets, value, value_items, value_fields, value_marker, redacted_text, is_expression,
  is_secret_key,
}
use module_lib.Redact.Leaves.{each, hidden, leaves, leaves-secrets}
use module_lib.Node.{PortStatus}
use module_lib.Runner.Messages.{Port}
use module_lib.Runner.Status.{
  deep_equal, equal_items, equal_fields, same_bool, JsonCodec, Encodings, redact_port_configuration,
  redacted_bytes, bytes_of, port_statuses, configuration_of,
}

same_bool-eq : (a b : Bool) → same_bool a b ≡ true → a ≡ b
same_bool-eq true b h = sym h
same_bool-eq false true h = h
same_bool-eq false false h = refl

mutual
  unfolding deep_equal

  deep_equal-eq : (a b : Json) → deep_equal a b ≡ true → a ≡ b
  deep_equal-eq null null h = refl
  deep_equal-eq (bool a) (bool b) h = ap bool (same_bool-eq a b h)
  deep_equal-eq (number a) (number b) h = ap number ((eq_iff a b).0 h)
  deep_equal-eq (text a) (text b) h = ap text ((eq_iff a b).0 h)
  deep_equal-eq (array a) (array b) h = ap array (equal_items-eq a b h)
  deep_equal-eq (object a) (object b) h = ap object (equal_fields-eq a b h)
  deep_equal-eq _ _ h = cc

  equal_items-eq : (a b : Items) → equal_items a b ≡ true → a ≡ b
  equal_items-eq nil nil h = refl
  equal_items-eq (item v xs) (item u ys) h =
      let p : deep_equal v u ≡ true = ground arith in
      let q : equal_items xs ys ≡ true = ground arith in
      cc (deep_equal-eq v u p, equal_items-eq xs ys q)
  equal_items-eq _ _ h = cc

  equal_fields-eq : (a b : Fields) → equal_fields a b ≡ true → a ≡ b
  equal_fields-eq end end h = refl
  equal_fields-eq (field j v m) (field k u n) h =
      let i : (j == k) ≡ true = ground arith in
      let p : deep_equal v u ≡ true = ground arith in
      let q : equal_fields m n ≡ true = ground arith in
      cc ((eq_iff j k).0 i, deep_equal-eq v u p, equal_fields-eq m n q)
  equal_fields-eq _ _ h = cc

-- Every text of a value, names included, passes a test.
unfoldable mutual
  pub all_texts : (Text → Bool) → Json → Bool
  all_texts p null = true
  all_texts p (bool b) = true
  all_texts p (number n) = true
  all_texts p (text s) = p s
  all_texts p (array xs) = all_in_items p xs
  all_texts p (object m) = all_in_fields p m

  pub all_in_items : (Text → Bool) → Items → Bool
  all_in_items p nil = true
  all_in_items p (item v xs) = all_texts p v && all_in_items p xs

  pub all_in_fields : (Text → Bool) → Fields → Bool
  all_in_fields p end = true
  all_in_fields p (field k v m) = p k && (all_texts p v && all_in_fields p m)

abbrev pub is_ascii : Text → Bool
is_ascii [] = true
is_ascii (c ∷ s) = ltb c 128 && is_ascii s

-- What encoding/json is relied on for. Decoded texts are UTF-8, and ASCII is. A value whose texts are UTF-8
-- is encoded to bytes that decode; as the fields of an object are sorted and those of one name
-- merged, what they decode to may be another value, but each of its strings is one of the value's
-- own, under the same name.
pub record IsJson (codec : JsonCodec) : Type 0 where
  pub is_utf8 : Text → Bool
  pub ascii_utf8 : (s : Text) → is_ascii s ≡ true → is_utf8 s ≡ true
  pub decode_utf8 : (b : Text) (v : Json) → codec.decode b ≡ some v → all_texts is_utf8 v ≡ true
  pub decode_encode :
      (v : Json) (b : Text)
      → codec.encode v ≡ some b
      → all_texts is_utf8 v ≡ true
      → (u : Json) × (codec.decode b ≡ some u)
        × ((k s : Text) → In (k, s) (leaves [] u) → In (k, s) (leaves [] v))

each-In :
    (p : Text → Text → Bool) (l : List (Text × Text)) (k s : Text)
    → each p l ≡ true
    → In (k, s) l
    → p k s ≡ true
each-In p [] k s h m = absurd m
each-In p ((j, t) ∷ l) k s h (inl e) =
    let a : p j t ≡ true = ground arith in subst (λ (x : Text × Text). p x.0 x.1 ≡ true) (sym e) a
each-In p ((j, t) ∷ l) k s h (inr m) = each-In p l k s (ground arith) m

In-each :
    (p : Text → Text → Bool) (l : List (Text × Text))
    → ((k s : Text) → In (k, s) l → p k s ≡ true)
    → each p l ≡ true
In-each p [] h = refl
In-each p ((j, t) ∷ l) h = rw (h j t (inl refl)) (In-each p l (λ k s m. h k s (inr m)))

both : (a b : Bool) → (a && b) ≡ true → (a ≡ true) × (b ≡ true)
both true b h = (refl, h)
both false b h = cc

module _ (p : Text → Bool) (marked : p value_marker ≡ true) where
  redacted_text-passes : (key s : Text) → p s ≡ true → p (redacted_text key s) ≡ true
  unfolding redacted_text
  redacted_text-passes key s h =
      elim (Bool-cases (not (s == []) && not (is_expression s) && is_secret_key key)) [
        | inl y ↦ rw y marked
        | inr n ↦ rw n h
      ]

  mutual
    unfolding all_texts value

    all_texts-value :
        (key : Text) (v : Json) → all_texts p v ≡ true → all_texts p (value key v) ≡ true
    all_texts-value key null h = refl
    all_texts-value key (bool b) h = refl
    all_texts-value key (number n) h = refl
    all_texts-value key (text s) h = redacted_text-passes key s h
    all_texts-value key (array xs) h = all_in_items-value key xs h
    all_texts-value key (object m) h = all_in_fields-value m h

    all_in_items-value :
        (key : Text) (xs : Items)
        → all_in_items p xs ≡ true
        → all_in_items p (value_items key xs) ≡ true
    all_in_items-value key nil h = refl
    all_in_items-value key (item v xs) h =
        let (a, b) = both (all_texts p v) (all_in_items p xs) h in
        rw (all_texts-value key v a) (all_in_items-value key xs b)

    all_in_fields-value :
        (m : Fields) → all_in_fields p m ≡ true → all_in_fields p (value_fields m) ≡ true
    all_in_fields-value end h = refl
    all_in_fields-value (field k v m) h =
        let (a, r) = both (p k) (all_texts p v && all_in_fields p m) h in
        let (b, c) = both (all_texts p v) (all_in_fields p m) r in
        rw (a, all_texts-value k v b) (all_in_fields-value m c)

-- There are no bytes, or they are of a value in which no credential is left.
abbrev pub IsHidden : JsonCodec → Text → Type 0
IsHidden codec b =
    (b ≡ []) ⊎ ((v : Json) × (codec.decode b ≡ some v) × (each hidden (leaves [] v) ≡ true))

abbrev pub AllHidden : JsonCodec → List PortStatus → Type 0
AllHidden codec [] = Unit
AllHidden codec (p ∷ ps) = IsHidden codec p.configuration × AllHidden codec ps

module _ (codec : JsonCodec) (laws : IsJson codec) where
  encoded-IsHidden :
      (v : Json) (o : Option Text)
      → all_texts laws.is_utf8 v ≡ true
      → codec.encode (secrets v) ≡ o
      → IsHidden codec (bytes_of o)
  unfolding secrets
  encoded-IsHidden v none h e = inl refl
  encoded-IsHidden v (some b) h e =
      let utf8 = all_texts-value laws.is_utf8 (laws.ascii_utf8 value_marker refl) [] v h in
      let (u, is, own) = laws.decode_encode (secrets v) b e utf8 in
      inr (
        u,
        is,
        In-each hidden (leaves [] u)
            (λ k s m. each-In hidden (leaves [] (secrets v)) k s (leaves-secrets v) (own k s m)),
      )

  redacted_bytes-IsHidden :
      (payload : Text) (o : Option Json)
      → codec.decode payload ≡ o
      → IsHidden codec (redacted_bytes codec payload o)
  unfolding redacted_bytes
  redacted_bytes-IsHidden payload none e = inl refl
  redacted_bytes-IsHidden payload (some v) e = chosen (deep_equal v (secrets v)) refl
    where
      chosen :
          (b : Bool)
          → deep_equal v (secrets v) ≡ b
          → IsHidden codec (if b then payload else bytes_of (codec.encode (secrets v)))
      chosen true h = inr (
        v,
        e,
        ap (λ u. each hidden (leaves [] u)) (deep_equal-eq v (secrets v) h) ∙ leaves-secrets v,
      )
      chosen false h =
          encoded-IsHidden v (codec.encode (secrets v)) (laws.decode_utf8 payload v e) refl

  pub redact_port_configuration-IsHidden :
      (payload : Text) → IsHidden codec (redact_port_configuration codec payload)
  unfolding redact_port_configuration ◌==◌
  redact_port_configuration-IsHidden [] = inl refl
  redact_port_configuration-IsHidden (c ∷ s) =
      redacted_bytes-IsHidden (c ∷ s) (codec.decode (c ∷ s)) refl

  -- Each configuration that a node's status publishes is empty, or the bytes of a value in which every
  -- string is empty, an expression or the marker, unless its field has no credential-shaped name. What
  -- the codec encodes, it is taken to decode to a value with no strings but those, by their names.
  pub port_statuses-AllHidden :
      {V : Type 0} (encodings : Encodings V) (ps : List (Port V))
      → AllHidden codec (port_statuses codec encodings ps)
  unfolding port_statuses
  port_statuses-AllHidden encodings [] = tt
  port_statuses-AllHidden {V} encodings (p ∷ ps) =
      (configuration_hidden p.configuration, port_statuses-AllHidden encodings ps)
    where
      configuration_hidden : (o : Option V) → IsHidden codec (configuration_of codec encodings o)
      configuration_hidden none = inl refl
      configuration_hidden (some v) =
          redact_port_configuration-IsHidden (bytes_of (encodings.marshal v))
