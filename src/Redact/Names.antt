-- ===== src/Redact/Names.antt =====
-- Redaction by the names that a schema declares.
use module_lib.Prelude.{
  ◌≡◌, refl, ◌∙◌, ap, sym, ◌⊎◌, inl, inr, Bool, true, false, not, ◌||◌, some, List, [], ◌∷◌, arith,
  Text, codes, ◌==◌, eq_iff, eq_refl, any, any-append, if◌then◌else◌, Bool-cases,
}
use module_lib.Json.{
  Json, Items, Fields, null, bool, number, text, array, object, nil, item, end, field, at,
  as_object,
}
use module_lib.Redact.{
  value_marker, is_expression, names_key, changed_text, by_name_at, by_name_items, by_name_fields,
  by_name, only_changed, declares_secret, declared_in, own_names, collect_names, collect_items,
  collect_fields, authored_secret_names, with_child, kept_or,
}
use module_lib.Redact.Leaves.{each, each-map_leaves, leaves, map_leaves, map_items, map_fields}

-- A string under a named field is marked, unless it is empty or an expression.
abbrev pub marked : List Text → Text → Text → Text
marked names k s = if not (names_key names k) || s == [] || is_expression s then s else value_marker

-- The result is the new value and, where it says that nothing changed, the new value is the old.
abbrev Agrees {ℓ} : {A : Type ℓ} → A × Bool → A → A → Type ℓ
Agrees (x, true) old new = x ≡ new
Agrees (x, false) old new = (x ≡ old) × (old ≡ new)

changed_text-Agrees :
    (names : List Text) (k s : Text)
    → Agrees (changed_text names k s) (text s) (text (marked names k s))
changed_text-Agrees names k s = ground arith

with_child-Agrees :
    {A : Type 0} {B : Type 0} (put : A → B → B) (a a' : A) (b b' : B) (x : A × Bool) (y : B × Bool)
    → Agrees x a a'
    → Agrees y b b'
    → Agrees (with_child put a b x y) (put a b) (put a' b')
with_child-Agrees put a a' b b' (x, true) (y, true) h k = cc
with_child-Agrees put a a' b b' (x, true) (y, false) h k = cc
with_child-Agrees put a a' b b' (x, false) (y, true) h k = cc
with_child-Agrees put a a' b b' (x, false) (y, false) h k = (cc, cc)

kept_or-Agrees :
    {A : Type 0} (wrap : A → Json) (a a' : A) (x : A × Bool)
    → Agrees x a a'
    → Agrees (kept_or a x wrap) (wrap a) (wrap a')
kept_or-Agrees wrap a a' (x, true) h = cc
kept_or-Agrees wrap a a' (x, false) h = (cc, cc)

mutual
  unfolding by_name_at map_leaves

  by_name_at-Agrees :
      (names : List Text) (key : Text) (v : Json)
      → Agrees (by_name_at names key v) v (map_leaves (marked names) key v)
  by_name_at-Agrees names key null = (refl, refl)
  by_name_at-Agrees names key (bool b) = (refl, refl)
  by_name_at-Agrees names key (number n) = (refl, refl)
  by_name_at-Agrees names key (text s) = changed_text-Agrees names key s
  by_name_at-Agrees names key (array xs) =
      kept_or-Agrees array xs (map_items (marked names) key xs) (by_name_items names key xs)
        (by_name_items-Agrees names key xs)
  by_name_at-Agrees names key (object m) =
      kept_or-Agrees object m (map_fields (marked names) m) (by_name_fields names m)
        (by_name_fields-Agrees names m)

  by_name_items-Agrees :
      (names : List Text) (key : Text) (xs : Items)
      → Agrees (by_name_items names key xs) xs (map_items (marked names) key xs)
  by_name_items-Agrees names key nil = (refl, refl)
  by_name_items-Agrees names key (item v xs) =
      with_child-Agrees item v _ xs _ (by_name_at names key v) (by_name_items names key xs)
        (by_name_at-Agrees names key v) (by_name_items-Agrees names key xs)

  by_name_fields-Agrees :
      (names : List Text) (m : Fields)
      → Agrees (by_name_fields names m) m (map_fields (marked names) m)
  by_name_fields-Agrees names end = (refl, refl)
  by_name_fields-Agrees names (field k v m) =
      with_child-Agrees (field k) v _ m _ (by_name_at names k v) (by_name_fields names m)
        (by_name_at-Agrees names k v) (by_name_fields-Agrees names m)

mutual
  unfolding map_leaves

  map_leaves_none : (key : Text) (v : Json) → map_leaves (marked []) key v ≡ v
  map_leaves_none key null = refl
  map_leaves_none key (bool b) = refl
  map_leaves_none key (number n) = refl
  map_leaves_none key (text s) = refl
  map_leaves_none key (array xs) = ap array (map_items_none key xs)
  map_leaves_none key (object m) = ap object (map_fields_none m)

  map_items_none : (key : Text) (xs : Items) → map_items (marked []) key xs ≡ xs
  map_items_none key nil = refl
  map_items_none key (item v xs) = cc (map_leaves_none key v, map_items_none key xs)

  map_fields_none : (m : Fields) → map_fields (marked []) m ≡ m
  map_fields_none end = refl
  map_fields_none (field k v m) = cc (map_leaves_none k v, map_fields_none m)

-- Redaction by names, which copies a container at its first change, marks exactly the strings that
-- stand under one of the names and are neither empty nor expressions; and where it reports no
-- change, it returns the payload it was given.
pub by_name-map_leaves :
    (v : Json) (names : List Text)
    → ((by_name v names).0 ≡ map_leaves (marked names) [] v)
      × (((by_name v names).1 ≡ true) ⊎ ((by_name v names).0 ≡ v))
unfolding by_name
by_name-map_leaves v [] = (sym (map_leaves_none [] v), inr refl)
by_name-map_leaves null (n ∷ ns) = (unfold map_leaves in refl, inr refl)
by_name-map_leaves v (n ∷ ns) = finish (by_name_at (n ∷ ns) [] v) (by_name_at-Agrees (n ∷ ns) [] v)
  where
    finish :
        (x : Json × Bool)
        → Agrees x v (map_leaves (marked (n ∷ ns)) [] v)
        → ((only_changed v x).0 ≡ map_leaves (marked (n ∷ ns)) [] v)
          × (((only_changed v x).1 ≡ true) ⊎ ((only_changed v x).0 ≡ v))
    finish (x, true) h = (h, inl refl)
    finish (x, false) h = (h.1, inr refl)

-- An entry of an object, and an object anywhere in a value.
pub data Entry (k : Text) (v : Json) : Fields → Type 0 where
  first : {m : Fields} → Entry k v (field k v m)
  later : {m : Fields} (j : Text) (w : Json) → Entry k v m → Entry k v (field j w m)

pub data Among (v : Json) : Items → Type 0 where
  first : {xs : Items} → Among v (item v xs)
  later : {xs : Items} (w : Json) → Among v xs → Among v (item w xs)

pub data Under (m : Fields) : Json → Type 0 where
  here : Under m (object m)
  in_array : {v : Json} {xs : Items} → Among v xs → Under m v → Under m (array xs)
  in_object : {v : Json} {fs : Fields} (k : Text) → Entry k v fs → Under m v → Under m (object fs)

-- Somewhere in the schema an object has `properties`, an object too, in which a definition of this
-- name declares a secret.
unfoldable pub Declares : Text → Json → Type 0
Declares n doc =
    (m : Fields) × (props : Fields) × (def : Fields) × Under m doc
    × (at m (codes "properties") ≡ object props)
    × Entry n (object def) props
    × (declares_secret def ≡ true)

declared_later :
    (n j : Text) (w : Json) (props : Fields)
    → any (λ k. k == n) (declared_in props) ≡ true
    → any (λ k. k == n) (declared_in (field j w props)) ≡ true
unfolding declared_in
declared_later n j null props h = h
declared_later n j (bool b) props h = h
declared_later n j (number t) props h = h
declared_later n j (text t) props h = h
declared_later n j (array xs) props h = h
declared_later n j (object def) props h = ground arith

Entry-declared :
    (n : Text) (def props : Fields)
    → Entry n (object def) props
    → declares_secret def ≡ true
    → any (λ k. k == n) (declared_in props) ≡ true
unfolding declared_in
Entry-declared n def _ first h = ground (arith, eq_refl n)
Entry-declared n def (field j w m) (later _ _ e) h =
    declared_later n j w m (Entry-declared n def m e h)

Among-collected :
    (n : Text) (v : Json) (xs : Items)
    → Among v xs
    → any (λ k. k == n) (collect_names v) ≡ true
    → any (λ k. k == n) (collect_items xs) ≡ true
unfolding collect_names
Among-collected n v nil e h = elim e [ ]
Among-collected n v (item _ xs) first h =
    any-append (λ k. k == n) (collect_names v) (collect_items xs) ∙ ground arith
Among-collected n v (item w xs) (later _ a) h =
    any-append (λ k. k == n) (collect_names w) (collect_items xs)
    ∙ ground (arith, Among-collected n v xs a h)

Entry-collected :
    (n k : Text) (v : Json) (fs : Fields)
    → Entry k v fs
    → any (λ j. j == n) (collect_names v) ≡ true
    → any (λ j. j == n) (collect_fields fs) ≡ true
unfolding collect_names
Entry-collected n k v end e h = elim e [ ]
Entry-collected n k v (field _ _ fs) first h =
    any-append (λ k. k == n) (collect_names v) (collect_fields fs) ∙ ground arith
Entry-collected n k v (field j w fs) (later _ _ e) h =
    any-append (λ k. k == n) (collect_names w) (collect_fields fs)
    ∙ ground (arith, Entry-collected n k v fs e h)

Under-collected :
    (n : Text) (m : Fields) (doc : Json)
    → Under m doc
    → any (λ k. k == n) (own_names (as_object (at m (codes "properties")))) ≡ true
    → any (λ k. k == n) (collect_names doc) ≡ true
unfolding collect_names
Under-collected n m null u h = elim u [ ]
Under-collected n m (bool _) u h = elim u [ ]
Under-collected n m (number _) u h = elim u [ ]
Under-collected n m (text _) u h = elim u [ ]
Under-collected n m (object _) here h =
    any-append (λ k. k == n) (own_names (as_object (at m (codes "properties")))) (collect_fields m)
    ∙ ground arith
Under-collected n m (array xs) (in_array {v} a u) h =
    Among-collected n v xs a (Under-collected n m v u h)
Under-collected n m (object fs) (in_object {v} k e u) h =
    any-append (λ k. k == n) (own_names (as_object (at fs (codes "properties"))))
      (collect_fields fs)
    ∙ ground (arith, Entry-collected n k v fs e (Under-collected n m v u h))

-- Every name that the schema declares as a secret is collected: wherever in the document an object
-- stands whose `properties` hold a definition of that name that declares a secret.
pub authored_secret_names-Declares :
    (doc : Json) (n : Text)
    → Declares n doc
    → any (λ k. k == n) (authored_secret_names (some doc)) ≡ true
unfolding authored_secret_names Declares
authored_secret_names-Declares doc n (m, props, def, u, e, entry, h) =
    Under-collected n m doc u (rw e (Entry-declared n def props entry h))

-- The string is not under this name, or there is nothing to hide in it.
abbrev pub masked : Text → Text → Text → Bool
masked n k s = s == [] || is_expression s || s == value_marker || not (k == n)

masked-marked :
    (names : List Text) (n : Text)
    → any (λ k. k == n) names ≡ true
    → (k s : Text) → masked n k (marked names k s) ≡ true
masked-marked names n h k s = elim (Bool-cases (k == n)) [
  | inl same ↦ by_name_of k ((eq_iff k n).0 same)
  | inr other ↦ ground arith
]
  where
    by_name_of : (k : Text) → k ≡ n → masked n k (marked names k s) ≡ true
    by_name_of k e = rw e (ground (arith, eq_iff value_marker value_marker, eq_iff s value_marker))

-- What a schema declares as a secret does not survive redaction by its names: where a definition
-- of this name anywhere in the schema declares a secret, every string under the name in the
-- redacted payload, at any depth, is empty, an expression or the marker.
pub leaves-by_name :
    (v doc : Json) (n : Text)
    → Declares n doc
    → each (masked n) (leaves [] (by_name v (authored_secret_names (some doc))).0) ≡ true
leaves-by_name v doc n d =
    let names = authored_secret_names (some doc) in
    ap (λ w. each (masked n) (leaves [] w)) (by_name-map_leaves v names).0
    ∙ each-map_leaves (masked n) (marked names)
        (masked-marked names n (authored_secret_names-Declares doc n d)) [] v
