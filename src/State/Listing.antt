-- ===== src/State/Listing.antt =====
-- Listing agrees with reading.
use module_lib.Prelude.{
  ℕ, ◌≡◌, refl, ◌∙◌, Bool, true, false, ◌&&◌, ◌||◌, Option, none, some, List, [], ◌∷◌, ◌++◌, arith,
  Text, ◌==◌, eq_iff, if◌then◌else◌, starts_with, any, inr, ap, sym, append_assoc,
}
use module_lib.Prelude.Strings.{
  starts_with-split, starts_with-append, drop_prefix, drop_prefix-append,
}
use mathlib.Core.Path.{subst}
use module_lib.Dict
use module_lib.Dict.{Dict, NodupKeys, has-put, has-delete, any-keys, has-get}
use module_lib.State
use module_lib.State.{
  MetadataState, PendingEntry, Cache, metadata, Codec, Read, absent, present, undecodable, unread,
  pending_at, key_prefix, shadow, cached_keys, overlay_key, overlay_keys, insert, sort, text_leb,
  read_cache, read_pending,
}

any-insert :
    (k j : Text) (js : List Text)
    → any (λ i. i == k) (insert j js) ≡ (j == k || any (λ i. i == k) js)
unfolding sort
any-insert k j [] = refl
any-insert k j (i ∷ is) = ground (arith, any-insert k j is)

any-sort : (k : Text) (ks : List Text) → any (λ i. i == k) (sort ks) ≡ any (λ i. i == k) ks
unfolding sort
any-sort k [] = refl
any-sort k (j ∷ js) = ground (arith, any-insert k j (sort js), any-sort k js)

-- What the pending overlay makes of a key.
abbrev shown : Option (Option Text) → Bool → Bool
shown none b = b
shown (some none) b = false
shown (some (some v)) b = true

has-overlay_key :
    (j k : Text) (o : Option (Option Text)) (found : Dict Bool)
    → Dict.has (overlay_key j o found) k
      ≡ (if j == k then shown o (Dict.has found k) else Dict.has found k)
unfolding State.list
has-overlay_key j k none found = ground arith
has-overlay_key j k (some none) found = ground (arith, has-delete found j k)
has-overlay_key j k (some (some v)) found = ground (arith, has-put found j k true)

get-missing : (m : Dict PendingEntry) (k : Text) → Dict.has m k ≡ false → Dict.get m k ≡ none
unfolding Dict.has Dict.get
get-missing [] k h = refl
get-missing ((j, e) ∷ m) k h = ground (arith, get-missing m k)

has-overlay_keys :
    (prefix : Text) (now : ℕ) (pending : Dict PendingEntry) (found : Dict Bool) (k : Text)
    → NodupKeys pending
    → Dict.has (overlay_keys prefix now pending found) k ≡ (
        if starts_with k prefix
        then shown (shadow (Dict.get pending k) now) (Dict.has found k)
        else Dict.has found k)
unfolding State.list Dict.get pending_at Dict.has
has-overlay_keys prefix now [] found k u = ground arith
has-overlay_keys prefix now ((j, e) ∷ pending) found k u = ground (
  arith,
  eq_iff j k,
  has-overlay_keys prefix now pending found k,
  has-overlay_keys prefix now pending (overlay_key j (shadow (some e) now) found) k,
  has-overlay_key j k (shadow (some e) now) found,
  get-missing pending k,
)

starts_with-append_both : (p s t : Text) → starts_with (p ++ s) (p ++ t) ≡ starts_with s t
unfolding starts_with
starts_with-append_both [] s t = refl
starts_with-append_both (x ∷ p) s t = ground (arith, starts_with-append_both p s t)

==-append : (p s t : Text) → ((p ++ s) == (p ++ t)) ≡ (s == t)
unfolding ◌==◌
==-append [] s t = refl
==-append (x ∷ p) s t = ground (arith, ==-append p s t)

prefixed_key :
    (p prefix rest k : Text)
    → (drop_prefix p (p ++ (prefix ++ rest)) == k)
      ≡ (starts_with k prefix && ((p ++ (prefix ++ rest)) == (p ++ k)))
prefixed_key p prefix rest k =
    rw (drop_prefix-append p (prefix ++ rest), ==-append p (prefix ++ rest) k)
      (same (prefix ++ rest) (starts_with-append prefix rest))
  where
    same : (x : Text) → starts_with x prefix ≡ true → (x == k) ≡ (starts_with k prefix && x == k)
    same x h = ground (arith, eq_iff x k)

-- A key of the metadata under the prefix, and the key that is listed for it.
cached_key :
    (i prefix k : Text)
    → starts_with i (key_prefix ++ prefix) ≡ true
    → (drop_prefix key_prefix i == k) ≡ (starts_with k prefix && i == key_prefix ++ k)
cached_key i prefix k h =
    let rest = drop_prefix (key_prefix ++ prefix) i in
    subst (λ j. (drop_prefix key_prefix j == k) ≡ (starts_with k prefix && j == key_prefix ++ k))
      (sym (starts_with-split i (key_prefix ++ prefix) h ∙ append_assoc key_prefix prefix rest))
      (prefixed_key key_prefix prefix rest k)

uncached_key :
    (i prefix k : Text)
    → starts_with i (key_prefix ++ prefix) ≡ false
    → (starts_with k prefix && i == key_prefix ++ k) ≡ false
uncached_key i prefix k h =
    ground (arith, eq_iff i (key_prefix ++ k), starts_with-append_both key_prefix k prefix)

has-cached_keys :
    (prefix : Text) (m : Dict Text) (found : Dict Bool) (k : Text)
    → Dict.has (cached_keys prefix m found) k
      ≡ ((starts_with k prefix && Dict.has m (key_prefix ++ k)) || Dict.has found k)
unfolding State.list Dict.has
has-cached_keys prefix [] found k = ground arith
has-cached_keys prefix ((i, v) ∷ m) found k = ground (
  arith,
  cached_key i prefix k,
  uncached_key i prefix k,
  has-put found (drop_prefix key_prefix i) k true,
  has-cached_keys prefix m found k,
  has-cached_keys prefix m (Dict.put found (drop_prefix key_prefix i) true) k,
)

-- Whether Get says that the key was found.
abbrev pub is_found : Read → Bool
is_found absent = false
is_found (present v) = true
is_found (undecodable e) = true
is_found (unread e) = false

found_get :
    (codec : Codec) (m : Dict Text) (now : ℕ) (k : Text) (s : MetadataState)
    → is_found (State.get codec (metadata m) now k s)
      ≡ shown (pending_at s now k) (Dict.has m (key_prefix ++ k))
unfolding State.get
found_get codec m now k s = ground (arith, has-get m (key_prefix ++ k))

listed_keys :
    (codec : Codec) (m : Dict Text) (now : ℕ) (prefix k : Text) (s : MetadataState)
    → NodupKeys s.pending
    → Dict.has (overlay_keys prefix now s.pending (cached_keys prefix m [])) k
      ≡ (starts_with k prefix && is_found (State.get codec (metadata m) now k s))
unfolding pending_at Dict.has
listed_keys codec m now prefix k s u =
    has-overlay_keys prefix now s.pending (cached_keys prefix m []) k u
    ∙ rw (found_get codec m now k s, has-cached_keys prefix m [] k)
        (by_overlay (starts_with k prefix) (Dict.has m (key_prefix ++ k))
          (shadow (Dict.get s.pending k) now))
  where
    by_overlay :
        (b c : Bool) (o : Option (Option Text))
        → (if b then shown o ((b && c) || false) else ((b && c) || false)) ≡ (b && shown o c)
    by_overlay b c none = ground arith
    by_overlay b c (some none) = ground arith
    by_overlay b c (some (some v)) = ground arith

-- Where the pending map has no key twice and the cache can be read, List gives exactly the keys with
-- the prefix that Get finds, on the same cache and at the same time: fresh writes are listed and
-- fresh deletions are not.
pub list-get :
    (codec : Codec) (m : Dict Text) (now : ℕ) (prefix k : Text) (ks : List Text) (s : MetadataState)
    → NodupKeys s.pending
    → State.list (metadata m) now prefix s ≡ inr ks
    → any (λ j. j == k) ks
      ≡ (starts_with k prefix && is_found (State.get codec (metadata m) now k s))
unfolding State.list
list-get codec m now prefix k ks s u h =
    ap (λ l. any (λ j. j == k) l) (listed_as h)
    ∙ any-sort k _
    ∙ any-keys (overlay_keys prefix now s.pending (cached_keys prefix m [])) k
    ∙ listed_keys codec m now prefix k s u
  where
    listed_as :
        State.list (metadata m) now prefix s ≡ inr ks
        → ks ≡ sort (Dict.keys (overlay_keys prefix now s.pending (cached_keys prefix m [])))
    listed_as h = cc
