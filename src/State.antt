-- ===== src/State.antt =====
-- Component state in the node's metadata: pkg/state/metadata.go. The controller's cache, which a call
-- reads, and the clock are arguments; base64 is an interface. A nil byte slice is `none`.
pub mod Reads
pub mod Size
pub mod Listing
use Prim.Native.Nat.{◌^◌}
use module_lib.Prelude.{
  ℕ, ◌+◌, ◌-◌, ◌*◌, Bool, true, false, Option, none, some, List, [], ◌∷◌, ◌++◌, Text, codes, ◌==◌,
  length, ltb, if◌then◌else◌, starts_with,
}
use module_lib.Prelude.Strings.{drop_prefix}
use module_lib.Dict
use module_lib.Dict.{Dict}
use module_lib.Prelude.{◌⊎◌, inl, inr}
use module_lib.Errors.{Err}

abbrev pub max_state_bytes : ℕ
max_state_bytes = 900 * 1024

abbrev pub key_prefix : Text
key_prefix = codes "_state/"

abbrev pub pending_ttl : ℕ
pending_ttl = 5000

-- A write that the watch may not have shown yet; no value is a tombstone.
pub record PendingEntry : Type 0 where
  pub value : Option Text
  pub added_at : ℕ

pub record MetadataState : Type 0 where
  pub pending : Dict PendingEntry
  -- m.emit is not nil
  pub emits : Bool

-- What m.reader gives for the node: there is none, an error, or its Status.Metadata.
pub data Cache : Type 0 where
  no_reader : Cache
  unreadable : Err → Cache
  metadata : Dict Text → Cache

pub record Codec : Type 0 where
  pub encode : Text → Text
  pub decode : Text → Err ⊎ Text

-- The updaters that Set and Delete emit, and what they do to a node's metadata.
pub data Update : Type 0 where
  put_key : Text → Text → Update
  delete_key : Text → Update

unfoldable pub apply : Update → Dict Text → Dict Text
apply (put_key k v) m = Dict.put m k v
apply (delete_key k) m = Dict.delete m k

-- Get's (value, found, error)
pub data Read : Type 0 where
  absent : Read
  present : Text → Read
  undecodable : Err → Read
  unread : Err → Read

-- The pending entry that shadows the cache.
shadow : Option PendingEntry → ℕ → Option (Option Text)
shadow none now = none
shadow (some e) now = if ltb (now - e.added_at) pending_ttl then some e.value else none

unfoldable pub pending_at : MetadataState → ℕ → Text → Option (Option Text)
unfolding shadow
pending_at s now key = shadow (Dict.get s.pending key) now

read_pending : Option Text → Read
read_pending none = absent
read_pending (some v) = present v

-- The sizes of the state's entries, in the loop of guardSize.
unfoldable pub total : Dict Text → ℕ
total [] = 0
total ((k, v) ∷ m) =
    let rest = total m in if starts_with k key_prefix then length k + length v + rest else rest

or_empty : Option Text → Text
or_empty none = []
or_empty (some v) = v

unfoldable pub put_pending : Text → Option Text → ℕ → MetadataState → MetadataState
put_pending key value now s = record s {
  pending = Dict.put s.pending key (record { value = value; added_at = now });
}

emitted : Update → MetadataState → Option Update
emitted u s = if s.emits then some u else none

unfoldable pub delete : ℕ → Text → MetadataState → MetadataState × Option Update
unfolding put_pending emitted
delete now key s = (put_pending key none now s, emitted (delete_key (key_prefix ++ key)) s)

-- current + delta
grown : Text → Text → Text × ℕ → ℕ
grown full_key new (existing, current) =
    if existing == []
    then current + (length full_key + length new)
    else (current + length new) - length existing

module _ (codec : Codec) where
  decoded : Err ⊎ Text → Read
  decoded (inl e) = undecodable e
  decoded (inr v) = present v

  read_cache : Cache → Text → Read
  read_cache no_reader key = absent
  read_cache (unreadable e) key = unread e
  read_cache (metadata m) key = elim (Dict.get m (key_prefix ++ key)) [
    | none ↦ absent
    | some v ↦ decoded (codec.decode v)
  ]

  unfoldable pub get : Cache → ℕ → Text → MetadataState → Read
  unfolding pending_at read_pending decoded read_cache
  get cache now key s = elim (pending_at s now key) [
    | some v ↦ read_pending v
    | none ↦ read_cache cache key
  ]

  -- existingValue and current, after the pending overlay is accounted for
  overlaid : Option (Option Text) → Text → ℕ → Text → Text × ℕ
  overlaid none full_key current existing = (existing, current)
  overlaid (some none) full_key current existing = (existing, current)
  overlaid (some (some v)) full_key current existing =
      let pending = codec.encode v in
      let replaced = (current + length pending) - length existing in
      if existing == pending
      then (existing, current)
      else (pending, if existing == [] then replaced + length full_key else replaced)

  -- `some` of the total where the write is rejected with ErrStateTooLarge
  unfoldable pub guard_size : Cache → ℕ → Text → Text → MetadataState → Option ℕ
  unfolding overlaid grown total or_empty pending_at
  guard_size no_reader now key new s = none
  guard_size (unreadable e) now key new s = none
  guard_size (metadata m) now key new s =
      let full_key = key_prefix ++ key in
      let size =
        grown full_key new
          (overlaid (pending_at s now key) full_key (total m) (or_empty (Dict.get m full_key))) in
      if ltb max_state_bytes size then some size else none

  set_unless :
      Option ℕ → Text → Option Text → ℕ → MetadataState → Option ℕ × MetadataState × Option Update
  set_unless (some size) key value now s = (some size, s, none)
  set_unless none key value now s = (
    none,
    put_pending key value now s,
    emitted (put_key (key_prefix ++ key) (codec.encode (or_empty value))) s,
  )

  -- The rejected total, if any; the state; and the updater that is emitted.
  unfoldable pub set :
      Cache → ℕ → Text → Option Text → MetadataState → Option ℕ × MetadataState × Option Update
  unfolding set_unless put_pending emitted or_empty guard_size
  set cache now key value s =
      set_unless (guard_size cache now key (codec.encode (or_empty value)) s) key value now s

-- The loops of List over the map `keys`, before it is sorted.
cached_keys : Text → Dict Text → Dict Bool → Dict Bool
cached_keys prefix [] found = found
cached_keys prefix ((k, v) ∷ m) found =
    let skipped = cached_keys prefix m found in
    let added = cached_keys prefix m (Dict.put found (drop_prefix key_prefix k) true) in
    if starts_with k (key_prefix ++ prefix) then added else skipped

overlay_key : Text → Option (Option Text) → Dict Bool → Dict Bool
overlay_key k none found = found
overlay_key k (some none) found = Dict.delete found k
overlay_key k (some (some v)) found = Dict.put found k true

overlay_keys : Text → ℕ → Dict PendingEntry → Dict Bool → Dict Bool
unfolding overlay_key shadow
overlay_keys prefix now [] found = found
overlay_keys prefix now ((k, e) ∷ pending) found =
    let skipped = overlay_keys prefix now pending found in
    let shown = overlay_keys prefix now pending (overlay_key k (shadow (some e) now) found) in
    if starts_with k prefix then shown else skipped

-- sort.Strings: byte order
text_leb : Text → Text → Bool
text_leb [] t = true
text_leb (a ∷ s) [] = false
text_leb (a ∷ s) (b ∷ t) = if ltb a b then true else if ltb b a then false else text_leb s t

insert : Text → List Text → List Text
unfolding text_leb
insert k [] = k ∷ []
insert k (j ∷ js) = let later = insert k js in if text_leb k j then k ∷ j ∷ js else j ∷ later

unfoldable pub sort : List Text → List Text
unfolding insert
sort [] = []
sort (k ∷ ks) = insert k (sort ks)

-- `inl` is the reader's error.
unfoldable pub list : Cache → ℕ → Text → MetadataState → Err ⊎ List Text
unfolding cached_keys overlay_keys sort
list no_reader now prefix s = inr (sort (Dict.keys (overlay_keys prefix now s.pending [])))
list (unreadable e) now prefix s = inl e
list (metadata m) now prefix s =
    inr (sort (Dict.keys (overlay_keys prefix now s.pending (cached_keys prefix m []))))
