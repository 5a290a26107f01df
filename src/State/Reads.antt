-- ===== src/State/Reads.antt =====
-- What a component reads of its own writes.
use module_lib.Prelude.{
  ℕ, ◌-◌, ◌≤◌, ◌<◌, ◌≡◌, true, Option, none, some, [], ◌++◌, arith, Text, ◌==◌, eq_iff, eq_refl,
  ltb, if◌then◌else◌, inr,
}
use module_lib.Dict.{Dict, get-put, get-put_self}
use module_lib.State
use module_lib.State.{
  MetadataState, PendingEntry, Cache, metadata, Codec, Update, put_key, delete_key, apply, Read,
  absent, present, pending_at, put_pending, pending_ttl, guard_size, set, total, max_state_bytes,
  key_prefix, shadow, set_unless, grown, overlaid, or_empty, read_pending, emitted, read_cache,
}

pending_at-put_pending :
    (key j : Text) (v : Option Text) (now now' : ℕ) (s : MetadataState)
    → pending_at (put_pending key v now s) now' j ≡ (
        if key == j
        then (if ltb (now' - now) pending_ttl then some v else none)
        else pending_at s now' j)
unfolding pending_at put_pending
pending_at-put_pending key j v now now' s =
    ground (arith, get-put s.pending key j (record { value = v; added_at = now }), eq_iff key j)

module _ (codec : Codec) where
  get-put_pending :
      (cache : Cache) (key j : Text) (v : Option Text) (now now' : ℕ) (s : MetadataState)
      → State.get codec cache now' j (put_pending key v now s) ≡ (
          if key == j
          then (if ltb (now' - now) pending_ttl then read_pending v else read_cache codec cache j)
          else State.get codec cache now' j s)
  unfolding State.get
  get-put_pending cache key j v now now' s =
      ground (arith, pending_at-put_pending key j v now now' s)

  set_accepted :
      (cache : Cache) (now : ℕ) (key : Text) (v : Option Text) (s : MetadataState)
      → guard_size codec cache now key (codec.encode (or_empty v)) s ≡ none
      → set codec cache now key v s ≡ (
        none,
        put_pending key v now s,
        emitted (put_key (key_prefix ++ key) (codec.encode (or_empty v))) s,
      )
  unfolding set
  set_accepted cache now key v s h = rw h

  -- While its entry is fresh, a write that is accepted is what the component reads under its key,
  -- whatever the cache shows then, and reads of the other keys are as they were.
  pub get-set :
      (cache later : Cache) (now now' : ℕ) (key j v : Text) (s : MetadataState)
      → guard_size codec cache now key (codec.encode v) s ≡ none
      → now' - now < 5000
      → State.get codec later now' j (set codec cache now key (some v) s).1
        ≡ (if key == j then present v else State.get codec later now' j s)
  unfolding read_pending or_empty
  get-set cache later now now' key j v s h fresh =
      rw (set_accepted cache now key (some v) s h)
        (ground (arith, get-put_pending later key j (some v) now now' s))

  -- While its entry is fresh, a deletion hides its key, whatever the cache shows then, and reads of
  -- the other keys are as they were.
  pub get-delete_pending :
      (later : Cache) (now now' : ℕ) (key j : Text) (s : MetadataState)
      → now' - now < 5000
      → State.get codec later now' j (State.delete now key s).0
        ≡ (if key == j then absent else State.get codec later now' j s)
  unfolding State.delete read_pending
  get-delete_pending later now now' key j s fresh =
      ground (arith, get-put_pending later key j none now now' s)

  -- The metadata after the updater of a write.
  abbrev after_put : Text → Text → Dict Text → Dict Text
  after_put key v m = apply (put_key (key_prefix ++ key) (codec.encode v)) m

  read_cache-after_put :
      (key v : Text) (m : Dict Text)
      → codec.decode (codec.encode v) ≡ inr v
      → read_cache codec (metadata (after_put key v m)) key ≡ present v
  unfolding apply State.get
  read_cache-after_put key v m c =
      rw (get-put_self m (key_prefix ++ key) (codec.encode v), read_cache) (rw c)

  get-put_pending_self :
      (key : Text) (o : Option Text) (v : Text) (m : Dict Text) (now now' : ℕ) (s : MetadataState)
      → codec.decode (codec.encode v) ≡ inr v
      → State.get codec (metadata (after_put key v m)) now' key (put_pending key o now s)
        ≡ (if ltb (now' - now) pending_ttl then read_pending o else present v)
  get-put_pending_self key o v m now now' s c = ground (
    arith,
    get-put_pending (metadata (after_put key v m)) key key o now now' s,
    eq_refl key,
    read_cache-after_put key v m c,
  )

  emitted-some : (w u : Update) (s : MetadataState) → emitted w s ≡ some u → u ≡ w
  unfolding set
  emitted-some w u s e = ground arith

  -- Once the updater of an accepted write has been applied to the node, the component reads the
  -- written value under its key at any time, before and after its entry expires, if base64 decodes
  -- what it encoded.
  pub get-set_applied :
      (cache : Cache) (m : Dict Text) (now now' : ℕ) (key v : Text) (s : MetadataState) (u : Update)
      → codec.decode (codec.encode v) ≡ inr v
      → guard_size codec cache now key (codec.encode v) s ≡ none
      → (set codec cache now key (some v) s).2 ≡ some u
      → State.get codec (metadata (apply u m)) now' key (set codec cache now key (some v) s).1
        ≡ present v
  unfolding read_pending or_empty
  get-set_applied cache m now now' key v s u c h e =
      rw
        (
          emitted-some (put_key (key_prefix ++ key) (codec.encode v)) u s
              (rw (set_accepted cache now key (some v) s h) at e),
          set_accepted cache now key (some v) s h,
        )
        (ground (arith, get-put_pending_self key (some v) v m now now' s c))

  -- Where updaters are emitted, an accepted write of a nil slice reads as absent while its entry is
  -- fresh, but its updater stores an empty value: after that is applied and the entry has expired,
  -- the key is found again.
  pub get-set_nil :
      (cache : Cache) (m : Dict Text) (now now' now'' : ℕ) (key : Text) (s : MetadataState)
      → s.emits ≡ true
      → codec.decode (codec.encode []) ≡ inr []
      → guard_size codec cache now key (codec.encode []) s ≡ none
      → now' - now < 5000
      → 5000 ≤ now'' - now
      → let (_, s', u) = set codec cache now key none s in
        let applied = metadata (apply (put_key (key_prefix ++ key) (codec.encode [])) m) in
        (u ≡ some (put_key (key_prefix ++ key) (codec.encode [])))
        × (State.get codec applied now' key s' ≡ absent)
        × (State.get codec applied now'' key s' ≡ present [])
  unfolding read_pending or_empty set
  get-set_nil cache m now now' now'' key s em c h fresh old =
      rw (set_accepted cache now key none s h) (
        rw em,
        ground (arith, get-put_pending_self key none [] m now now' s c),
        ground (arith, get-put_pending_self key none [] m now now'' s c),
      )
