-- ===== src/State/Size.antt =====
-- The size cap.
use module_lib.Prelude.{
  ℕ, ◌+◌, ◌-◌, ◌*◌, ◌≤◌, ◌≡◌, refl, true, Option, none, some, [], ◌∷◌, ◌++◌, arith, Text, ◌==◌,
  eq_iff, length, ltb, if◌then◌else◌, starts_with, Bool-cases, inl, inr,
}
use module_lib.Prelude.Strings.{starts_with-append}
use module_lib.Dict
use module_lib.Dict.{Dict}
use module_lib.State.{
  MetadataState, Cache, metadata, Codec, Update, put_key, apply, pending_at, guard_size, set, total,
  max_state_bytes, key_prefix, grown, overlaid, or_empty, set_unless,
}

-- The length of a key that is not in the map.
abbrev new_key : Option Text → Text → ℕ
new_key none k = length k
new_key (some v) k = 0

total-put :
    (m : Dict Text) (k v : Text)
    → starts_with k key_prefix ≡ true
    → total (Dict.put m k v) + length (or_empty (Dict.get m k))
      ≡ total m + (length v + new_key (Dict.get m k) k)
unfolding total Dict.put Dict.get or_empty
total-put [] k v h = ground arith
total-put ((i, w) ∷ m) k v h = ground (arith, eq_iff i k, total-put m k v)

length-get :
    (m : Dict Text) (k : Text)
    → starts_with k key_prefix ≡ true
    → length (or_empty (Dict.get m k)) ≤ total m
unfolding total Dict.get or_empty
length-get [] k h = omega arith
length-get ((i, w) ∷ m) k h = ground (arith, eq_iff i k, length-get m k)

-- What an empty stored value adds, which guardSize takes for a missing key.
abbrev taken_new : Text → Text → ℕ
taken_new [] k = length k
taken_new (c ∷ s) k = 0

grown-lower :
    (k v existing : Text) (current : ℕ)
    → length existing ≤ current
    → current + length v + taken_new existing k ≤ grown k v (existing, current) + length existing
unfolding guard_size ◌==◌
grown-lower k v [] current h = omega arith
grown-lower k v (c ∷ s) current h = omega arith

taken_new-or_empty : (o : Option Text) (k : Text) → new_key o k ≤ taken_new (or_empty o) k
unfolding or_empty
taken_new-or_empty none k = omega arith
taken_new-or_empty (some v) k = omega arith

module _ (codec : Codec) where
  overlaid_pending :
      (p k v existing : Text) (current : ℕ)
      → length existing ≤ current
      → current + length v + taken_new existing k
        ≤ grown k v (overlaid codec (some (some p)) k current existing) + length existing
  unfolding guard_size ◌==◌
  overlaid_pending p k v existing current h = elim (Bool-cases (existing == codec.encode p)) [
    | inl same ↦ rw same (grown-lower k v existing current h)
    | inr other ↦ rw other (replaced existing (codec.encode p) current h)
  ]
    where
      replaced :
          (e n : Text) (c : ℕ)
          → length e ≤ c
          → c + length v + taken_new e k
            ≤ grown k v (
              n,
              if e == [] then (c + length n) - length e + length k else (c + length n) - length e,
            )
              + length e
      replaced [] [] c h = omega arith
      replaced [] (x ∷ n) c h = omega arith
      replaced (y ∷ e) [] c h = omega arith
      replaced (y ∷ e) (x ∷ n) c h = omega arith

  grown-overlaid :
      (o : Option (Option Text)) (k v existing : Text) (current : ℕ)
      → length existing ≤ current
      → current + length v + taken_new existing k
        ≤ grown k v (overlaid codec o k current existing) + length existing
  unfolding guard_size
  grown-overlaid none k v existing current h = grown-lower k v existing current h
  grown-overlaid (some none) k v existing current h = grown-lower k v existing current h
  grown-overlaid (some (some p)) k v existing current h = overlaid_pending p k v existing current h

  -- The total that guardSize compares with the cap is at least the size after the write.
  total-guard_size :
      (m : Dict Text) (now : ℕ) (key v : Text) (s : MetadataState)
      → guard_size codec (metadata m) now key v s ≡ none
      → total (Dict.put m (key_prefix ++ key) v) ≤ 900 * 1024
  unfolding guard_size
  total-guard_size m now key v s h =
      let k = key_prefix ++ key in
      let old = Dict.get m k in
      let fits = starts_with-append key_prefix key in
      omega (
        arith,
        total-put m k v fits,
        length-get m k fits,
        taken_new-or_empty old k,
        grown-overlaid (pending_at s now key) k v (or_empty old) (total m) (length-get m k fits),
        below (grown k v (overlaid codec (pending_at s now key) k (total m) (or_empty old))) h,
      )
    where
      below : (n : ℕ) → (if ltb max_state_bytes n then some n else none) ≡ none → n ≤ 900 * 1024
      below n h = ground arith

  set-split :
      (cache : Cache) (now : ℕ) (key : Text) (value : Option Text) (s : MetadataState) (u : Update)
      → (set codec cache now key value s).0 ≡ none
      → (set codec cache now key value s).2 ≡ some u
      → (guard_size codec cache now key (codec.encode (or_empty value)) s ≡ none)
        × (u ≡ put_key (key_prefix ++ key) (codec.encode (or_empty value)))
  unfolding set
  set-split cache now key value s u h e =
      split (guard_size codec cache now key (codec.encode (or_empty value)) s) h e
    where
      split :
          (g : Option ℕ)
          → (set_unless codec g key value now s).0 ≡ none
          → (set_unless codec g key value now s).2 ≡ some u
          → (g ≡ none) × (u ≡ put_key (key_prefix ++ key) (codec.encode (or_empty value)))
      split none h e = (refl, ground arith)
      split (some n) h e = cc

  -- Where a write is accepted on a cache that can be read, the node's state entries are within the
  -- cap after the emitted updater is applied to what the cache showed, whatever writes of the same
  -- key are still pending.
  pub total-set :
      (m : Dict Text) (now : ℕ) (key : Text) (value : Option Text) (s : MetadataState) (u : Update)
      → (set codec (metadata m) now key value s).0 ≡ none
      → (set codec (metadata m) now key value s).2 ≡ some u
      → total (apply u m) ≤ 900 * 1024
  unfolding apply
  total-set m now key value s u h e =
      let (g, p) = set-split (metadata m) now key value s u h e in
      rw p (total-guard_size m now key (codec.encode (or_empty value)) s g)
