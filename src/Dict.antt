-- ===== src/Dict.antt =====
-- Go maps with string keys, as association lists. `put` writes in place or at the end, so keys
-- stay unique; a loop over a map is a loop over the list, in whatever order it stands.
use module_lib.Prelude.{
  ◌≡◌, refl, ◌≢◌, ◌↔◌, Bool, true, false, not, ◌&&◌, Option, none, some, List, [], ◌∷◌, arith, Text,
  ◌==◌, eq_iff, eq_refl, if◌then◌else◌, any, ◌||◌,
}

abbrev pub Dict {ℓ} : Type ℓ → Type ℓ
Dict V = List (Text × V)

module _ {ℓ} {V : Type ℓ} where
  -- m[k], with the `ok` of the two-value form
  unfoldable pub get : Dict V → Text → Option V
  get [] k = none
  get ((j, v) ∷ m) k = if j == k then some v else get m k

  -- m[k] = v
  unfoldable pub put : Dict V → Text → V → Dict V
  put [] k v = (k, v) ∷ []
  put ((j, w) ∷ m) k v = if j == k then (k, v) ∷ m else (j, w) ∷ put m k v

  -- delete(m, k)
  unfoldable pub delete : Dict V → Text → Dict V
  delete [] k = []
  delete ((j, v) ∷ m) k = let rest = delete m k in if j == k then rest else (j, v) ∷ rest

  unfoldable pub keys : Dict V → List Text
  keys [] = []
  keys ((j, v) ∷ m) = j ∷ keys m

  unfoldable pub has : Dict V → Text → Bool
  has [] k = false
  has ((j, v) ∷ m) k = j == k || has m k

  pub get-put :
      (m : Dict V) (k j : Text) (v : V) → get (put m k v) j ≡ (if k == j then some v else get m j)
  unfolding get put
  get-put [] k j v = refl
  get-put ((i, w) ∷ m) k j v = ground (arith, eq_iff i k, eq_iff k j, eq_iff i j, get-put m k j v)

  pub get-delete :
      (m : Dict V) (k j : Text) → get (delete m k) j ≡ (if k == j then none else get m j)
  unfolding get delete
  get-delete [] k j = ground arith
  get-delete ((i, w) ∷ m) k j = ground (arith, eq_iff i k, eq_iff k j, eq_iff i j, get-delete m k j)

  pub get-put_self : (m : Dict V) (k : Text) (v : V) → get (put m k v) k ≡ some v
  get-put_self m k v = ground (arith, get-put m k k v, eq_refl k)

  pub has-get : (m : Dict V) (k : Text) → (has m k ≡ true) ↔ (get m k ≢ none)
  unfolding has get
  has-get [] k = ground arith
  has-get ((j, v) ∷ m) k = ground (arith, has-get m k)

  pub any-keys : (m : Dict V) (k : Text) → any (λ j. j == k) (keys m) ≡ has m k
  unfolding keys has
  any-keys [] k = refl
  any-keys ((j, v) ∷ m) k = ground (arith, any-keys m k)

  -- No key is listed twice.
  abbrev pub NodupKeys : Dict V → Type 0
  NodupKeys [] = Unit
  NodupKeys ((j, v) ∷ m) = (has m j ≡ false) × NodupKeys m

  pub has-put : (m : Dict V) (k j : Text) (v : V) → has (put m k v) j ≡ (k == j || has m j)
  unfolding has put
  has-put [] k j v = refl
  has-put ((i, w) ∷ m) k j v = ground (arith, eq_iff i k, eq_iff k j, eq_iff i j, has-put m k j v)

  pub put-NodupKeys : (m : Dict V) (k : Text) (v : V) → NodupKeys m → NodupKeys (put m k v)
  unfolding put has
  put-NodupKeys [] k v u = (refl, tt)
  put-NodupKeys ((i, w) ∷ m) k v u =
      ground (arith, eq_iff i k, eq_iff k i, has-put m k i v, put-NodupKeys m k v)

  pub has-delete : (m : Dict V) (k j : Text) → has (delete m k) j ≡ (not (k == j) && has m j)
  unfolding delete has
  has-delete [] k j = ground arith
  has-delete ((i, w) ∷ m) k j = ground (arith, eq_iff i k, eq_iff k j, eq_iff i j, has-delete m k j)
