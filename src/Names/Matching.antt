-- ===== src/Names/Matching.antt =====
-- Which names identify the same module.
use module_lib.Prelude.{
  ◌≡◌, ◌≢◌, ◌↔◌, ◌⊎◌, inl, inr, Bool, true, [], ◌∷◌, ◌++◌, arith, Text, ◌==◌, eq_iff, eq_refl,
  Bool-cases, if◌then◌else◌,
}
use module_lib.Names.{normalize_module_separators, ends_with, name_matches}

ends_with-append : (p t : Text) → ends_with (p ++ t) t ≡ true
unfolding ends_with
ends_with-append [] [] = eq_refl []
ends_with-append [] (c ∷ t) = ground (arith, eq_refl (c ∷ t))
ends_with-append (c ∷ p) t = ground (arith, ends_with-append p t)

ends_with-split : (s t : Text) → ends_with s t ≡ true → (p : Text) × (s ≡ p ++ t)
unfolding ends_with
ends_with-split [] t h = ([], (eq_iff [] t).0 h)
ends_with-split (c ∷ s) t h = elim (Bool-cases ((c ∷ s) == t)) [
  | inl e ↦ ([], (eq_iff (c ∷ s) t).0 e)
  | inr e ↦ let (p, q) = ends_with-split s t (ground arith) in (c ∷ p, cc)
]

-- One name is the other, or the other behind some prefix and a dash.
pub Suffixed : Text → Text → Type 0
Suffixed long short = (p : Text) × (long ≡ p ++ (b'-' ∷ short))

module _ (f r : Text) where
  -- the tests after normalisation, as name_matches makes them
  suffix_tests : Bool
  suffix_tests = if ends_with r (b'-' ∷ f) then true else ends_with f (b'-' ∷ r)

  suffix_tests-split : suffix_tests ≡ true → Suffixed r f ⊎ Suffixed f r
  unfolding suffix_tests Suffixed
  suffix_tests-split h = elim (Bool-cases (ends_with r (b'-' ∷ f))) [
    | inl e ↦ inl (ends_with-split r (b'-' ∷ f) e)
    | inr e ↦ inr (ends_with-split f (b'-' ∷ r) (ground arith))
  ]

  Suffixed-suffix_tests : Suffixed r f ⊎ Suffixed f r → suffix_tests ≡ true
  unfolding suffix_tests Suffixed
  Suffixed-suffix_tests (inl (p, e)) = ground (arith, ends_with-append p (b'-' ∷ f))
  Suffixed-suffix_tests (inr (p, e)) = ground (arith, ends_with-append p (b'-' ∷ r))

module _ (found running : Text) where
  f : Text
  f = normalize_module_separators found

  r : Text
  r = normalize_module_separators running

  name_matches-split :
      name_matches found running ≡ true
      → (f ≢ []) × (r ≢ []) × ((f ≡ r) ⊎ (suffix_tests f r ≡ true))
  unfolding name_matches suffix_tests f r
  name_matches-split h = ground (arith, eq_iff f [], eq_iff r [], eq_iff f r)

  name_matches-join :
      f ≢ [] → r ≢ [] → (f ≡ r) ⊎ (suffix_tests f r ≡ true) → name_matches found running ≡ true
  unfolding name_matches suffix_tests f r
  name_matches-join hf hr h = ground (arith, eq_iff f [], eq_iff r [], eq_iff f r)

-- A found name identifies the running module exactly when, with separators and case normalised,
-- neither is empty and they are equal or one is the other behind a prefix that a dash ends.
pub name_matches_exact :
    (found running : Text)
    → let f = normalize_module_separators found in
      let r = normalize_module_separators running in
      (name_matches found running ≡ true)
      ↔ ((f ≢ []) × (r ≢ []) × ((f ≡ r) ⊎ Suffixed r f ⊎ Suffixed f r))
unfolding f r
name_matches_exact found running = (
  (λ h. let (nf, nr, c) = name_matches-split found running h in (nf, nr, widen c)),
  (λ (nf, nr, c). name_matches-join found running nf nr (narrow c)),
)
  where
    widen :
        (f found running ≡ r found running)
          ⊎ (suffix_tests (f found running) (r found running) ≡ true)
        → (f found running ≡ r found running)
          ⊎ Suffixed (r found running) (f found running)
          ⊎ Suffixed (f found running) (r found running)
    widen (inl e) = inl e
    widen (inr s) = inr (suffix_tests-split (f found running) (r found running) s)

    narrow :
        (f found running ≡ r found running)
          ⊎ Suffixed (r found running) (f found running)
          ⊎ Suffixed (f found running) (r found running)
        → (f found running ≡ r found running)
          ⊎ (suffix_tests (f found running) (r found running) ≡ true)
    narrow (inl e) = inl e
    narrow (inr s) = inr (Suffixed-suffix_tests (f found running) (r found running) s)
