-- ===== src/Runner/Cancels/Laws.antt =====
-- Whether the removal of an edge cancels the sends that are in flight over it.
use module_lib.Prelude.{
  ℕ, ◌≡◌, refl, ◌≢◌, Bool, true, false, not, ◌&&◌, ◌||◌, none, some, List, [], ◌∷◌, arith, ◌∙◌,
  Text, ◌==◌, eq_iff, eq_refl, any, keep, eqb, if◌then◌else◌,
}
use mathlib.Core.Path.{subst}
use module_lib.Dict
use module_lib.Dict.{get-put, get-put_self, get-delete}
use module_lib.Runner.Cancels.{Cancels, begin_send, end_send, cancel_edge, cancel_removed_edges}

abbrev pub listed : ℕ → List ℕ → Bool
listed n xs = any (λ x. eqb x n) xs

-- Some send is in flight over the edge.
abbrev pub busy : Text → List (Text × ℕ) → Bool
busy e xs = any (λ s. s.0 == e) xs

-- The edge's entry is this send's.
abbrev pub registered_as : Cancels → Text → ℕ → Bool
registered_as c e token = elim (Dict.get c.registered e) [ none ↦ false | some t ↦ eqb t token ]

-- The send is registered for an edge that is removed.
abbrev pub removed : List Text → List Text → Cancels → ℕ → Bool
removed [] new c token = false
removed (o ∷ old) new c token =
    (not (any (λ n. n == o) new) && registered_as c o token) || removed old new c token

registered-cancel_edge :
    (new : List Text) (e : Text) (c : Cancels) → (cancel_edge new e c).registered ≡ c.registered
unfolding cancel_edge
registered-cancel_edge new e c = ground arith

listed-cancel_edge :
    (new : List Text) (e : Text) (c : Cancels) (token : ℕ)
    → listed token (cancel_edge new e c).cancelled
      ≡ ((not (any (λ n. n == e) new) && registered_as c e token) || listed token c.cancelled)
unfolding cancel_edge
listed-cancel_edge new e c token = ground arith

removed-registered :
    (old new : List Text) (c d : Cancels) (token : ℕ)
    → c.registered ≡ d.registered
    → removed old new c token ≡ removed old new d token
removed-registered [] new c d token h = refl
removed-registered (o ∷ old) new c d token h = rw (removed-registered old new c d token h, h)

-- When the node's edges change, exactly the sends that are registered for an edge that is gone
-- are cancelled, beside those that were cancelled before.
pub cancel_removed_edges_exact :
    (old new : List Text) (c : Cancels) (token : ℕ)
    → listed token (cancel_removed_edges old new c).cancelled
      ≡ (removed old new c token || listed token c.cancelled)
unfolding cancel_removed_edges
cancel_removed_edges_exact [] new c token = refl
cancel_removed_edges_exact (o ∷ old) new c token =
    cancel_removed_edges_exact old new (cancel_edge new o c) token
    ∙ ground (
      arith,
      listed-cancel_edge new o c token,
      removed-registered old new (cancel_edge new o c) c token (registered-cancel_edge new o c),
    )

-- Each send in flight is the registered one of its edge, and no two are of one edge.
abbrev pub Tracked : Dict.Dict ℕ → List (Text × ℕ) → Type 0
Tracked reg [] = Unit
Tracked reg ((e, t) ∷ l) = (Dict.get reg e ≡ some t) × (busy e l ≡ false) × Tracked reg l

Tracked-put :
    (reg : Dict.Dict ℕ) (l : List (Text × ℕ)) (e : Text) (t : ℕ)
    → busy e l ≡ false
    → Tracked reg l
    → Tracked (Dict.put reg e t) l
Tracked-put reg [] e t h k = tt
Tracked-put reg ((d, u) ∷ l) e t h k =
    ground (arith, get-put reg e d t, eq_iff e d, eq_iff d e, Tracked-put reg l e t)

busy-keep :
    (l : List (Text × ℕ)) (e : Text) (t : ℕ)
    → busy e l ≡ false
    → busy e (keep (λ s. not (eqb s.1 t)) l) ≡ false
busy-keep [] e t h = refl
busy-keep (s ∷ l) e t h = ground (arith, busy-keep l e t)

Tracked-delete :
    (reg : Dict.Dict ℕ) (l : List (Text × ℕ)) (e : Text) (t : ℕ)
    → Dict.get reg e ≡ some t
    → Tracked reg l
    → Tracked (Dict.delete reg e) (keep (λ s. not (eqb s.1 t)) l)
Tracked-delete reg [] e t h k = tt
Tracked-delete reg ((d, u) ∷ l) e t h k =
    ground (arith, get-delete reg e d, eq_iff e d, busy-keep l d t, Tracked-delete reg l e t)

unless_empty : {A : Type 0} (e : Text) (x y : A) → e ≢ [] → y ≡ (if e == [] then x else y)
unless_empty e x y n = ground (arith, eq_iff e [])

-- Where each send in flight is the registered one of its edge, and no two are of one edge, the
-- start of a send over an edge that has none in flight keeps it so.
pub begin_send-Tracked :
    (c : Cancels) (e : Text) (t : ℕ)
    → e ≢ []
    → busy e c.in_flight ≡ false
    → Tracked c.registered c.in_flight
    → Tracked (begin_send e t c).registered (begin_send e t c).in_flight
unfolding begin_send
begin_send-Tracked c e t n idle k =
    subst (λ reg. Tracked reg ((e, t) ∷ c.in_flight))
      (unless_empty e c.registered (Dict.put c.registered e t) n)
      (get-put_self c.registered e t, idle, Tracked-put c.registered c.in_flight e t idle k)

-- Where each send in flight is the registered one of its edge, and no two are of one edge, the end
-- of the send that is registered for an edge keeps it so.
pub end_send-Tracked :
    (c : Cancels) (e : Text) (t : ℕ)
    → e ≢ []
    → Dict.get c.registered e ≡ some t
    → Tracked c.registered c.in_flight
    → Tracked (end_send e t c).registered (end_send e t c).in_flight
unfolding end_send
end_send-Tracked c e t n h k =
    subst (λ reg. Tracked reg (keep (λ s. not (eqb s.1 t)) c.in_flight))
      (unless_empty e c.registered (Dict.delete c.registered e) n)
      (Tracked-delete c.registered c.in_flight e t h k)

-- Two sends over one edge share its entry. When the first of them ends, the entry is gone, and a
-- removal of the edge no longer cancels the second, which is still in flight.
pub cancel_removed_edges_overlap :
    (c : Cancels) (e : Text) (a b : ℕ)
    → e ≢ []
    → a ≢ b
    → let after = end_send e a (begin_send e b (begin_send e a c)) in
      (busy e after.in_flight ≡ true) × (cancel_removed_edges (e ∷ []) [] after ≡ after)
unfolding begin_send end_send cancel_removed_edges
cancel_removed_edges_overlap c e a b n d =
    ground
      (arith, eq_iff e [], eq_refl e, get-delete (Dict.put (Dict.put c.registered e a) e b) e e)
