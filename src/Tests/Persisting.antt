-- ===== src/Tests/Persisting.antt =====
-- Component state.
use module_lib.Prelude.{
  ◌*◌, ◌≤◌, ◌≡◌, refl, true, ◌&&◌, none, some, [], ◌∷◌, ◌++◌, arith, Text, codes, ◌==◌, any, inr,
  if◌then◌else◌, starts_with,
}
use module_lib.Prelude.Strings.{drop_prefix}
use module_lib.Dict
use module_lib.Dict.{Dict}
use module_lib.State
use module_lib.State.{
  MetadataState, PendingEntry, Cache, metadata, Codec, Update, put_key, apply, Read, absent,
  present, set, guard_size, total, key_prefix,
}
use module_lib.State.Reads.{get-set, get-set_nil}
use module_lib.State.Size.{total-set}
use module_lib.State.Listing.{is_found, list-get}

-- Texts stand for their own encodings.
abbrev codec : Codec
codec = record { encode = λ t. t; decode = λ t. inr t }

abbrev old : Dict Text
old =
    (codes "_state/a", codes "1") ∷ (codes "port", codes "80") ∷ (codes "_state/b", codes "2") ∷ []

-- A deletion of a at time 1000 is pending.
abbrev state : MetadataState
state = record {
  pending = (codes "a", record { value = none; added_at = 1000 }) ∷ [];
  emits = true;
}

listing : State.list (metadata old) 2000 [] state ≡ inr (codes "b" ∷ [])
unfolding State.list Dict.delete Dict.put Dict.keys starts_with ◌==◌ drop_prefix
listing = refl

get-set_example :
    State.get codec
      (metadata old)
      2500
      (codes "a")
      (set codec (metadata old) 2000 (codes "c") (some (codes "3")) state).1
    ≡ (if codes "c" == codes "a"
        then present (codes "3")
        else State.get codec (metadata old) 2500 (codes "a") state)
unfolding guard_size Dict.get ◌==◌ State.pending_at total starts_with
get-set_example =
    get-set codec (metadata old) (metadata old) 2000 2500 (codes "c") (codes "a") (codes "3") state
      refl (omega arith)

abbrev written : Update
written = put_key (codes "_state/c") (codes "3")

get-set_nil_example :
    let (_, s', u) = set codec (metadata old) 2000 (codes "c") none state in
    let applied = metadata (apply (put_key (key_prefix ++ codes "c") []) old) in
    (u ≡ some (put_key (key_prefix ++ codes "c") []))
    × (State.get codec applied 3000 (codes "c") s' ≡ absent)
    × (State.get codec applied 9000 (codes "c") s' ≡ present [])
unfolding guard_size Dict.get ◌==◌ State.pending_at total starts_with
get-set_nil_example =
    get-set_nil codec (metadata old) old 2000 3000 9000 (codes "c") state refl refl refl
      (omega arith) (omega arith)

total-set_example : total (apply written old) ≤ 900 * 1024
unfolding guard_size Dict.get ◌==◌ State.pending_at total set starts_with
total-set_example = total-set codec old 2000 (codes "c") (some (codes "3")) state written refl refl

list-get_example : any (λ j. j == codes "b") (codes "b" ∷ []) ≡ (
    starts_with (codes "b") [] && is_found (State.get codec (metadata old) 2000 (codes "b") state))
unfolding Dict.has
list-get_example = list-get codec old 2000 [] (codes "b") (codes "b" ∷ []) state (refl, tt) listing
