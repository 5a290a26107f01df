-- ===== src/Graph/Requests/Configs/Preferred.antt =====
-- Which configuration a port falls back to, where the request has none for it.
use module_lib.Prelude.{
  ◌≡◌, refl, ◌∙◌, ap, sym, Bool, true, false, not, ◌&&◌, Option, none, some, List, [], ◌∷◌, Text,
  ◌==◌, arith, eq_iff, if◌then◌else◌, Bool-cases, inl, inr,
}
use module_lib.Dict
use module_lib.Dict.{Dict, get-put}
use module_lib.Node.{PortConfig}
use module_lib.Graph.Requests.Configs.{fallback_key, existing_step, existing_configs}

abbrev pub or_else : Option PortConfig → Option PortConfig → Option PortConfig
or_else none other = other
or_else (some p) other = some p

-- The configuration is for the key, an address that it has and a port.
abbrev pub is_at : Text → PortConfig → Bool
is_at key p = not (p.from == []) && fallback_key p.from p.port == key

-- The first configuration for the key that a flow has, and the last one for it.
unfoldable pub first_of : Text → Text → List PortConfig → Option PortConfig
first_of key flow [] = none
first_of key flow (p ∷ ps) =
    let rest = first_of key flow ps in if is_at key p && p.flow_id == flow then some p else rest

unfoldable pub last_at : Text → List PortConfig → Option PortConfig
last_at key [] = none
last_at key (p ∷ ps) = or_else (last_at key ps) (if is_at key p then some p else none)

-- What an earlier choice is worth.
abbrev of_flow : Text → Option PortConfig → Option PortConfig
of_flow flow none = none
of_flow flow (some p) = if p.flow_id == flow then some p else none

-- The flow's own configuration, a legacy one, or the last: the earlier choice, the first and the last of the
-- rest.
abbrev chosen :
    Text
    → Option PortConfig
    → Option PortConfig
    → Option PortConfig
    → Option PortConfig
    → Option PortConfig
chosen flow old own legacy last =
    or_else (of_flow flow old)
      (or_else own (or_else (of_flow [] old) (or_else legacy (or_else last old))))

abbrev preferred : Text → Text → List PortConfig → Option PortConfig → Option PortConfig
preferred key flow ps old =
    chosen flow old (first_of key flow ps) (first_of key [] ps) (last_at key ps)

chosen-step :
    (flow : Text) (p : PortConfig) (old own legacy last : Option PortConfig)
    → chosen flow
        (or_else
          (of_flow flow old)
          (if p.flow_id == flow then some p else or_else (of_flow [] old) (some p)))
        own
        legacy
        last
      ≡ chosen flow old
          (if p.flow_id == flow then some p else own)
          (if p.flow_id == [] then some p else legacy)
          (or_else last (some p))
chosen-step flow p none own legacy last = ground arith
chosen-step flow p (some old) own legacy last = ground arith

get-existing_step :
    (key flow : Text) (p : PortConfig) (m : Dict PortConfig)
    → p.from == [] ≡ false
    → (fallback_key p.from p.port == key) ≡ false
    → Dict.get (existing_step flow p m (Dict.get m (fallback_key p.from p.port))) key
      ≡ Dict.get m key
unfolding existing_step
get-existing_step key flow p m f k = stepped (Dict.get m (fallback_key p.from p.port))
  where
    stepped : (o : Option PortConfig) → Dict.get (existing_step flow p m o) key ≡ Dict.get m key
    stepped none = get-put m (fallback_key p.from p.port) key p ∙ rw k refl
    stepped (some old) = ground (arith, get-put m (fallback_key p.from p.port) key p, k)

get-existing_step_at :
    (key flow : Text) (p : PortConfig) (m : Dict PortConfig) (o : Option PortConfig)
    → (fallback_key p.from p.port == key) ≡ true
    → Dict.get m key ≡ o
    → Dict.get (existing_step flow p m o) key
      ≡ or_else
          (of_flow flow o)
          (if p.flow_id == flow then some p else or_else (of_flow [] o) (some p))
unfolding existing_step
get-existing_step_at key flow p m none k e =
    ground (arith, get-put m (fallback_key p.from p.port) key p, k)
get-existing_step_at key flow p m (some old) k e =
    ground (arith, get-put m (fallback_key p.from p.port) key p, k, e)

-- One more configuration for the key before the others.
preferred-step :
    (key flow : Text) (p : PortConfig) (ps : List PortConfig) (o : Option PortConfig)
    → is_at key p ≡ true
    → preferred key flow ps (
        or_else
          (of_flow flow o)
          (if p.flow_id == flow then some p else or_else (of_flow [] o) (some p)))
      ≡ preferred key flow (p ∷ ps) o
unfolding first_of last_at
preferred-step key flow p ps o a =
    rw (a) (chosen-step flow p o (first_of key flow ps) (first_of key [] ps) (last_at key ps))

-- A configuration for another key, or for none.
preferred-skip :
    (key flow : Text) (p : PortConfig) (ps : List PortConfig) (o : Option PortConfig)
    → is_at key p ≡ false
    → preferred key flow ps o ≡ preferred key flow (p ∷ ps) o
unfolding first_of last_at
preferred-skip key flow p ps o a =
    rw (a) (
      ap (λ l. chosen flow o (first_of key flow ps) (first_of key [] ps) l) (same (last_at key ps)))
  where
    same : (l : Option PortConfig) → l ≡ or_else l none
    same none = refl
    same (some q) = refl

existing_configs-skip :
    (flow : Text) (p : PortConfig) (ps : List PortConfig) (m : Dict PortConfig)
    → (p.from == []) ≡ true
    → existing_configs flow (p ∷ ps) m ≡ existing_configs flow ps m
unfolding existing_configs
existing_configs-skip flow p ps m y = rw y refl

existing_configs-step :
    (flow : Text) (p : PortConfig) (ps : List PortConfig) (m : Dict PortConfig)
    → (p.from == []) ≡ false
    → existing_configs flow (p ∷ ps) m
      ≡ existing_configs flow ps (existing_step flow p m (Dict.get m (fallback_key p.from p.port)))
unfolding existing_configs
existing_configs-step flow p ps m n = rw n refl

get-existing_configs_from :
    (key flow : Text) (ps : List PortConfig) (m : Dict PortConfig)
    → Dict.get (existing_configs flow ps m) key ≡ preferred key flow ps (Dict.get m key)
unfolding existing_configs first_of last_at
get-existing_configs_from key flow [] m = kept (Dict.get m key)
  where
    kept : (o : Option PortConfig) → o ≡ preferred key flow [] o
    kept none = refl
    kept (some p) = ground arith
get-existing_configs_from key flow (p ∷ ps) m = elim (Bool-cases (p.from == [])) [
  | inl y ↦
      ap (λ n. Dict.get n key) (existing_configs-skip flow p ps m y)
      ∙ (get-existing_configs_from key flow ps m
          ∙ preferred-skip key flow p ps (Dict.get m key) (ground (arith, y)))
  | inr f ↦
      ap (λ n. Dict.get n key) (existing_configs-step flow p ps m f)
      ∙ (get-existing_configs_from key flow ps _
          ∙ elim (Bool-cases (fallback_key p.from p.port == key)) [
            | inl k ↦
                ap (preferred key flow ps) (
                  get-existing_step_at key flow p m (Dict.get m (fallback_key p.from p.port)) k
                    (ap (Dict.get m) (sym ((eq_iff _ _).0 k)))
                  ∙ ap
                      (λ o.
                        or_else (of_flow flow o)
                          (if p.flow_id == flow then some p else or_else (of_flow [] o) (some p)))
                      (ap (Dict.get m) ((eq_iff _ _).0 k)))
                ∙ preferred-step key flow p ps (Dict.get m key) (ground (arith, f, k))
            | inr n ↦
                ap (preferred key flow ps) (get-existing_step key flow p m f n)
                ∙ preferred-skip key flow p ps (Dict.get m key) (ground (arith, n))
          ])
]

-- The configuration that a port falls back to is the flow's own first one for the address and the port, or
-- else the first legacy one, or else the last of any flow, and there is none where no configuration is
-- for them.
pub get-existing_configs :
    (key flow : Text) (ps : List PortConfig)
    → Dict.get (existing_configs flow ps []) key
      ≡ or_else (first_of key flow ps) (or_else (first_of key [] ps) (last_at key ps))
unfolding Dict.get
get-existing_configs key flow ps =
    get-existing_configs_from key flow ps []
    ∙ ap (λ l. or_else (first_of key flow ps) (or_else (first_of key [] ps) l))
        (end (last_at key ps))
  where
    end : (l : Option PortConfig) → or_else l none ≡ l
    end none = refl
    end (some q) = refl
