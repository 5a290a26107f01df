-- ===== src/Tests/Publishing.antt =====
-- Statuses that are published.
use module_lib.Prelude.{
  ℕ, zero, suc, ◌≡◌, refl, sym, ap, true, none, some, Option, [], ◌∷◌, ◌++◌, Text, codes, ◌==◌,
  length, map, starts_with,
}
use module_lib.Json.{
  Json, Items, Fields, null, bool, number, text, array, object, nil, item, end, field,
}
use module_lib.Node.{settings_port}
use module_lib.Redact.{is_expression, is_secret_key}
use module_lib.Runner.Messages.{Port}
use module_lib.Runner.Status.{JsonCodec, Encodings, port_statuses}
use module_lib.Runner.Status.Hidden.{
  IsJson, AllHidden, all_texts, all_in_items, all_in_fields, port_statuses-AllHidden,
}
use module_lib.Tests.Delivering.{port}

-- JSON of strings, and of objects of one field that is a string: the bytes are 0 and the string, or 1, the
-- length of the name, the name and the string.
encode_field : Fields → Option Text
encode_field (field k (text s) end) = some (1 ∷ length k ∷ (k ++ s))
encode_field _ = none

encode_json : Json → Option Text
unfolding encode_field
encode_json (text s) = some (0 ∷ s)
encode_json (object m) = encode_field m
encode_json _ = none

take : ℕ → Text → Text
take zero s = []
take (suc n) [] = []
take (suc n) (c ∷ s) = c ∷ take n s

drop : ℕ → Text → Text
drop zero s = s
drop (suc n) [] = []
drop (suc n) (c ∷ s) = drop n s

decode_json : Text → Option Json
unfolding take drop
decode_json (zero ∷ s) = some (text s)
decode_json (suc zero ∷ n ∷ s) = some (object (field (take n s) (text (drop n s)) end))
decode_json _ = none

unfoldable pub codec : JsonCodec
unfolding encode_json decode_json
codec = record { decode = decode_json; encode = encode_json }

take-append : (k s : Text) → take (length k) (k ++ s) ≡ k
unfolding take
take-append [] s = refl
take-append (c ∷ k) s = ap (λ t. c ∷ t) (take-append k s)

drop-append : (k s : Text) → drop (length k) (k ++ s) ≡ s
unfolding drop
drop-append [] s = refl
drop-append (c ∷ k) s = drop-append k s

decode_encode : (v : Json) (b : Text) → codec.encode v ≡ some b → codec.decode b ≡ some v
unfolding codec
decode_encode (text s) b h = rw (sym (some_inj h)) refl
  where
    some_inj : some (0 ∷ s) ≡ some b → 0 ∷ s ≡ b
    some_inj h = cc
decode_encode (object (field k (text s) end)) b h =
    rw (sym (some_inj h)) (rw (take-append k s, drop-append k s) refl)
  where
    some_inj : some (1 ∷ length k ∷ (k ++ s)) ≡ some b → 1 ∷ length k ∷ (k ++ s) ≡ b
    some_inj h = cc
decode_encode null b h = cc
decode_encode _ b h = cc

mutual
  unfolding all_texts

  true_texts : (v : Json) → all_texts (λ s. true) v ≡ true
  true_texts null = refl
  true_texts (bool b) = refl
  true_texts (number n) = refl
  true_texts (text s) = refl
  true_texts (array xs) = true_items xs
  true_texts (object m) = true_fields m

  true_items : (xs : Items) → all_in_items (λ s. true) xs ≡ true
  true_items nil = refl
  true_items (item v xs) = rw (true_texts v) (true_items xs)

  true_fields : (m : Fields) → all_in_fields (λ s. true) m ≡ true
  true_fields end = refl
  true_fields (field k v m) = rw (true_texts v) (true_fields m)

codec-IsJson : IsJson codec
codec-IsJson = record {
  is_utf8 = λ s. true;
  ascii_utf8 = λ s h. refl;
  decode_utf8 = λ b v h. true_texts v;
  decode_encode = λ v b h k. (v, decode_encode v b h, λ k s m. m);
}

abbrev pub encodings : Encodings Text
encodings = record { create_schema = λ v. none; marshal = λ v. some v }

-- A configuration with a credential.
abbrev secret_port : Port Text
secret_port = record (port (codes "in")) {
  configuration = some (1 ∷ 5 ∷ (codes "token" ++ codes "abc"));
}

published :
    map (λ p. p.configuration) (port_statuses codec encodings (secret_port ∷ []))
    ≡ (1 ∷ 5 ∷ (codes "token" ++ codes "<redacted>")) ∷ []
unfolding port_statuses codec ◌==◌ starts_with is_expression is_secret_key
published = refl

port_statuses-AllHidden_example :
    AllHidden codec (port_statuses codec encodings (secret_port ∷ port settings_port ∷ []))
port_statuses-AllHidden_example =
    port_statuses-AllHidden codec codec-IsJson encodings (secret_port ∷ port settings_port ∷ [])
