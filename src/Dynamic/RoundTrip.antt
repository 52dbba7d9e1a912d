-- ===== src/Dynamic/RoundTrip.antt =====
-- The round trip of rust/fhs/src/p2p/dynamic.rs: `from_json` takes back what `to_json` writes.
use galax_ia_sdk.Prelude.{
  ℕ, suc, ◌^◌, ◌≡◌, refl, ap, ◌∙◌, Bool, true, false, Option, none, some, List, arith, All,
  if◌then◌else◌, ◌||◌, lt→ltb,
}
use galax_ia_sdk.Prelude.Int.{ℤ, pos, negsuc}
use galax_ia_sdk.Prelude.Lex.{lex_lt, list_eq}
use galax_ia_sdk.Prelude.Result.{Result, ok}
use galax_ia_sdk.Prelude.Sort.{Ascending, sort_on-Ascending}
use galax_ia_sdk.Text.{Text, Bytes, codes}
use galax_ia_sdk.Text.Utf8.{as_bytes}
use galax_ia_sdk.Text.Decimal.{IsI64}
use galax_ia_sdk.Protocol.{
  ArtifactRef, no_transport, inline, ipfs, DynamicValue, unset, boolean_value, integer_value,
  number_value, string_value, bytes_value, list_value, object_value, artifact_ref, DynamicList, nil,
  cons, DynamicObject, empty, field,
}
use galax_ia_sdk.Authorization.{field_key, is_finite}
use galax_ia_sdk.Dynamic.{
  NullNotAllowed, Number, integer, float, Json, JsonObject, object, as_i64, insert_all, find,
  as_str, retention_of, root, index_path, key_path, no_entries, artifact_of, from_json_at,
  from_items, from_entries, from_json, artifact_to_json, to_json, to_items, to_entries,
}
use galax_ia_sdk.Dynamic.Files.{inline_entries-back, ipfs_entries-back}
use galax_ia_sdk.Dynamic.Maps.{entries, insert_all-entries}

abbrev pub field_of : Text → DynamicObject → Option DynamicValue
field_of k empty = none
field_of k (field k' v fs) = if list_eq k' k then some v else field_of k fs

abbrev pub string_of : Option DynamicValue → Option Text
string_of (some (string_value s)) = some s
string_of _ = none

-- A text under the key "transport" makes an object a file.
abbrev pub names_file : Option Text → Bool
names_file none = false
names_file (some t) = list_eq t (codes "inline") || list_eq t (codes "ipfs")

abbrev pub Before : Text → DynamicObject → Type 0
Before k empty = Unit
Before k (field k' v fs) = (lex_lt (as_bytes k) (as_bytes k') ≡ true) × Before k fs

abbrev pub TravelsFile : ArtifactRef → Type 0
TravelsFile no_transport = ⊥
TravelsFile (inline a) = Unit
TravelsFile (ipfs a) = retention_of a.retention ≡ a.retention

-- The values that JSON can carry: no unset value or bytes, integers of 64 bits, finite numbers, a
-- retention of the two that exist, and objects that are not read as a file, with their keys in
-- order (a map has no other order).
abbrev mutual
  pub Travels : DynamicValue → Type 0
  Travels unset = ⊥
  Travels (boolean_value b) = Unit
  Travels (integer_value i) = IsI64 i
  Travels (number_value n) = is_finite n ≡ true
  Travels (string_value s) = Unit
  Travels (bytes_value b) = ⊥
  Travels (list_value vs) = TravelsItems vs
  Travels (object_value fs) =
      (names_file (string_of (field_of (codes "transport") fs)) ≡ false) × TravelsFields fs
  Travels (artifact_ref a) = TravelsFile a

  pub TravelsItems : DynamicList → Type 0
  TravelsItems nil = Unit
  TravelsItems (cons v vs) = Travels v × TravelsItems vs

  pub TravelsFields : DynamicObject → Type 0
  TravelsFields empty = Unit
  TravelsFields (field k v fs) = Before k fs × Travels v × TravelsFields fs

as_i64-IsI64 : (i : ℤ) → IsI64 i → as_i64 (integer i) ≡ some i
as_i64-IsI64 (pos n) h = rw (lt→ltb n (2 ^ 63) (omega arith))
as_i64-IsI64 (negsuc n) h = rw (lt→ltb n (2 ^ 63) (omega arith))

module _ (encode : Bytes → Text) (decode : Text → Option Bytes) (from_f64 : ℕ → Option Number)
    (as_f64 : Number → ℕ) (decoded : (b : Bytes) → decode (encode b) ≡ some b)
    (from_finite : (n : ℕ) → is_finite n ≡ true → from_f64 n ≡ some (float n))
    (as_float : (n : ℕ) → as_f64 (float n) ≡ n) where
  abbrev write : DynamicValue → Json
  write = to_json encode from_f64

  abbrev write_entries : DynamicObject → List (Text × Json)
  write_entries = to_entries encode from_f64

  string_back : (v : DynamicValue) → Travels v → as_str (some (write v)) ≡ string_of (some v)
  unfolding to_json artifact_to_json
  string_back unset h = elim h [ ]
  string_back (bytes_value _) h = elim h [ ]
  string_back (artifact_ref no_transport) h = elim h [ ]
  string_back (boolean_value b) h = refl
  string_back (integer_value i) h = refl
  string_back (number_value n) h = rw (from_finite n h)
  string_back (string_value s) h = refl
  string_back (list_value vs) h = refl
  string_back (object_value fs) h = refl
  string_back (artifact_ref (inline a)) h = refl
  string_back (artifact_ref (ipfs a)) h = refl

  find-entries :
      (k : Text) (fs : DynamicObject)
      → TravelsFields fs
      → as_str (find k (entries (write_entries fs))) ≡ string_of (field_of k fs)
  unfolding to_json find
  find-entries k empty h = refl
  find-entries k (field k' v fs) (b, h, more) =
      ground (arith, string_back v h, find-entries k fs more)

  write_entries-Ascending :
      (fs : DynamicObject) → TravelsFields fs → Ascending field_key (write_entries fs)
  unfolding to_json
  write_entries-Ascending empty h = tt
  write_entries-Ascending (field k v fs) (b, h, more) =
      (after k fs b, write_entries-Ascending fs more)
    where
      after :
          (k : Text) (fs : DynamicObject)
          → Before k fs
          → All (λ e. lex_lt (as_bytes k) (field_key e) ≡ true) (write_entries fs)
      after k empty b = tt
      after k (field k' v fs) (b, more) = (b, after k fs more)

  -- An object is written with its fields in their order.
  write-object :
      (fs : DynamicObject)
      → TravelsFields fs
      → write (object_value fs) ≡ object (entries (write_entries fs))
  unfolding to_json
  write-object fs h =
      let up = write_entries-Ascending fs h in
      ap (λ l. object (insert_all l no_entries)) (sort_on-Ascending field_key (write_entries fs) up)
      ∙ ap object (insert_all-entries (write_entries fs) up)

  no_file :
      (t : Option Text) (m : JsonObject) → names_file t ≡ false → artifact_of decode t m ≡ none
  unfolding artifact_of
  no_file none m h = refl
  no_file (some t) m h = ground arith

  abbrev read : Json → Text → Result DynamicValue NullNotAllowed
  read = from_json_at decode as_f64

  mutual
    unfolding to_json from_json_at artifact_to_json

    back : (v : DynamicValue) (path : Text) → Travels v → read (write v) path ≡ ok v
    back unset path h = elim h [ ]
    back (bytes_value _) path h = elim h [ ]
    back (artifact_ref no_transport) path h = elim h [ ]
    back (boolean_value b) path h = refl
    back (integer_value i) path h = rw (as_i64-IsI64 i h)
    back (number_value n) path h = rw (from_finite n h, as_float n)
    back (string_value s) path h = refl
    back (list_value vs) path h = rw (back_items vs path 0 h)
    back (object_value fs) path (plain, h) =
        ap (λ j. read j path) (write-object fs h)
        ∙ rw (
          find-entries (codes "transport") fs h,
          no_file (string_of (field_of (codes "transport") fs)) (entries (write_entries fs)) plain,
          back_fields fs path h,
        )
    back (artifact_ref (inline a)) path h =
        rw (inline_entries-back encode decode a (decoded a.content))
    back (artifact_ref (ipfs a)) path h = rw (ipfs_entries-back decode a h)

    back_items :
        (vs : DynamicList) (path : Text) (i : ℕ)
        → TravelsItems vs
        → from_items decode as_f64 (to_items encode from_f64 vs) path i ≡ ok vs
    back_items nil path i h = refl
    back_items (cons v vs) path i (h, more) =
        rw (back v (index_path path i) h, back_items vs path (suc i) more)

    back_fields :
        (fs : DynamicObject) (path : Text)
        → TravelsFields fs
        → from_entries decode as_f64 (entries (write_entries fs)) path ≡ ok fs
    back_fields empty path h = refl
    back_fields (field k v fs) path (b, h, more) =
        rw (back v (key_path path k) h, back_fields fs path more)

  -- A value that JSON can carry (nothing unset, no bytes, integers of 64 bits, finite numbers, a
  -- known retention, objects with their keys in order that do not name a transport of files)
  -- comes back from its JSON as it was, when base64 decodes what it encodes and a finite double
  -- stays one.
  pub from_json-to_json : (v : DynamicValue) → Travels v → from_json decode as_f64 (write v) ≡ ok v
  unfolding from_json
  from_json-to_json v h = back v root h
