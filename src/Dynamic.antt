-- ===== src/Dynamic.antt =====
-- rust/fhs/src/p2p/dynamic.rs: the arguments and the results of tools between JSON and
-- `DynamicValue`.
--
-- `serde_json::Value` is its documented data type; a number is an integer or the bit pattern of a
-- double. An object is the list of its entries in the order of its keys, as in the `BTreeMap` that
-- `serde_json` builds. The base64 engine and the two conversions of `serde_json::Number` from and
-- to a double are parameters.
pub mod Maps
pub mod Files
pub mod RoundTrip
pub mod Recognised
pub mod Nulls
use galax_ia_sdk.Prelude.{
  ℕ, suc, ◌+◌, ◌^◌, Bool, true, false, Option, none, some, List, [], ◌∷◌, ◌++◌, ltb, if◌then◌else◌,
}
use galax_ia_sdk.Prelude.Int.{ℤ, pos, negsuc}
use galax_ia_sdk.Prelude.Lex.{lex_lt, list_eq}
use galax_ia_sdk.Prelude.Result.{Result, ok, err, ◌>>=◌}
use galax_ia_sdk.Prelude.Sort.{sort_on}
use galax_ia_sdk.Text.{Text, Bytes, codes}
use galax_ia_sdk.Text.Utf8.{as_bytes}
use galax_ia_sdk.Text.Decimal.{print_ℕ}
use galax_ia_sdk.Protocol.{
  InlineArtifact, IpfsArtifact, ArtifactRef, no_transport, inline, ipfs, DynamicValue, unset,
  boolean_value, integer_value, number_value, string_value, bytes_value, list_value, object_value,
  artifact_ref, DynamicList, nil, cons, DynamicObject, empty, field,
}
use galax_ia_sdk.Authorization.{field_key}

pub data Number : Type 0 where
  integer : ℤ → Number
  float : ℕ → Number

mutual
  pub data Json : Type 0 where
    null : Json
    boolean : Bool → Json
    number : Number → Json
    string : Text → Json
    array : JsonList → Json
    object : JsonObject → Json

  pub data JsonList : Type 0 where
    no_items : JsonList
    item : Json → JsonList → JsonList

  pub data JsonObject : Type 0 where
    no_entries : JsonObject
    entry : Text → Json → JsonObject → JsonObject

pub data NullNotAllowed : Type 0 where
  null_not_allowed : Text → NullNotAllowed

-- `Number::as_i64`, which has a value exactly when `is_i64` holds
abbrev pub as_i64 : Number → Option ℤ
as_i64 (integer (pos n)) = if ltb n (2 ^ 63) then some (pos n) else none
as_i64 (integer (negsuc n)) = if ltb n (2 ^ 63) then some (negsuc n) else none
as_i64 (float n) = none

-- `Map::insert` and `Map::get`
unfoldable pub insert_entry : Text → Json → JsonObject → JsonObject
insert_entry k v no_entries = entry k v no_entries
insert_entry k v (entry k' v' rest) =
    if list_eq k' k
    then entry k' v rest
    else if lex_lt (as_bytes k) (as_bytes k')
    then entry k v (entry k' v' rest)
    else entry k' v' (insert_entry k v rest)

unfoldable pub find : Text → JsonObject → Option Json
find k no_entries = none
find k (entry k' v rest) = if list_eq k' k then some v else find k rest

-- the loop over the sorted keys
unfoldable pub insert_all : List (Text × Json) → JsonObject → JsonObject
insert_all [] m = m
insert_all ((k, v) ∷ more) m = insert_all more (insert_entry k v m)

-- `value[key].as_str()`; `text_of` is `text(key)`
abbrev pub as_str : Option Json → Option Text
as_str (some (string s)) = some s
as_str _ = none

abbrev pub or_empty : Option Text → Text
or_empty none = []
or_empty (some s) = s

abbrev pub entries_of : Json → JsonObject
entries_of (object m) = m
entries_of _ = no_entries

abbrev pub text_of : Text → JsonObject → Text
text_of key m = or_empty (as_str (find key m))

-- the two texts that a retention is read and written as
unfoldable pub retention_of : Text → Text
retention_of r = if list_eq r (codes "reuse") then codes "reuse" else codes "ephemeral"

unfoldable pub put : Text → Text → JsonObject → JsonObject
put key [] m = m
put key (c ∷ s) m = insert_entry key (string (c ∷ s)) m

unfoldable pub index_path : Text → ℕ → Text
index_path path i = path ++ (codes "[" ++ (print_ℕ i ++ codes "]"))

unfoldable pub key_path : Text → Text → Text
key_path path k = path ++ (codes "." ++ k)

abbrev pub root : Text
root = codes "$"

abbrev pub object_kind :
    Option ArtifactRef → Result DynamicObject NullNotAllowed → Result DynamicValue NullNotAllowed
object_kind (some a) fields = ok (artifact_ref a)
object_kind none fields = do fs ← fields; ok (object_value fs)

abbrev pub ipfs_of : JsonObject → ArtifactRef
ipfs_of m = ipfs (record {
  cid = text_of (codes "cid") m;
  network = text_of (codes "network") m;
  gateway_url = text_of (codes "gatewayUrl") m;
  filename = text_of (codes "filename") m;
  retention = retention_of (text_of (codes "retention") m);
})

abbrev pub inline_of : JsonObject → Option Bytes → Option ArtifactRef
inline_of m none = none
inline_of m (some content) =
    some (inline (record { content = content; filename = text_of (codes "filename") m }))

module _ (decode : Text → Option Bytes) where
  unfoldable pub artifact_of : Option Text → JsonObject → Option ArtifactRef
  artifact_of none m = none
  artifact_of (some t) m =
      if list_eq t (codes "inline")
      then inline_of m (decode (text_of (codes "base64") m))
      else if list_eq t (codes "ipfs")
      then some (ipfs_of m)
      else none

  abbrev pub artifact_in : JsonObject → Option ArtifactRef
  artifact_in m = artifact_of (as_str (find (codes "transport") m)) m

  unfoldable pub artifact_from_json : Json → Option ArtifactRef
  artifact_from_json j = artifact_in (entries_of j)

module _ (decode : Text → Option Bytes) (as_f64 : Number → ℕ) where
  abbrev pub number_kind : Number → Option ℤ → DynamicValue
  number_kind n (some i) = integer_value i
  number_kind n none = number_value (as_f64 n)

  unfoldable mutual
    pub from_json_at : Json → Text → Result DynamicValue NullNotAllowed
    from_json_at null path = err (null_not_allowed path)
    from_json_at (boolean b) path = ok (boolean_value b)
    from_json_at (number n) path = ok (number_kind n (as_i64 n))
    from_json_at (string s) path = ok (string_value s)
    from_json_at (array items) path = do vs ← from_items items path 0; ok (list_value vs)
    from_json_at (object m) path = object_kind (artifact_in decode m) (from_entries m path)

    pub from_items : JsonList → Text → ℕ → Result DynamicList NullNotAllowed
    from_items no_items path i = ok nil
    from_items (item j js) path i = do
      v ← from_json_at j (index_path path i)
      vs ← from_items js path (suc i)
      ok (cons v vs)

    pub from_entries : JsonObject → Text → Result DynamicObject NullNotAllowed
    from_entries no_entries path = ok empty
    from_entries (entry k j rest) path = do
      v ← from_json_at j (key_path path k)
      fs ← from_entries rest path
      ok (field k v fs)

  unfoldable pub from_json : Json → Result DynamicValue NullNotAllowed
  from_json j = from_json_at j root

unfoldable pub ipfs_entries : IpfsArtifact → JsonObject
ipfs_entries a = put (codes "retention") (retention_of a.retention) (
    put (codes "filename") a.filename (
      put (codes "gatewayUrl") a.gateway_url (
        put (codes "network") a.network
          (put (codes "cid") a.cid (put (codes "transport") (codes "ipfs") no_entries)))))

abbrev pub number_or_null : Option Number → Json
number_or_null (some n) = number n
number_or_null none = null

module _ (encode : Bytes → Text) where
  unfoldable pub inline_entries : InlineArtifact → JsonObject
  inline_entries a =
      insert_entry (codes "base64") (string (encode a.content))
        (put (codes "filename") a.filename (put (codes "transport") (codes "inline") no_entries))

  unfoldable pub artifact_to_json : ArtifactRef → Json
  artifact_to_json no_transport = null
  artifact_to_json (inline a) = object (inline_entries a)
  artifact_to_json (ipfs a) = object (ipfs_entries a)

module _ (encode : Bytes → Text) (from_f64 : ℕ → Option Number) where
  unfoldable mutual
    pub to_json : DynamicValue → Json
    to_json unset = null
    to_json (boolean_value b) = boolean b
    to_json (integer_value i) = number (integer i)
    to_json (number_value f) = number_or_null (from_f64 f)
    to_json (string_value s) = string s
    to_json (bytes_value b) = string (encode b)
    to_json (list_value vs) = array (to_items vs)
    to_json (object_value fs) = object (insert_all (sort_on field_key (to_entries fs)) no_entries)
    to_json (artifact_ref a) = artifact_to_json encode a

    pub to_items : DynamicList → JsonList
    to_items nil = no_items
    to_items (cons v vs) = item (to_json v) (to_items vs)

    pub to_entries : DynamicObject → List (Text × Json)
    to_entries empty = []
    to_entries (field k v fs) = (k, to_json v) ∷ to_entries fs
