-- ===== src/Authorization/Order.antt =====
-- The order in which a map holds its fields does not reach the canonical form; and exactly the
-- values with finite numbers and no files have one.
use galax_ia_sdk.Prelude.{
  ◌≡◌, refl, ap, ◌∙◌, Bool, true, false, List, [], ◌∷◌, ◌++◌, map, arith, ◌&&◌, all,
}
use galax_ia_sdk.Prelude.Result.{Result, ok, err, is_ok, ◌>>=◌}
use galax_ia_sdk.Prelude.Sort.{sort_on, place, Shuffle, nil, skip, swap, trans, sort_on-Shuffle}
use galax_ia_sdk.Text.{Text, Bytes}
use galax_ia_sdk.Protocol.{
  DynamicValue, unset, boolean_value, integer_value, number_value, string_value, bytes_value,
  list_value, object_value, artifact_ref, DynamicList, cons, DynamicObject, empty, field,
}
use galax_ia_sdk.Protocol.{nil as no_items}
use galax_ia_sdk.Authorization.{
  DigestError, is_finite, field_key, write_fields, encode_value, encode_items, encode_fields,
  push_len, length_list,
}
use galax_ia_sdk.Authorization.Decoder.{of_fields}

abbrev encoded : Text × DynamicValue → Text × Result Bytes DigestError
encoded (key, v) = (key, encode_value v)

encode_fields-of_fields :
    (l : List (Text × DynamicValue)) → encode_fields (of_fields l) ≡ map encoded l
unfolding encode_value of_fields
encode_fields-of_fields [] = refl
encode_fields-of_fields ((key, v) ∷ l) = ap (◌∷◌ (key, encode_value v)) (encode_fields-of_fields l)

map-Shuffle :
    {xs ys : List (Text × DynamicValue)}
    → Shuffle field_key xs ys
    → Shuffle field_key (map encoded xs) (map encoded ys)
map-Shuffle nil = nil
map-Shuffle (skip x s) = skip (encoded x) (map-Shuffle s)
map-Shuffle (swap x y xs ne) = swap (encoded x) (encoded y) (map encoded xs) ne
map-Shuffle (trans s t) = trans (map-Shuffle s) (map-Shuffle t)

encode_object :
    (fs gs : DynamicObject)
    → sort_on field_key (encode_fields fs) ≡ sort_on field_key (encode_fields gs)
    → encode_value (object_value fs) ≡ encode_value (object_value gs)
unfolding encode_value
encode_object fs gs e = rw e

-- Two objects whose fields are rearranged by exchanges of neighbours with different keys have
-- the same canonical bytes, or fail alike.
pub encode_value-Shuffle :
    (l m : List (Text × DynamicValue))
    → Shuffle field_key l m
    → encode_value (object_value (of_fields l)) ≡ encode_value (object_value (of_fields m))
encode_value-Shuffle l m s = encode_object (of_fields l) (of_fields m) (
    rw (encode_fields-of_fields l, encode_fields-of_fields m)
      (sort_on-Shuffle field_key (map-Shuffle s)))

-- Finite numbers only, and no file.
unfoldable mutual
  pub canonical : DynamicValue → Bool
  canonical (number_value n) = is_finite n
  canonical (list_value vs) = canonical_items vs
  canonical (object_value fs) = canonical_fields fs
  canonical (artifact_ref a) = false
  canonical _ = true

  pub canonical_items : DynamicList → Bool
  canonical_items no_items = true
  canonical_items (cons v vs) = canonical v && canonical_items vs

  pub canonical_fields : DynamicObject → Bool
  canonical_fields empty = true
  canonical_fields (field key v fs) = canonical v && canonical_fields fs

abbrev all_ok : List (Text × Result Bytes DigestError) → Bool
all_ok = all (λ f. is_ok f.1)

all_ok-place :
    (x : Text × Result Bytes DigestError) (l : List (Text × Result Bytes DigestError))
    → all_ok (place field_key x l) ≡ is_ok x.1 && all_ok l
unfolding place
all_ok-place x [] = refl
all_ok-place x (y ∷ l) = ground (arith, all_ok-place x l)

all_ok-sort_on :
    (l : List (Text × Result Bytes DigestError)) → all_ok (sort_on field_key l) ≡ all_ok l
unfolding sort_on
all_ok-sort_on [] = refl
all_ok-sort_on (x ∷ l) =
    all_ok-place x (sort_on field_key l) ∙ ap (λ b. is_ok x.1 && b) (all_ok-sort_on l)

is_ok-write_fields :
    (l : List (Text × Result Bytes DigestError)) → is_ok (write_fields l) ≡ all_ok l
unfolding write_fields
is_ok-write_fields [] = refl
is_ok-write_fields ((key, ok b) ∷ l) = ground (arith, is_ok-write_fields l)
is_ok-write_fields ((key, err e) ∷ l) = refl

is_ok_object :
    (fs : DynamicObject) → is_ok (encode_value (object_value fs)) ≡ all_ok (encode_fields fs)
unfolding encode_value
is_ok_object fs = ground (
  arith,
  is_ok-write_fields (sort_on field_key (encode_fields fs)),
  all_ok-sort_on (encode_fields fs),
)

is_ok_pair :
    (m n : Result Bytes DigestError)
    → is_ok (m >>= λ b. n >>= λ c. ok (b ++ c)) ≡ is_ok m && is_ok n
is_ok_pair (ok b) (ok c) = refl
is_ok_pair (ok b) (err e) = refl
is_ok_pair (err e) n = refl

is_ok_tagged :
    (m : Result Bytes DigestError) (f : Bytes → Bytes) → is_ok (m >>= λ b. ok (f b)) ≡ is_ok m
is_ok_tagged (ok b) f = refl
is_ok_tagged (err e) f = refl

mutual
  unfolding canonical encode_value

  is_ok_value : (v : DynamicValue) → is_ok (encode_value v) ≡ canonical v
  is_ok_value unset = refl
  is_ok_value (boolean_value b) = refl
  is_ok_value (integer_value i) = refl
  is_ok_value (number_value n) = ground arith
  is_ok_value (string_value s) = refl
  is_ok_value (bytes_value b) = refl
  is_ok_value (list_value vs) =
      is_ok_tagged (encode_items vs) (λ b. 0x06 ∷ (push_len (length_list vs) ++ b)) ∙ is_ok_items vs
  is_ok_value (object_value fs) = is_ok_object fs ∙ all_ok_fields fs
  is_ok_value (artifact_ref a) = refl

  is_ok_items : (vs : DynamicList) → is_ok (encode_items vs) ≡ canonical_items vs
  is_ok_items no_items = refl
  is_ok_items (cons v vs) =
      is_ok_pair (encode_value v) (encode_items vs) ∙ (λ i. is_ok_value v i && is_ok_items vs i)

  all_ok_fields : (fs : DynamicObject) → all_ok (encode_fields fs) ≡ canonical_fields fs
  all_ok_fields empty = refl
  all_ok_fields (field key v fs) = λ i. is_ok_value v i && all_ok_fields fs i

-- A value has canonical bytes exactly when all its numbers are finite and it holds no file, at
-- any depth.
pub is_ok-encode_value : (v : DynamicValue) → is_ok (encode_value v) ≡ canonical v
is_ok-encode_value v = is_ok_value v
