-- ===== src/Authorization/Decoder.antt =====
-- A reader of the canonical form: what the bytes of `encode_value` determine.
use galax_ia_sdk.Prelude.{
  ℕ, zero, suc, ◌+◌, ◌-◌, ◌*◌, ◌^◌, ◌<◌, Option, none, some, List, [], ◌∷◌, length, take, drop, ltb,
  ◌==◌, if◌then◌else◌, max,
}
use galax_ia_sdk.Prelude.Int.{ℤ, pos, negsuc}
use galax_ia_sdk.Prelude.Sort.{sort_on}
use galax_ia_sdk.Text.{Text, Bytes, IsText}
use galax_ia_sdk.Text.Utf8.{as_bytes, decode_utf8}
use galax_ia_sdk.Text.Decimal.{IsI64}
use galax_ia_sdk.Protocol.{
  DynamicValue, unset, boolean_value, integer_value, number_value, string_value, bytes_value,
  list_value, object_value, artifact_ref, DynamicList, nil, cons, DynamicObject, empty, field,
}
use galax_ia_sdk.Authorization.{length_list, field_key, plain_zero}

infixl 5 ◌>>=◌
abbrev pub ◌>>=◌ : {A B : Type 0} → Option A → (A → Option B) → Option B
none >>= f = none
some a >>= f = f a

abbrev pub Reader : Type 0 → Type 0
Reader A = Bytes → Option (A × Bytes)

-- the value of big-endian bytes, after a value that stands before them
unfoldable pub read_be : ℕ → ℕ → Reader ℕ
read_be zero acc bs = some (acc, bs)
read_be (suc n) acc [] = none
read_be (suc n) acc (b ∷ bs) = read_be n (acc * 256 + b) bs

unfoldable pub read_bytes : Reader Bytes
read_bytes bs = do (n, rest) ← read_be 4 0 bs; some (take n rest, drop n rest)

unfoldable pub i64_of_bits : ℕ → ℤ
i64_of_bits b = if ltb b (2 ^ 63) then pos b else negsuc (2 ^ 64 - 1 - b)

module _ (value : Reader DynamicValue) where
  unfoldable pub read_items : ℕ → Reader DynamicList
  read_items zero bs = some (nil, bs)
  read_items (suc n) bs = do
    (v, rest) ← value bs
    (vs, rest') ← read_items n rest
    some (cons v vs, rest')

  unfoldable pub read_fields : ℕ → Reader DynamicObject
  read_fields zero bs = some (empty, bs)
  read_fields (suc n) bs = do
    (key, rest) ← read_bytes bs
    (v, rest') ← value rest
    (fs, rest'') ← read_fields n rest'
    some (field (decode_utf8 0 0 key) v fs, rest'')

  -- what stands behind a tag
  unfoldable pub read_tagged : ℕ → Reader DynamicValue
  read_tagged tag bs =
      if tag == 0x00
      then some (unset, bs)
      else if tag == 0x01
      then (do (b, rest) ← read_be 1 0 bs; some (boolean_value (b == 1), rest))
      else if tag == 0x02
      then (do (b, rest) ← read_be 8 0 bs; some (integer_value (i64_of_bits b), rest))
      else if tag == 0x03
      then (do (b, rest) ← read_be 8 0 bs; some (number_value b, rest))
      else if tag == 0x04
      then (do (b, rest) ← read_bytes bs; some (string_value (decode_utf8 0 0 b), rest))
      else if tag == 0x05
      then (do (b, rest) ← read_bytes bs; some (bytes_value b, rest))
      else if tag == 0x06
      then (do
        (n, rest) ← read_be 4 0 bs
        (vs, rest') ← read_items n rest
        some (list_value vs, rest'))
      else if tag == 0x07
      then (do
        (n, rest) ← read_be 4 0 bs
        (fs, rest') ← read_fields n rest
        some (object_value fs, rest'))
      else none

unfoldable pub read_value : ℕ → Reader DynamicValue
read_value zero bs = none
read_value (suc fuel) [] = none
read_value (suc fuel) (tag ∷ bs) = read_tagged (read_value fuel) tag bs

unfoldable pub of_fields : List (Text × DynamicValue) → DynamicObject
of_fields [] = empty
of_fields ((key, v) ∷ more) = field key v (of_fields more)

-- The value that two encodings have in common: objects with their keys in order, and no -0.0.
unfoldable mutual
  pub normal : DynamicValue → DynamicValue
  normal unset = unset
  normal (boolean_value b) = boolean_value b
  normal (integer_value i) = integer_value i
  normal (number_value n) = number_value (plain_zero n)
  normal (string_value s) = string_value s
  normal (bytes_value b) = bytes_value b
  normal (list_value vs) = list_value (normal_items vs)
  normal (object_value fs) = object_value (of_fields (sort_on field_key (normal_fields fs)))
  normal (artifact_ref a) = artifact_ref a

  pub normal_items : DynamicList → DynamicList
  normal_items nil = nil
  normal_items (cons v vs) = cons (normal v) (normal_items vs)

  pub normal_fields : DynamicObject → List (Text × DynamicValue)
  normal_fields empty = []
  normal_fields (field key v fs) = (key, normal v) ∷ normal_fields fs

unfoldable pub length_object : DynamicObject → ℕ
length_object empty = 0
length_object (field key v fs) = suc (length_object fs)

-- The nesting depth, which is enough fuel for the reader.
unfoldable mutual
  pub depth : DynamicValue → ℕ
  depth unset = 1
  depth (boolean_value b) = 1
  depth (integer_value i) = 1
  depth (number_value n) = 1
  depth (string_value s) = 1
  depth (bytes_value b) = 1
  depth (list_value vs) = suc (depth_items vs)
  depth (object_value fs) = suc (depth_fields fs)
  depth (artifact_ref a) = 1

  pub depth_items : DynamicList → ℕ
  depth_items nil = 0
  depth_items (cons v vs) = max (depth v) (depth_items vs)

  pub depth_fields : DynamicObject → ℕ
  depth_fields empty = 0
  depth_fields (field key v fs) = max (depth v) (depth_fields fs)

-- The values of the program's types: integers of 64 bits, texts of code points, and lengths that
-- a u32 holds.
abbrev pub IsShort : Bytes → Type 0
IsShort bs = length bs < 2 ^ 32

unfoldable mutual
  pub Fits : DynamicValue → Type 0
  Fits unset = Unit
  Fits (boolean_value b) = Unit
  Fits (integer_value i) = IsI64 i
  Fits (number_value n) = n < 2 ^ 64
  Fits (string_value s) = IsText s × IsShort (as_bytes s)
  Fits (bytes_value b) = IsShort b
  Fits (list_value vs) = (length_list vs < 2 ^ 32) × FitsItems vs
  Fits (object_value fs) = (length_object fs < 2 ^ 32) × FitsFields fs
  Fits (artifact_ref a) = Unit

  pub FitsItems : DynamicList → Type 0
  FitsItems nil = Unit
  FitsItems (cons v vs) = Fits v × FitsItems vs

  pub FitsFields : DynamicObject → Type 0
  FitsFields empty = Unit
  FitsFields (field key v fs) = IsText key × IsShort (as_bytes key) × Fits v × FitsFields fs
