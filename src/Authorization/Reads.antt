-- ===== src/Authorization/Reads.antt =====
-- Parts of the encoding of authorization.rs read back one by one.
use galax_ia_sdk.Prelude.{
  ℕ, suc, ◌^◌, ◌<◌, ◌≡◌, refl, ap, ◌∙◌, sym, Bool, true, false, some, List, [], ◌∷◌, ◌++◌, map,
  arith, length, take-append, drop-append, All, append_assoc, length-map,
}
use galax_ia_sdk.Prelude.Int.{ℤ, pos, negsuc}
use galax_ia_sdk.Prelude.Result.{Result, ok, >>=-eq-ok}
use galax_ia_sdk.Prelude.Sort.{sort_on, map-sort_on, length-sort_on}
use galax_ia_sdk.Text.{Text, Bytes, IsText}
use galax_ia_sdk.Text.Utf8.{as_bytes, decode_utf8-as_bytes}
use galax_ia_sdk.Text.Decimal.{IsI64}
use galax_ia_sdk.Protocol.{
  DynamicValue, unset, boolean_value, integer_value, number_value, string_value, bytes_value,
  list_value, object_value, DynamicList, cons, DynamicObject, empty, field,
}
use galax_ia_sdk.Authorization.{
  DigestError, be_bytes, push_len, push_bytes, i64_bits, plain_zero, bool_byte, field_key,
  write_fields, length_list, encode_value, encode_items, encode_fields,
}
use galax_ia_sdk.Authorization.Decoder.{
  read_be, read_bytes, i64_of_bits, read_items, read_fields, read_tagged, read_value, of_fields,
  normal, normal_fields, length_object, IsShort,
}

pub read_be-push_len :
    (n : ℕ) (rest : Bytes) → n < 2 ^ 32 → read_be 4 0 (push_len n ++ rest) ≡ some (n, rest)
unfolding read_be push_len
read_be-push_len n rest h = ground arith

pub read_be-be_bytes :
    (n : ℕ) (rest : Bytes) → n < 2 ^ 64 → read_be 8 0 (be_bytes 8 n ++ rest) ≡ some (n, rest)
unfolding read_be be_bytes
read_be-be_bytes n rest h = ground arith

pub read_bytes-push_bytes :
    (b rest : Bytes) → IsShort b → read_bytes (push_bytes b ++ rest) ≡ some (b, rest)
unfolding read_bytes push_bytes
read_bytes-push_bytes b rest h = rw (
  append_assoc (push_len (length b)) b rest,
  read_be-push_len (length b) (b ++ rest) h,
  take-append b rest,
  drop-append b rest,
)

pub i64_of_bits-i64_bits : (i : ℤ) → IsI64 i → i64_of_bits (i64_bits i) ≡ i
unfolding i64_of_bits i64_bits
i64_of_bits-i64_bits (pos n) h = ground arith
i64_of_bits-i64_bits (negsuc n) h = ground arith

pub i64_bits_fit : (i : ℤ) → IsI64 i → i64_bits i < 2 ^ 64
unfolding i64_bits
i64_bits_fit (pos n) h = omega arith
i64_bits_fit (negsuc n) h = omega arith

pub plain_zero_fits : (n : ℕ) → n < 2 ^ 64 → plain_zero n < 2 ^ 64
unfolding plain_zero
plain_zero_fits n h = ground arith

-- A field with its encoding and its normal form.
abbrev pub Both : Type 0
Both = Text × Result Bytes DigestError × DynamicValue

abbrev pub coded : Both → Text × Result Bytes DigestError
coded (key, bytes, v) = (key, bytes)

abbrev pub valued : Both → Text × DynamicValue
valued (key, bytes, v) = (key, v)

abbrev pub both_key : Both → Bytes
both_key b = as_bytes b.0

unfoldable pub both_fields : DynamicObject → List Both
both_fields empty = []
both_fields (field key v fs) = (key, encode_value v, normal v) ∷ both_fields fs

pub map-coded : (fs : DynamicObject) → map coded (both_fields fs) ≡ encode_fields fs
unfolding both_fields encode_fields
map-coded empty = refl
map-coded (field key v fs) = ap (◌∷◌ (key, encode_value v)) (map-coded fs)

pub map-valued : (fs : DynamicObject) → map valued (both_fields fs) ≡ normal_fields fs
unfolding both_fields normal_fields
map-valued empty = refl
map-valued (field key v fs) = ap (◌∷◌ (key, normal v)) (map-valued fs)

pub length-both_fields : (fs : DynamicObject) → length (both_fields fs) ≡ length_object fs
unfolding both_fields length_object
length-both_fields empty = refl
length-both_fields (field key v fs) = ap suc (length-both_fields fs)

-- The reader gets the normal form of a field back.
abbrev pub ReadsBack : ℕ → Both → Type 0
ReadsBack fuel (key, bytes, v) =
    IsText key
    × IsShort (as_bytes key)
    × ((out rest : Bytes) → bytes ≡ ok out → read_value fuel (out ++ rest) ≡ some (v, rest))

pub read_fields-write_fields :
    (fuel : ℕ) (l : List Both) (out rest : Bytes)
    → All (ReadsBack fuel) l
    → write_fields (map coded l) ≡ ok out
    → read_fields (read_value fuel) (length l) (out ++ rest) ≡ some (of_fields (map valued l), rest)
unfolding read_fields write_fields of_fields
read_fields-write_fields fuel [] out rest good h = ground arith
read_fields-write_fields fuel ((key, bytes, v) ∷ l) out rest ((text, short, back), good) h =
    let (b, eb, h') = >>=-eq-ok bytes _ h in
    let (more, em, h'') = >>=-eq-ok (write_fields (map coded l)) _ h' in
    let e : out ≡ push_bytes (as_bytes key) ++ (b ++ more) = ground arith in
    rw (
      e,
      append_assoc (push_bytes (as_bytes key)) (b ++ more) rest,
      append_assoc b more rest,
      read_bytes-push_bytes (as_bytes key) (b ++ (more ++ rest)) short,
      back b (more ++ rest) eb,
      read_fields-write_fields fuel l more rest good em,
      decode_utf8-as_bytes key text,
    )

-- The encoding of a list, taken apart.
pub list_parts :
    (vs : DynamicList) (out : Bytes)
    → encode_value (list_value vs) ≡ ok out
    → (items : Bytes) × (encode_items vs ≡ ok items)
      × (out ≡ 0x06 ∷ (push_len (length_list vs) ++ items))
unfolding encode_value
list_parts vs out h =
    let (items, e, k) = >>=-eq-ok (encode_items vs) _ h in (items, e, ground arith)

pub items_parts :
    (v : DynamicValue) (vs : DynamicList) (out : Bytes)
    → encode_items (cons v vs) ≡ ok out
    → (b more : Bytes) × (encode_value v ≡ ok b) × (encode_items vs ≡ ok more) × (out ≡ b ++ more)
unfolding encode_value
items_parts v vs out h =
    let (b, e, k) = >>=-eq-ok (encode_value v) _ h in
    let (more, e', k') = >>=-eq-ok (encode_items vs) _ k in (b, more, e, e', ground arith)

pub object_parts :
    (fs : DynamicObject) (out : Bytes)
    → encode_value (object_value fs) ≡ ok out
    → (written : Bytes) × (write_fields (map coded (sort_on both_key (both_fields fs)))
        ≡ ok written)
      × (out ≡ 0x07 ∷ (push_len (length_object fs) ++ written))
unfolding encode_value
object_parts fs out h =
    let sorted : map coded (sort_on both_key (both_fields fs))
        ≡ sort_on field_key (encode_fields fs) =
      map-sort_on both_key field_key coded (λ b. refl) (both_fields fs)
      ∙ ap (sort_on field_key) (map-coded fs) in
    let count : length (sort_on field_key (encode_fields fs)) ≡ length_object fs =
      length-sort_on field_key (encode_fields fs)
      ∙ ap length (sym (map-coded fs))
      ∙ length-map (both_fields fs) coded
      ∙ length-both_fields fs in
    let (written, e, k) = >>=-eq-ok (write_fields (sort_on field_key (encode_fields fs))) _ h in
    (written, rw sorted e, ground (arith, count))

pub sorted_values :
    (fs : DynamicObject)
    → map valued (sort_on both_key (both_fields fs)) ≡ sort_on field_key (normal_fields fs)
sorted_values fs =
    map-sort_on both_key field_key valued (λ b. refl) (both_fields fs)
    ∙ ap (sort_on field_key) (map-valued fs)

pub length_sorted :
    (fs : DynamicObject) → length (sort_on both_key (both_fields fs)) ≡ length_object fs
length_sorted fs = length-sort_on both_key (both_fields fs) ∙ length-both_fields fs

pub read_tag :
    (fuel tag : ℕ) (out more rest : Bytes)
    → out ≡ tag ∷ more
    → read_value (suc fuel) (out ++ rest) ≡ read_tagged (read_value fuel) tag (more ++ rest)
unfolding read_value
read_tag fuel tag out more rest e = rw e

pub read_list :
    (fuel n : ℕ) (items rest : Bytes) (vs : DynamicList)
    → n < 2 ^ 32
    → read_items (read_value fuel) n (items ++ rest) ≡ some (vs, rest)
    → read_tagged (read_value fuel) 0x06 ((push_len n ++ items) ++ rest)
      ≡ some (list_value vs, rest)
unfolding read_tagged
read_list fuel n items rest vs h e =
    rw (append_assoc (push_len n) items rest, read_be-push_len n (items ++ rest) h, e)

pub read_object :
    (fuel n : ℕ) (written rest : Bytes) (fs : DynamicObject)
    → n < 2 ^ 32
    → read_fields (read_value fuel) n (written ++ rest) ≡ some (fs, rest)
    → read_tagged (read_value fuel) 0x07 ((push_len n ++ written) ++ rest)
      ≡ some (object_value fs, rest)
unfolding read_tagged
read_object fuel n written rest fs h e =
    rw (append_assoc (push_len n) written rest, read_be-push_len n (written ++ rest) h, e)

abbrev pub BackTo : ℕ → DynamicValue → DynamicValue → Type 0
BackTo fuel v w =
    (out rest : Bytes) → encode_value v ≡ ok out → read_value fuel (out ++ rest) ≡ some (w, rest)

pub boolean_back : (fuel : ℕ) (b : Bool) → BackTo (suc fuel) (boolean_value b) (boolean_value b)
unfolding encode_value bool_byte read_value read_tagged read_be
boolean_back fuel true out rest h = ground arith
boolean_back fuel false out rest h = ground arith

pub integer_back :
    (fuel : ℕ) (i : ℤ) → IsI64 i → BackTo (suc fuel) (integer_value i) (integer_value i)
unfolding encode_value read_tagged
integer_back fuel i fits out rest h =
    read_tag fuel 0x02 out (be_bytes 8 (i64_bits i)) rest (ground arith)
    ∙ rw (read_be-be_bytes (i64_bits i) rest (i64_bits_fit i fits), i64_of_bits-i64_bits i fits)

pub number_back :
    (fuel n : ℕ) → n < 2 ^ 64 → BackTo (suc fuel) (number_value n) (number_value (plain_zero n))
unfolding encode_value read_tagged
number_back fuel n fits out rest h =
    read_tag fuel 0x03 out (be_bytes 8 (plain_zero n)) rest (ground arith)
    ∙ rw (read_be-be_bytes (plain_zero n) rest (plain_zero_fits n fits))

pub string_back :
    (fuel : ℕ) (s : Text)
    → IsText s
    → IsShort (as_bytes s)
    → BackTo (suc fuel) (string_value s) (string_value s)
unfolding encode_value read_tagged
string_back fuel s text short out rest h =
    read_tag fuel 0x04 out (push_bytes (as_bytes s)) rest (ground arith)
    ∙ rw (read_bytes-push_bytes (as_bytes s) rest short, decode_utf8-as_bytes s text)

pub bytes_back :
    (fuel : ℕ) (b : Bytes) → IsShort b → BackTo (suc fuel) (bytes_value b) (bytes_value b)
unfolding encode_value read_tagged
bytes_back fuel b short out rest h =
    read_tag fuel 0x05 out (push_bytes b) rest (ground arith)
    ∙ rw (read_bytes-push_bytes b rest short)

pub unset_back : (fuel : ℕ) → BackTo (suc fuel) unset unset
unfolding encode_value read_value read_tagged
unset_back fuel out rest h = ground arith
