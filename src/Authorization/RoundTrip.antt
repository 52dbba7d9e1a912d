-- ===== src/Authorization/RoundTrip.antt =====
-- The canonical form of a value reads back: `encode_value` loses nothing but the order of keys and
-- the sign of zero.
use galax_ia_sdk.Prelude.{
  ℕ, zero, suc, ◌+◌, ◌^◌, ◌≤◌, ◌<◌, ◌≡◌, ◌∙◌, some, ◌++◌, arith, All, append_assoc, some,
}
use galax_ia_sdk.Prelude.Result.{ok}
use galax_ia_sdk.Prelude.Sort.{sort_on, sort_on-All}
use galax_ia_sdk.Text.{Bytes}
use galax_ia_sdk.Protocol.{
  DynamicValue, unset, boolean_value, integer_value, number_value, string_value, bytes_value,
  list_value, object_value, artifact_ref, DynamicList, nil, cons, DynamicObject, empty, field,
}
use galax_ia_sdk.Authorization.{encode_value, encode_items, length_list, push_len, field_key}
use galax_ia_sdk.Authorization.Decoder.{
  read_items, read_value, of_fields, normal, normal_items, normal_fields, depth, depth_items,
  depth_fields, Fits, FitsItems, FitsFields, length_object,
}
use galax_ia_sdk.Authorization.Reads.{
  both_key, both_fields, ReadsBack, BackTo, read_fields-write_fields, list_parts, items_parts,
  object_parts, sorted_values, length_sorted, read_tag, read_list, read_object, unset_back,
  boolean_back, integer_back, number_back, string_back, bytes_back,
}

depth_pos : (v : DynamicValue) → 0 < depth v
unfolding depth
depth_pos unset = omega arith
depth_pos _ = omega arith

list_back :
    (fuel : ℕ) (vs : DynamicList)
    → length_list vs < 2 ^ 32
    → ((out rest : Bytes)
        → encode_items vs ≡ ok out
        → read_items (read_value fuel) (length_list vs) (out ++ rest)
          ≡ some (normal_items vs, rest))
    → BackTo (suc fuel) (list_value vs) (list_value (normal_items vs))
list_back fuel vs short back out rest h =
    let (items, e, eq) = list_parts vs out h in
    read_tag fuel 0x06 out (push_len (length_list vs) ++ items) rest eq
    ∙ read_list fuel (length_list vs) items rest (normal_items vs) short (back items rest e)

object_back :
    (fuel : ℕ) (fs : DynamicObject)
    → length_object fs < 2 ^ 32
    → All (ReadsBack fuel) (both_fields fs)
    → BackTo
        (suc fuel)
        (object_value fs)
        (object_value (of_fields (sort_on field_key (normal_fields fs))))
object_back fuel fs short good out rest h =
    let (written, e, eq) = object_parts fs out h in
    let sorted = sort_on both_key (both_fields fs) in
    let back =
      read_fields-write_fields fuel sorted written rest
        (sort_on-All both_key (ReadsBack fuel) (both_fields fs) good) e in
    read_tag fuel 0x07 out (push_len (length_object fs) ++ written) rest eq
    ∙ read_object fuel (length_object fs) written rest _ short
        (rw (length_sorted fs, sorted_values fs) at back)

mutual
  unfolding normal depth Fits encode_value read_items both_fields length_list

  pub back :
      (v : DynamicValue) (fuel : ℕ) → Fits v → depth v ≤ suc fuel → BackTo (suc fuel) v (normal v)
  back unset fuel fits deep = unset_back fuel
  back (boolean_value b) fuel fits deep = boolean_back fuel b
  back (integer_value i) fuel fits deep = integer_back fuel i fits
  back (number_value n) fuel fits deep = number_back fuel n fits
  back (string_value s) fuel fits deep = string_back fuel s fits.0 fits.1
  back (bytes_value b) fuel fits deep = bytes_back fuel b fits
  back (list_value vs) fuel fits deep =
      list_back fuel vs fits.0 (back_items vs fuel fits.1 (omega arith))
  back (object_value fs) fuel fits deep =
      object_back fuel fs fits.0 (back_fields fs fuel fits.1 (omega arith))
  back (artifact_ref a) fuel fits deep = λ out rest h. cc

  back_items :
      (vs : DynamicList) (fuel : ℕ)
      → FitsItems vs
      → depth_items vs ≤ fuel
      → (out rest : Bytes) → encode_items vs ≡ ok out
      → read_items (read_value fuel) (length_list vs) (out ++ rest) ≡ some (normal_items vs, rest)
  back_items nil fuel fits deep out rest h = ground arith
  back_items (cons v vs) zero fits deep out rest h = absurd (omega (arith, depth_pos v))
  back_items (cons v vs) (suc fuel) fits deep out rest h =
      let (b, more, e, e', eq) = items_parts v vs out h in
      rw (
        eq,
        append_assoc b more rest,
        back v fuel fits.0 (omega arith) b (more ++ rest) e,
        back_items vs (suc fuel) fits.1 (omega arith) more rest e',
      )

  back_fields :
      (fs : DynamicObject) (fuel : ℕ)
      → FitsFields fs
      → depth_fields fs ≤ fuel
      → All (ReadsBack fuel) (both_fields fs)
  back_fields empty fuel fits deep = tt
  back_fields (field key v fs) zero fits deep = absurd (omega (arith, depth_pos v))
  back_fields (field key v fs) (suc fuel) fits deep = (
    (fits.0, fits.1, back v fuel fits.2 (omega arith)),
    back_fields fs (suc fuel) fits.3 (omega arith),
  )

-- The canonical bytes of a value of the types of the program, with lengths below 2^32 and
-- whatever follows them, read back as that value with its keys in order and 0.0 for -0.0, and
-- the rest is left.
pub read_value-encode_value :
    (v : DynamicValue) (out rest : Bytes)
    → Fits v
    → encode_value v ≡ ok out
    → read_value (depth v + 1) (out ++ rest) ≡ some (normal v, rest)
read_value-encode_value v out rest fits h =
    let e : depth v + 1 ≡ suc (depth v) = omega arith in
    rw e (back v (depth v) fits (omega arith) out rest h)
