-- ===== src/Tests/Dynamic.antt =====
-- Runs of rust/fhs/src/p2p/dynamic.rs, as its tests do, with a base64 that keeps the bytes.
use galax_ia_sdk.Prelude.{arith, ℕ, ◌≡◌, refl, Option, some, [], ◌∷◌, ◌↔◌}
use galax_ia_sdk.Prelude.Int.{pos}
use galax_ia_sdk.Prelude.Lex.{lex_lt, list_eq}
use galax_ia_sdk.Prelude.Result.{ok, err}
use galax_ia_sdk.Text.{Text, Bytes, codes}
use galax_ia_sdk.Text.Decimal.{print_ℕ}
use galax_ia_sdk.Text.Utf8.{as_bytes}
use galax_ia_sdk.Protocol.{
  DynamicValue, integer_value, number_value, string_value, list_value, object_value, artifact_ref,
  inline, nil, cons, empty, field,
}
use galax_ia_sdk.Authorization.{is_finite}
use galax_ia_sdk.Dynamic.{
  Number, integer, float, Json, null, number, array, object, no_items, item, no_entries, entry,
  null_not_allowed, from_json_at, artifact_of, find, index_path, key_path, from_json, to_json,
}
use galax_ia_sdk.Dynamic.RoundTrip.{Travels, from_json-to_json}
use galax_ia_sdk.Dynamic.Nulls.{FirstNull, from_json-FirstNull}

abbrev plain_encode : Bytes → Text
plain_encode b = b

abbrev plain_decode : Text → Option Bytes
plain_decode t = some t

abbrev plain_number : ℕ → Option Number
plain_number n = some (float n)

abbrev plain_float : Number → ℕ
plain_float (integer i) = 0
plain_float (float n) = n

-- {"file": {"transport": "inline", …}, "items": [3, 0.25, "dos"], "lang": "spa"}
abbrev arguments : DynamicValue
arguments = object_value (
    field (codes "file")
      (artifact_ref (inline (record { content = 1 ∷ 2 ∷ []; filename = codes "a.pdf" })))
      (field (codes "items")
        (list_value (
          cons (integer_value (pos 3))
            (cons (number_value 0x3fd0000000000000) (cons (string_value (codes "dos")) nil))))
        (field (codes "lang") (string_value (codes "spa")) empty)))

arguments-Travels : Travels arguments
unfolding is_finite list_eq lex_lt as_bytes
arguments-Travels =
    (refl, ((refl, (refl, tt)), tt, ((refl, tt), (omega arith, (refl, (tt, tt))), (tt, tt, tt))))

from_json-to_json_example :
    from_json plain_decode plain_float (to_json plain_encode plain_number arguments) ≡ ok arguments
from_json-to_json_example =
    from_json-to_json plain_encode plain_decode plain_number plain_float (λ b. refl) (λ n h. refl)
      (λ n. refl) arguments arguments-Travels

-- {"a": [1, null]}
abbrev with_null : Json
with_null =
    object
      (entry (codes "a") (array (item (number (integer (pos 1))) (item null no_items))) no_entries)

from_json-FirstNull_example :
    (from_json plain_decode plain_float with_null ≡ err (null_not_allowed (codes "$.a[1]")))
    ↔ FirstNull plain_decode with_null (codes "$") (codes "$.a[1]")
from_json-FirstNull_example =
    from_json-FirstNull plain_decode plain_float with_null (codes "$.a[1]")

with_null-reported :
    from_json plain_decode plain_float with_null ≡ err (null_not_allowed (codes "$.a[1]"))
unfolding from_json from_json_at artifact_of find list_eq index_path key_path print_ℕ
with_null-reported = refl
