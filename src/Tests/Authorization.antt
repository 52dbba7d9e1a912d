-- ===== src/Tests/Authorization.antt =====
-- rust/fhs/src/authorization.rs on concrete inputs, with a hash that keeps its input.
use galax_ia_sdk.Prelude.{
  ◌<◌, ◌^◌, ◌*◌, length, All, ◌+◌, ◌≡◌, ◌⊎◌, refl, some, true, false, List, [], ◌∷◌, ◌++◌, arith,
}
use galax_ia_sdk.Prelude.Int.{pos, negsuc}
use galax_ia_sdk.Prelude.Lex.{lex_lt}
use galax_ia_sdk.Prelude.Result.{ok}
use galax_ia_sdk.Prelude.Sort.{swap, Shuffle, sort_on}
use galax_ia_sdk.Text.{Text, Bytes, codes}
use galax_ia_sdk.Text.Utf8.{as_bytes}
use galax_ia_sdk.Protocol.{
  DynamicValue, boolean_value, integer_value, number_value, object_value, field, empty,
  AuthorizationItem,
}
use galax_ia_sdk.Authorization.{
  encode_value, domain_query, value_digest, framed, framed_input, field_key, item_key, write_fields,
  push_bytes, push_len, be_bytes, i64_bits, is_finite, bool_byte,
}
use galax_ia_sdk.Authorization.Decoder.{of_fields, normal, Fits, length_object, depth, read_value}
use galax_ia_sdk.Authorization.RoundTrip.{read_value-encode_value}
use galax_ia_sdk.Authorization.Binding.{Collision, value_digest_binding}
use galax_ia_sdk.Authorization.Batch.{ItemFits}
use galax_ia_sdk.Authorization.BatchDigest.{
  Batch, BatchFits, covered_part, batch_digest_binding, batch_digest_order,
}
use galax_ia_sdk.Authorization.Order.{canonical, encode_value-Shuffle}

abbrev plain_hash : Bytes → Bytes
plain_hash b = 7 ∷ b

abbrev two : List (Text × DynamicValue)
two = (codes "b", integer_value (negsuc 4)) ∷ (codes "a", boolean_value true) ∷ []

abbrev two_back : List (Text × DynamicValue)
two_back = (codes "a", boolean_value true) ∷ (codes "b", integer_value (negsuc 4)) ∷ []

abbrev arguments : DynamicValue
arguments =
    object_value
      (field (codes "b") (integer_value (negsuc 4)) (field (codes "a") (boolean_value true) empty))

abbrev arguments_back : DynamicValue
arguments_back =
    object_value
      (field (codes "a") (boolean_value true) (field (codes "b") (integer_value (negsuc 4)) empty))

abbrev arguments_bytes : Bytes
arguments_bytes =
    0x07 ∷ 0 ∷ 0 ∷ 0 ∷ 2 ∷ 0 ∷ 0 ∷ 0 ∷ 1 ∷ 97 ∷ 0x01 ∷ 1 ∷ 0 ∷ 0 ∷ 0 ∷ 1 ∷ 98 ∷ 0x02 ∷ 255 ∷ 255
    ∷ 255 ∷ 255 ∷ 255 ∷ 255 ∷ 255 ∷ 251 ∷ []

arguments_run : encode_value arguments ≡ ok arguments_bytes
unfolding encode_value sort_on lex_lt write_fields push_bytes push_len be_bytes as_bytes i64_bits
    bool_byte
arguments_run = refl

arguments_back_run : encode_value arguments_back ≡ ok arguments_bytes
unfolding encode_value sort_on lex_lt write_fields push_bytes push_len be_bytes as_bytes i64_bits
    bool_byte
arguments_back_run = refl

arguments-Fits : Fits arguments
unfolding Fits as_bytes length_object
arguments-Fits = omega arith

arguments_back-Fits : Fits arguments_back
unfolding Fits as_bytes length_object
arguments_back-Fits = omega arith

read_value-encode_value_example :
    read_value (depth arguments + 1) (arguments_bytes ++ (9 ∷ [])) ≡ some (normal arguments, 9 ∷ [])
read_value-encode_value_example =
    read_value-encode_value arguments arguments_bytes (9 ∷ []) arguments-Fits arguments_run

value_digest_binding_example :
    ((domain_query ≡ domain_query) × (normal arguments ≡ normal arguments_back))
    ⊎ Collision plain_hash
unfolding value_digest framed framed_input
value_digest_binding_example =
    value_digest_binding plain_hash domain_query domain_query
      (7 ∷ (domain_query ++ (0 ∷ 49 ∷ 0 ∷ arguments_bytes))) arguments arguments_back (omega arith)
      (omega arith) arguments-Fits arguments_back-Fits (rw arguments_run) (rw arguments_back_run)

two-Shuffle : Shuffle field_key two two_back
unfolding as_bytes
two-Shuffle =
    swap (codes "b", integer_value (negsuc 4)) (codes "a", boolean_value true) []
      (λ e. ground arith)

encode_value-Shuffle_example :
    encode_value (object_value (of_fields two)) ≡ encode_value (object_value (of_fields two_back))
encode_value-Shuffle_example = encode_value-Shuffle two two_back two-Shuffle

abbrev endless : DynamicValue
endless = object_value (field (codes "n") (number_value (0x7ff * 2 ^ 52)) empty)

endless_run : canonical endless ≡ false
unfolding canonical is_finite
endless_run = refl

abbrev item : Text → List Text → AuthorizationItem
item id depends_on = record {
  item_id = id;
  capability_id = codes "document.ocr";
  provider_did = codes "did:key:z6Mk";
  provider_name = codes "OCR node";
  trust_level = codes "community";
  policy_version = codes "1";
  data_summary = codes "PDF";
  first_time_node = true;
  public_network = false;
  failover = false;
  side_effects = false;
  retry = false;
  implicit = false;
  payload_digest = 1 ∷ 2 ∷ [];
  data_class = pos 1;
  destination = pos 2;
  retention = pos 1;
  depends_on = depends_on;
  contract_fingerprint = codes "";
  tool_name = codes "";
  registry_digest = codes "";
}

abbrev batch : List AuthorizationItem → Batch
batch items = record {
  authorization_id = codes "a1";
  conversation_id = codes "c1";
  turn_id = codes "t1";
  expires_at = pos 1790000000000;
  items = items;
}

abbrev items_one : List AuthorizationItem
items_one = item (codes "i1") [] ∷ item (codes "i2") (codes "i1" ∷ codes "i0" ∷ []) ∷ []

abbrev items_two : List AuthorizationItem
items_two = item (codes "i2") (codes "i1" ∷ codes "i0" ∷ []) ∷ item (codes "i1") [] ∷ []

items-Shuffle : Shuffle item_key items_one items_two
unfolding as_bytes
items-Shuffle =
    swap (item (codes "i1") []) (item (codes "i2") (codes "i1" ∷ codes "i0" ∷ [])) []
      (λ e. ground arith)

first-ItemFits : ItemFits (item (codes "i1") [])
unfolding as_bytes
first-ItemFits = record {
  item_id = omega arith;
  capability_id = omega arith;
  provider_did = omega arith;
  payload_digest = omega arith;
  data_class = omega arith;
  destination = omega arith;
  retention = omega arith;
  few = omega arith;
  depends_on = tt;
  contract_fingerprint = omega arith;
  tool_name = omega arith;
  registry_digest = omega arith;
}

second-ItemFits : ItemFits (item (codes "i2") (codes "i1" ∷ codes "i0" ∷ []))
unfolding as_bytes
second-ItemFits = record {
  item_id = omega arith;
  capability_id = omega arith;
  provider_did = omega arith;
  payload_digest = omega arith;
  data_class = omega arith;
  destination = omega arith;
  retention = omega arith;
  few = omega arith;
  depends_on = omega arith;
  contract_fingerprint = omega arith;
  tool_name = omega arith;
  registry_digest = omega arith;
}

batch-BatchFits :
    (items : List AuthorizationItem)
    → length items < 2 ^ 32
    → All ItemFits items
    → BatchFits (batch items)
unfolding as_bytes
batch-BatchFits items few fits = record {
  authorization_id = omega arith;
  conversation_id = omega arith;
  turn_id = omega arith;
  expires_at = omega arith;
  few = few;
  items = fits;
}

batch_digest_binding_example :
    (covered_part (batch items_one) ≡ covered_part (batch items_two)) ⊎ Collision plain_hash
batch_digest_binding_example =
    batch_digest_binding plain_hash (batch items_one) (batch items_two)
      (batch-BatchFits items_one (omega arith) (first-ItemFits, (second-ItemFits, tt)))
      (batch-BatchFits items_two (omega arith) (second-ItemFits, (first-ItemFits, tt)))
      (batch_digest_order plain_hash (batch items_one) items_two items-Shuffle)

-- The user is told that the node is trusted, and that the tool may do more than answer.
abbrev told : AuthorizationItem
told = record (item (codes "i1") []) {
  trust_level = codes "delegated";
  provider_name = codes "Another";
  side_effects = true;
}
