-- ===== src/Authorization.antt =====
-- rust/fhs/src/authorization.rs: canonical bytes of what a user authorises, and their digests.
-- SHA-256 is a library: the parameter `sha256`.
pub mod Decoder
pub mod Reads
pub mod RoundTrip
pub mod Binding
pub mod Batch
pub mod BatchDigest
pub mod Order
use galax_ia_sdk.Prelude.{
  ℕ, zero, suc, ◌+◌, ◌-◌, ◌*◌, ◌/◌, ◌%◌, ◌^◌, Bool, true, false, List, [], ◌∷◌, ◌++◌, map, length,
  ◌==◌, if◌then◌else◌, not,
}
use galax_ia_sdk.Prelude.Int.{ℤ, pos, negsuc}
use galax_ia_sdk.Prelude.Result.{Result, ok, err, ◌>>=◌}
use galax_ia_sdk.Prelude.Sort.{sort_on}
use galax_ia_sdk.Text.{Text, Bytes, codes}
use galax_ia_sdk.Text.Utf8.{as_bytes}
use galax_ia_sdk.Text.Decimal.{print_ℤ}
use galax_ia_sdk.Protocol.{
  DynamicValue, unset, boolean_value, integer_value, number_value, string_value, bytes_value,
  list_value, object_value, artifact_ref, DynamicList, nil, cons, DynamicObject, empty, field,
  AuthorizationItem,
}

abbrev pub digest_version : Bytes
digest_version = codes "1"

abbrev pub domain_user_message : Bytes
domain_user_message = codes "fhs/auth/user_message"

abbrev pub domain_document : Bytes
domain_document = codes "fhs/auth/document"

abbrev pub domain_derived_text : Bytes
domain_derived_text = codes "fhs/auth/derived_text"

abbrev pub domain_command_args : Bytes
domain_command_args = codes "fhs/auth/command_args"

abbrev pub domain_query : Bytes
domain_query = codes "fhs/auth/query"

abbrev pub domain_tool_args : Bytes
domain_tool_args = codes "fhs/auth/tool_args"

abbrev pub domain_tool_output : Bytes
domain_tool_output = codes "fhs/auth/tool_output"

abbrev pub domain_ipfs : Bytes
domain_ipfs = codes "fhs/auth/ipfs"

abbrev pub domain_batch : Bytes
domain_batch = codes "fhs/auth/batch"

-- the two texts of `NotCanonical`
pub data Reason : Type 0 where
  number_not_finite : Reason
  artifact_in_arguments : Reason

pub data DigestError : Type 0 where
  not_canonical : Reason → DigestError

-- the bytes that `framed` hashes
unfoldable pub framed_input : Bytes → Bytes → Bytes
framed_input domain body = domain ++ (0 ∷ (digest_version ++ (0 ∷ body)))

-- `to_be_bytes` of a number of `n` bytes
unfoldable pub be_bytes : ℕ → ℕ → Bytes
be_bytes zero v = []
be_bytes (suc n) v = (v / 256 ^ n % 256) ∷ be_bytes n v

-- `(len as u32).to_be_bytes()`
unfoldable pub push_len : ℕ → Bytes
unfolding be_bytes
push_len len = be_bytes 4 (len % 2 ^ 32)

unfoldable pub push_bytes : Bytes → Bytes
push_bytes bytes = push_len (length bytes) ++ bytes

-- The bit pattern of an `i64`, in two's complement.
unfoldable pub i64_bits : ℤ → ℕ
i64_bits (pos n) = n % 2 ^ 64
i64_bits (negsuc n) = 2 ^ 64 - 1 - n % 2 ^ 64

-- `f64::is_finite`, `n == 0.0` and the choice of 0.0 for -0.0, on the bit pattern
unfoldable pub is_finite : ℕ → Bool
is_finite bits = not (bits / 2 ^ 52 % 2 ^ 11 == 0x7ff)

unfoldable pub plain_zero : ℕ → ℕ
plain_zero bits = if bits % 2 ^ 63 == 0 then 0 else bits

unfoldable pub bool_byte : Bool → ℕ
bool_byte true = 1
bool_byte false = 0

-- `keys` with what encodes each value; `as_bytes` orders them.
abbrev pub field_key {ℓ} : {A : Type ℓ} → Text × A → Bytes
field_key f = as_bytes f.0

-- The loop over the sorted keys, which stops at the first value that has no canonical form.
unfoldable pub write_fields : List (Text × Result Bytes DigestError) → Result Bytes DigestError
write_fields [] = ok []
write_fields ((key, value) ∷ more) = do
  bytes ← value
  rest ← write_fields more
  ok (push_bytes (as_bytes key) ++ (bytes ++ rest))

unfoldable pub length_list : DynamicList → ℕ
length_list nil = 0
length_list (cons v vs) = suc (length_list vs)

-- The bytes that `encode_value` appends to `out`. The encoded fields are computed before they are
-- sorted; which error comes first is decided by the order of the keys.
unfoldable mutual
  pub encode_value : DynamicValue → Result Bytes DigestError
  encode_value unset = ok (0x00 ∷ [])
  encode_value (boolean_value b) = ok (0x01 ∷ bool_byte b ∷ [])
  encode_value (integer_value i) = ok (0x02 ∷ be_bytes 8 (i64_bits i))
  encode_value (number_value n) =
      if is_finite n
      then ok (0x03 ∷ be_bytes 8 (plain_zero n))
      else err (not_canonical number_not_finite)
  encode_value (string_value s) = ok (0x04 ∷ push_bytes (as_bytes s))
  encode_value (bytes_value b) = ok (0x05 ∷ push_bytes b)
  encode_value (list_value vs) = do
    items ← encode_items vs
    ok (0x06 ∷ (push_len (length_list vs) ++ items))
  encode_value (object_value fs) =
      let fields = sort_on field_key (encode_fields fs) in
      do written ← write_fields fields; ok (0x07 ∷ (push_len (length fields) ++ written))
  encode_value (artifact_ref a) = err (not_canonical artifact_in_arguments)

  pub encode_items : DynamicList → Result Bytes DigestError
  encode_items nil = ok []
  encode_items (cons v vs) = do bytes ← encode_value v; rest ← encode_items vs; ok (bytes ++ rest)

  pub encode_fields : DynamicObject → List (Text × Result Bytes DigestError)
  encode_fields empty = []
  encode_fields (field key v fs) = (key, encode_value v) ∷ encode_fields fs

-- One fragment behind another, each with its length.
unfoldable pub push_all : List Text → Bytes
push_all [] = []
push_all (chunk ∷ more) = push_bytes (as_bytes chunk) ++ push_all more

unfoldable pub chunks_body : List Text → Bytes
chunks_body chunks = push_len (length chunks) ++ push_all chunks

-- One item of a batch.
unfoldable pub item_bytes : AuthorizationItem → Bytes
item_bytes item =
    push_bytes (as_bytes item.item_id)
    ++ (push_bytes item.payload_digest
        ++ (push_bytes (as_bytes item.provider_did)
            ++ (push_bytes (as_bytes item.capability_id)
                ++ (push_bytes (as_bytes (print_ℤ item.data_class))
                    ++ (push_bytes (as_bytes (print_ℤ item.destination))
                        ++ (push_bytes (as_bytes (print_ℤ item.retention))
                            ++ (chunks_body (sort_on as_bytes item.depends_on)
                                ++ (push_bytes (as_bytes item.contract_fingerprint)
                                    ++ (push_bytes (as_bytes item.tool_name)
                                        ++ push_bytes (as_bytes item.registry_digest))))))))))

unfoldable pub items_bytes : List AuthorizationItem → Bytes
items_bytes [] = []
items_bytes (item ∷ more) = item_bytes item ++ items_bytes more

abbrev pub item_key : AuthorizationItem → Bytes
item_key item = as_bytes item.item_id

unfoldable pub batch_body : Text → Text → Text → ℤ → List AuthorizationItem → Bytes
batch_body authorization_id conversation_id turn_id expires_at items =
    let sorted = sort_on item_key items in
    push_bytes (as_bytes authorization_id)
    ++ (push_bytes (as_bytes conversation_id)
        ++ (push_bytes (as_bytes turn_id)
            ++ (push_bytes (as_bytes (print_ℤ expires_at))
                ++ (push_len (length sorted) ++ items_bytes sorted))))

module _ (sha256 : Bytes → Bytes) where
  unfoldable pub framed : Bytes → Bytes → Bytes
  framed domain body = sha256 (framed_input domain body)

  unfoldable pub text_digest : Bytes → Text → Bytes
  text_digest domain text = framed domain (as_bytes text)

  pub user_message_digest : Text → Bytes
  user_message_digest text = text_digest domain_user_message text

  unfoldable pub document_digest : Bytes → Bytes
  document_digest bytes = framed domain_document bytes

  unfoldable pub ipfs_digest : Text → Bytes → Bytes
  ipfs_digest cid content =
      framed domain_ipfs (push_bytes (as_bytes cid) ++ push_bytes (document_digest content))

  unfoldable pub chunks_digest : Bytes → List Text → Bytes
  chunks_digest domain chunks = framed domain (chunks_body chunks)

  unfoldable pub value_digest : Bytes → DynamicValue → Result Bytes DigestError
  value_digest domain value = do body ← encode_value value; ok (framed domain body)

  unfoldable pub batch_digest : Text → Text → Text → ℤ → List AuthorizationItem → Bytes
  batch_digest authorization_id conversation_id turn_id expires_at items =
      framed domain_batch (batch_body authorization_id conversation_id turn_id expires_at items)
