-- ===== src/Tests/Signing.antt =====
-- rust/fhs/src/signing.rs, rust/fhs/src/p2p/wire.rs and rust/fhs/src/p2p/identity.rs on concrete
-- inputs, with small crates: a signature is a byte before the text, a key and a varint are one byte.
use galax_ia_sdk.Prelude.{
  ℕ, ◌≡◌, ◌≢◌, refl, true, Option, none, some, [], ◌∷◌, ◌++◌, replicate, arith, length, ◌==◌,
  if◌then◌else◌, ap, sym, ◌∙◌,
}
use galax_ia_sdk.Prelude.Int.{pos}
use galax_ia_sdk.Prelude.Lex.{list_eq, list_eq_self}
use galax_ia_sdk.Prelude.Result.{Result, ok}
use galax_ia_sdk.Text.{Bytes, codes}
use galax_ia_sdk.Text.Utf8.{as_bytes}
use galax_ia_sdk.Protocol.{Envelope, MissionAssignMessage, MissionBidMessage}
use galax_ia_sdk.Signing.{Crypto, did_public_key, strip_prefix, verify}
use galax_ia_sdk.Signing.Raw.{
  WireType, varint, sixty_four_bit, length_delimited, start_group, end_group, thirty_two_bit, Prost,
  DecodeError, raw_envelope_payload, scan, turn, delimited, is_payload_tag,
}
use galax_ia_sdk.Signing.Raw.Scan.{Consumes}
use galax_ia_sdk.Signing.Raw.Appended.{Prefix}
use galax_ia_sdk.Signing.Raw.Written.{Writer}
use galax_ia_sdk.Signing.Envelopes.{verify_envelope_bytes, verify_envelope_bytes-extended}
use galax_ia_sdk.Wire.{Codec, Signer, sealed_envelope, own_bid}
use galax_ia_sdk.Wire.RoundTrip.{Honest, sealed_envelope-verified}

abbrev pub key : Bytes
key = replicate 32 7

abbrev pub crypto : Crypto
crypto = record {
  Key = Bytes;
  Sig = Bytes;
  base58 = λ t. some (0xed ∷ 0x01 ∷ key);
  from_bytes = λ k. some k;
  from_slice = λ s. some s;
  checks = λ k m s. list_eq s (1 ∷ m);
  sha256 = λ b. b;
  hex = λ b. b;
  encode_beacon = λ b. b.unread;
}

abbrev pub node : Signer
node = record { did = codes "did:key:zK"; sign = λ t. 1 ∷ as_bytes t }

pub node-Honest : Honest crypto node
unfolding verify did_public_key strip_prefix list_eq
node-Honest = record {
  verifies = λ t. list_eq_self (as_bytes t);
  present = λ t. refl;
  named = refl;
}

-- one byte for a key and one for its wire type
abbrev code : WireType → ℕ
code varint = 0
code sixty_four_bit = 1
code length_delimited = 2
code start_group = 3
code end_group = 4
code thirty_two_bit = 5

abbrev of_code : ℕ → WireType
of_code n =
    if n == 0
    then varint
    else if n == 1
    then sixty_four_bit
    else if n == 2
    then length_delimited
    else if n == 3
    then start_group
    else if n == 4
    then end_group
    else thirty_two_bit

abbrev small_key : Bytes → Option ((ℕ × WireType) × Bytes)
small_key [] = none
small_key (tag ∷ []) = none
small_key (tag ∷ w ∷ rest) = some ((tag, of_code w), rest)

abbrev small_varint : Bytes → Option (ℕ × Bytes)
small_varint [] = none
small_varint (v ∷ rest) = some (v, rest)

abbrev small : Prost
small = record { decode_key = small_key; decode_varint = small_varint }

small_key-shape :
    (buf rest : Bytes) (k : ℕ × WireType)
    → small_key buf ≡ some (k, rest)
    → (tag : ℕ) × (w : ℕ) × (buf ≡ tag ∷ w ∷ rest) × (k ≡ (tag, of_code w))
small_key-shape [] rest k h = cc
small_key-shape (tag ∷ []) rest k h = cc
small_key-shape (tag ∷ w ∷ more) rest k h =
    let same : more ≡ rest = ap last (some_injective h) in
    (tag, w, ap (λ r. tag ∷ w ∷ r) same, sym (ap first (some_injective h)))
  where
    Parts : Type 0
    Parts = (ℕ × WireType) × Bytes

    some_injective : {x y : Parts} → Path (Option Parts) (some x) (some y) → x ≡ y
    some_injective q = cc

    first : Parts → ℕ × WireType
    first r = r.0

    last : Parts → Bytes
    last r = r.1

small_varint-shape : (buf rest : Bytes) (v : ℕ) → small_varint buf ≡ some (v, rest) → buf ≡ v ∷ rest
small_varint-shape [] rest v h = cc
small_varint-shape (x ∷ more) rest v h = cons_of h
  where
    cons_of : Path (Option (ℕ × Bytes)) (some (x, more)) (some (v, rest)) → x ∷ more ≡ v ∷ rest
    cons_of q = ap (λ o. list_of o) q
      where
        list_of : Option (ℕ × Bytes) → Bytes
        list_of none = []
        list_of (some (a, b)) = a ∷ b

small-Consumes : Consumes small
small-Consumes = record {
  key = λ buf rest k h.
      let (tag, w, e, q) = small_key-shape buf rest k h in omega (arith, ap length e);
  number = λ buf rest v h. omega (arith, ap length (small_varint-shape buf rest v h));
}

small-Prefix : Prefix small
small-Prefix = record {
  key = λ buf rest extra k h.
      let (tag, w, e, q) = small_key-shape buf rest k h in
      ap (λ b. small_key (b ++ extra)) e ∙ ap (λ x. some (x, rest ++ extra)) (sym q);
  number =
      λ buf rest extra v h. ap (λ b. small_varint (b ++ extra)) (small_varint-shape buf rest v h);
}

of_code-code : (w : WireType) → of_code (code w) ≡ w
of_code-code varint = refl
of_code-code sixty_four_bit = refl
of_code-code length_delimited = refl
of_code-code start_group = refl
of_code-code end_group = refl
of_code-code thirty_two_bit = refl

abbrev writer : Writer small
writer = record {
  write_key = λ tag w. tag ∷ code w ∷ [];
  write_varint = λ v. v ∷ [];
  key_back = λ tag w rest. ap (λ x. some ((tag, x), rest)) (of_code-code w);
  varint_back = λ v rest h. refl;
}

-- an envelope with two bytes of payload, and the same with another payload
abbrev hello : Bytes
hello = 1 ∷ 2 ∷ []

abbrev plain : Bytes → Bytes
plain b = b

abbrev sent : Envelope Bytes
sent = sealed_envelope crypto plain node (codes "m") (pos 5) [] hello

abbrev forged : Envelope Bytes
forged = record sent { payload = some (9 ∷ []) }

abbrev wire : Bytes
wire = 10 ∷ 2 ∷ 2 ∷ 1 ∷ 2 ∷ []

abbrev decode_sent : Bytes → Option (Envelope Bytes)
decode_sent b = if length b == 5 then some sent else some forged

abbrev codec : Codec (Envelope Bytes)
codec = record { decode = decode_sent; encode = λ e. wire }

payload_ten : is_payload_tag 10 ≡ true
unfolding is_payload_tag
payload_ten = refl

accepted_run : verify_envelope_bytes crypto small decode_sent wire ≡ ok (some sent)
accepted_run =
    sealed_envelope-verified crypto node node-Honest (pos 5) small writer codec plain (codes "m") []
      hello [] 10 small-Consumes refl refl tt payload_ten (omega arith)

sealed_envelope-verified_example :
    verify_envelope_bytes crypto small decode_sent wire ≡ ok (some sent)
sealed_envelope-verified_example =
    sealed_envelope-verified crypto node node-Honest (pos 5) small writer codec plain (codes "m") []
      hello [] 10 small-Consumes refl refl tt payload_ten (omega arith)

raw_run : raw_envelope_payload small wire ≡ ok hello
unfolding raw_envelope_payload scan turn delimited is_payload_tag
raw_run = refl

raw_some : raw_envelope_payload small wire ≢ ok []
raw_some e = differ (sym raw_run ∙ e)
  where
    differ : Path (Result Bytes DecodeError) (ok hello) (ok []) → ⊥
    differ q = cc

-- A second payload behind the envelope is what the decoder returns, and it is accepted.
abbrev second : Bytes
second = 10 ∷ 2 ∷ 1 ∷ 9 ∷ []

verify_envelope_bytes-extended_example :
    verify_envelope_bytes crypto small decode_sent (wire ++ second) ≡ ok (some forged)
verify_envelope_bytes-extended_example =
    verify_envelope_bytes-extended crypto small decode_sent wire second sent forged small-Consumes
      small-Prefix accepted_run raw_some refl
      (record {
        message_id = refl;
        source_peer_id = refl;
        dest_peer_id = refl;
        timestamp = refl;
        signature = refl;
      })

abbrev assign : MissionAssignMessage
assign = record {
  mission_id = codes "a:b";
  navigator_did = codes "did:key:zN";
  assigned_provider = codes "did:key:zP";
  timestamp = pos 12;
  signature = [];
}

abbrev pub bid : MissionBidMessage
bid = record {
  mission_id = codes "m";
  provider_did = codes "did:key:zP";
  provider_multiaddrs = [];
  provider_type = codes "satellite";
  offered_capabilities = codes "ocr" ∷ [];
  offered_model = [];
  reputation_score = 0;
  estimated_latency_ms = pos 900;
  trust_level = codes "community";
  timestamp = pos 3;
  signature = 1 ∷ [];
}

-- the bid as its node signs it, and with terms that win an auction
abbrev signed_bid : MissionBidMessage
signed_bid = own_bid node (pos 3) bid
