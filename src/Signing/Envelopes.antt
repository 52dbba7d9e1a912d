-- ===== src/Signing/Envelopes.antt =====
-- `verify_envelope_bytes` of rust/fhs/src/signing.rs, and what its check of a signature covers. The
-- decoder of prost and the encoder of a payload are parameters.
use galax_ia_sdk.Prelude.{
  ◌≡◌, ◌≢◌, refl, ap, ◌∙◌, sym, Bool, true, false, Option, none, some, [], ◌∷◌, ◌++◌, ◌||◌,
  if◌then◌else◌, arith,
}
use galax_ia_sdk.Prelude.Result.{Result, ok, ok_or, ◌>>=◌, >>=-eq-ok, ok_injective}
use galax_ia_sdk.Text.{Text, Bytes}
use galax_ia_sdk.Text.Decimal.{print_ℤ}
use galax_ia_sdk.Protocol.{Envelope}
use galax_ia_sdk.PeerCache.{is_empty}
use galax_ia_sdk.Signing.{Crypto, colons, verify}
use galax_ia_sdk.Signing.Raw.{Prost, DecodeError, prost, raw_envelope_payload}
use galax_ia_sdk.Signing.Raw.Scan.{Consumes}
use galax_ia_sdk.Signing.Raw.Appended.{Prefix, raw_envelope_payload-extended}

both_false : (a b : Bool) → a || b ≡ false → (a ≡ false) × (b ≡ false)
both_false a b h = ground arith

module _ {P : Type 0} where
  abbrev pub payload_bytes : (P → Bytes) → Option P → Bytes
  payload_bytes encode none = []
  payload_bytes encode (some message) = encode message

  module _ (c : Crypto) where
    unfoldable pub envelope_signature_payload : Envelope P → Bytes → Text
    envelope_signature_payload e payload =
        colons e.message_id
          (e.source_peer_id ∷ e.dest_peer_id ∷ print_ℤ e.timestamp ∷ c.hex payload ∷ [])

    unfoldable pub envelope_payload : (P → Bytes) → Envelope P → Text
    envelope_payload encode e = envelope_signature_payload e (payload_bytes encode e.payload)

    -- the signature of a decoded envelope over the bytes of its payload
    unfoldable pub envelope_signed : Envelope P → Bytes → Bool
    envelope_signed e payload =
        verify c e.source_peer_id (envelope_signature_payload e payload) e.signature

    abbrev pub checked_envelope :
        Result Bytes DecodeError → Envelope P → Result (Option (Envelope P)) DecodeError
    checked_envelope raw e =
        if is_empty e.signature || is_empty e.source_peer_id
        then ok none
        else raw >>= (λ payload. ok (if envelope_signed e payload then some e else none))

    unfoldable pub verify_envelope_bytes :
        Prost → (Bytes → Option (Envelope P)) → Bytes → Result (Option (Envelope P)) DecodeError
    verify_envelope_bytes p decode bytes =
        ok_or (decode bytes) prost >>= checked_envelope (raw_envelope_payload p bytes)

    -- What an accepted envelope went through.
    pub record Verified (p : Prost) (decode : Bytes → Option (Envelope P)) (bytes : Bytes)
        (e : Envelope P) : Type 0 where
      pub decoded : decode bytes ≡ some e
      pub has_signature : is_empty e.signature ≡ false
      pub has_source : is_empty e.source_peer_id ≡ false
      pub payload : Bytes
      pub raw : raw_envelope_payload p bytes ≡ ok payload
      pub signed : envelope_signed e payload ≡ true

    if_some :
        (b : Bool) (e e' : Envelope P)
        → Path (Option (Envelope P)) (if b then some e else none) (some e')
        → (b ≡ true) × (e ≡ e')
    if_some true e e' q = (refl, cc)
    if_some false e e' q = cc

    unguarded :
        (s : Bool) (r : Result (Option (Envelope P)) DecodeError) (e : Envelope P)
        → (if s then ok none else r) ≡ ok (some e)
        → (s ≡ false) × (r ≡ ok (some e))
    unguarded true r e q = cc
    unguarded false r e q = (refl, q)

    pub verify_envelope_bytes-Verified :
        (p : Prost) (decode : Bytes → Option (Envelope P)) (bytes : Bytes) (e : Envelope P)
        → verify_envelope_bytes p decode bytes ≡ ok (some e)
        → Verified p decode bytes e
    unfolding verify_envelope_bytes
    verify_envelope_bytes-Verified p decode bytes e h = go (decode bytes) refl h
      where
        go :
            (o : Option (Envelope P))
            → decode bytes ≡ o
            → (ok_or o prost >>= checked_envelope (raw_envelope_payload p bytes)) ≡ ok (some e)
            → Verified p decode bytes e
        go none d q = cc
        go (some x) d q =
            let (present, r) =
              unguarded (is_empty x.signature || is_empty x.source_peer_id) _ e q in
            let (payload, raw, s) =
              >>=-eq-ok (raw_envelope_payload p bytes)
                (λ payload. ok (if envelope_signed x payload then some x else none)) r in
            let (signed, same) = if_some (envelope_signed x payload) x e (ok_injective s) in
            let (sig, source) =
              both_false (is_empty x.signature) (is_empty x.source_peer_id) present in
            record {
              decoded = d ∙ ap some same;
              has_signature = ap (λ (y : Envelope P). is_empty y.signature) (sym same) ∙ sig;
              has_source = ap (λ (y : Envelope P). is_empty y.source_peer_id) (sym same) ∙ source;
              payload = payload;
              raw = raw;
              signed = ap (λ (y : Envelope P). envelope_signed y payload) (sym same) ∙ signed;
            }

    pub Verified-verify_envelope_bytes :
        (p : Prost) (decode : Bytes → Option (Envelope P)) (bytes : Bytes) (e : Envelope P)
        → Verified p decode bytes e
        → verify_envelope_bytes p decode bytes ≡ ok (some e)
    unfolding verify_envelope_bytes
    Verified-verify_envelope_bytes p decode bytes e v =
        rw (v.decoded, v.has_signature, v.has_source, v.raw, v.signed)

    -- Two envelopes that differ in nothing that is signed apart from the payload.
    pub record SameHeader (e e' : Envelope P) : Type 0 where
      pub message_id : e.message_id ≡ e'.message_id
      pub source_peer_id : e.source_peer_id ≡ e'.source_peer_id
      pub dest_peer_id : e.dest_peer_id ≡ e'.dest_peer_id
      pub timestamp : e.timestamp ≡ e'.timestamp
      pub signature : e.signature ≡ e'.signature

    SameHeader-signed :
        (e e' : Envelope P) (payload : Bytes)
        → SameHeader e e'
        → envelope_signed e payload ≡ envelope_signed e' payload
    unfolding envelope_signed envelope_signature_payload
    SameHeader-signed e e' payload s =
        rw (s.message_id, s.source_peer_id, s.dest_peer_id, s.timestamp, s.signature)

    -- If an envelope with a payload is accepted, then it is accepted as well with any bytes
    -- added behind it, and what it is then decoded to is returned, whatever payload that holds,
    -- as long as the decoded header is the same.
    pub verify_envelope_bytes-extended :
        (p : Prost) (decode : Bytes → Option (Envelope P)) (bytes extra : Bytes) (e e' : Envelope P)
        → Consumes p
        → Prefix p
        → verify_envelope_bytes p decode bytes ≡ ok (some e)
        → raw_envelope_payload p bytes ≢ ok []
        → decode (bytes ++ extra) ≡ some e'
        → SameHeader e e'
        → verify_envelope_bytes p decode (bytes ++ extra) ≡ ok (some e')
    verify_envelope_bytes-extended p decode bytes extra e e' c s h some_payload d same =
        let v = verify_envelope_bytes-Verified p decode bytes e h in
        Verified-verify_envelope_bytes p decode (bytes ++ extra) e' (record {
          decoded = d;
          has_signature = ap is_empty (sym same.signature) ∙ v.has_signature;
          has_source = ap is_empty (sym same.source_peer_id) ∙ v.has_source;
          payload = v.payload;
          raw =
              raw_envelope_payload-extended p s extra c v.payload
                (λ nothing. some_payload (v.raw ∙ ap ok nothing)) bytes v.raw;
          signed = sym (SameHeader-signed e e' v.payload same) ∙ v.signed;
        })
