-- ===== src/Signing/Raw/Written.antt =====
-- An envelope written field by field, with the writers of the crate prost as the record `Writer`.
use galax_ia_sdk.Prelude.{
  ℕ, ◌^◌, ◌≤◌, ◌<◌, ◌≡◌, ap, ◌∙◌, subst, true, false, some, List, [], ◌∷◌, ◌++◌, length, drop, ltb,
  arith, All, length-append, take-append, drop-append,
}
use galax_ia_sdk.Prelude.Result.{ok, ok_or, ◌>>=◌}
use galax_ia_sdk.Text.{Bytes}
use galax_ia_sdk.Signing.Raw.{
  WireType, varint, sixty_four_bit, length_delimited, thirty_two_bit, Prost, prost, is_payload_tag,
  skip, more, found, delimited, field_turn, turn, scan, raw_envelope_payload,
}
use galax_ia_sdk.Signing.Raw.Scan.{Consumes, scan_more, scan_found}

-- prost: the readers get back what the writers wrote.
pub record Writer (p : Prost) : Type 0 where
  pub write_key : ℕ → WireType → Bytes
  pub write_varint : ℕ → Bytes
  pub key_back :
      (tag : ℕ) (w : WireType) (rest : Bytes)
      → p.decode_key (write_key tag w ++ rest) ≡ some ((tag, w), rest)
  pub varint_back :
      (v : ℕ) (rest : Bytes)
      → v < 2 ^ 64
      → p.decode_varint (write_varint v ++ rest) ≡ some (v, rest)

pub data Field : Type 0 where
  number : ℕ → ℕ → Field
  fixed64 : ℕ → Bytes → Field
  fixed32 : ℕ → Bytes → Field
  bytes : ℕ → Bytes → Field

-- A field that fits and is not a payload.
abbrev pub IsHeader : Field → Type 0
IsHeader (number tag v) = v < 2 ^ 64
IsHeader (fixed64 tag bs) = length bs ≡ 8
IsHeader (fixed32 tag bs) = length bs ≡ 4
IsHeader (bytes tag bs) = (length bs < 2 ^ 64) × (is_payload_tag tag ≡ false)

module _ {p : Prost} (w : Writer p) where
  -- a field in front of other bytes
  abbrev pub put : Field → Bytes → Bytes
  put (number tag v) rest = w.write_key tag varint ++ (w.write_varint v ++ rest)
  put (fixed64 tag bs) rest = w.write_key tag sixty_four_bit ++ (bs ++ rest)
  put (fixed32 tag bs) rest = w.write_key tag thirty_two_bit ++ (bs ++ rest)
  put (bytes tag bs) rest =
      w.write_key tag length_delimited ++ (w.write_varint (length bs) ++ (bs ++ rest))

  abbrev pub put_all : List Field → Bytes → Bytes
  put_all [] rest = rest
  put_all (f ∷ fs) rest = put f (put_all fs rest)

  turn-key :
      (tag : ℕ) (t : WireType) (rest : Bytes)
      → turn p (w.write_key tag t ++ rest) ≡ field_turn p tag t rest
  unfolding turn
  turn-key tag t rest =
      ap (λ o. ok_or o prost >>= (λ k. field_turn p k.0.0 k.0.1 k.1)) (w.key_back tag t rest)

  skip-fixed :
      (bs rest : Bytes) (n : ℕ)
      → length bs ≡ n
      → (skip (bs ++ rest) n >>= (λ r. ok (more r))) ≡ ok (more rest)
  unfolding skip
  skip-fixed bs rest n h =
      let gone : drop n (bs ++ rest) ≡ rest =
        subst (λ (k : ℕ). drop k (bs ++ rest) ≡ rest) h (drop-append bs rest) in
      let room : ltb (length (bs ++ rest)) n ≡ false = ground (arith, length-append bs rest) in
      rw (room, gone)

  field_length :
      (tag : ℕ) (bs rest : Bytes)
      → length bs < 2 ^ 64
      → field_turn p tag length_delimited (w.write_varint (length bs) ++ (bs ++ rest))
        ≡ delimited tag (length bs) (bs ++ rest)
  field_length tag bs rest h =
      ap (λ o. ok_or o prost >>= (λ r. delimited tag r.0 r.1))
        (w.varint_back (length bs) (bs ++ rest) h)

  delimited-header :
      (tag : ℕ) (bs rest : Bytes)
      → length bs < 2 ^ 64
      → is_payload_tag tag ≡ false
      → delimited tag (length bs) (bs ++ rest) ≡ ok (more rest)
  unfolding delimited
  delimited-header tag bs rest h other =
      let small : ltb (length bs) (2 ^ 64) ≡ true = ground arith in
      let room : ltb (length (bs ++ rest)) (length bs) ≡ false =
        ground (arith, length-append bs rest) in
      rw (small, room, other, drop-append bs rest)

  delimited-payload :
      (tag : ℕ) (bs rest : Bytes)
      → length bs < 2 ^ 64
      → is_payload_tag tag ≡ true
      → delimited tag (length bs) (bs ++ rest) ≡ ok (found bs)
  unfolding delimited
  delimited-payload tag bs rest h payload =
      let small : ltb (length bs) (2 ^ 64) ≡ true = ground arith in
      let room : ltb (length (bs ++ rest)) (length bs) ≡ false =
        ground (arith, length-append bs rest) in
      rw (small, room, payload, take-append bs rest)

  turn-header : (f : Field) (rest : Bytes) → IsHeader f → turn p (put f rest) ≡ ok (more rest)
  turn-header (number tag v) rest h =
      turn-key tag varint (w.write_varint v ++ rest)
      ∙ ap (λ o. ok_or o prost >>= (λ r. ok (more r.1))) (w.varint_back v rest h)
  turn-header (fixed64 tag bs) rest h =
      turn-key tag sixty_four_bit (bs ++ rest) ∙ skip-fixed bs rest 8 h
  turn-header (fixed32 tag bs) rest h =
      turn-key tag thirty_two_bit (bs ++ rest) ∙ skip-fixed bs rest 4 h
  turn-header (bytes tag bs) rest (h, other) =
      turn-key tag length_delimited (w.write_varint (length bs) ++ (bs ++ rest))
      ∙ field_length tag bs rest h
      ∙ delimited-header tag bs rest h other

  turn-payload :
      (tag : ℕ) (bs rest : Bytes)
      → length bs < 2 ^ 64
      → is_payload_tag tag ≡ true
      → turn p (put (bytes tag bs) rest) ≡ ok (found bs)
  turn-payload tag bs rest h payload =
      turn-key tag length_delimited (w.write_varint (length bs) ++ (bs ++ rest))
      ∙ field_length tag bs rest h
      ∙ delimited-payload tag bs rest h payload

  module _ (c : Consumes p) (tag : ℕ) (payload rest : Bytes) (fits : length payload < 2 ^ 64)
      (is_payload : is_payload_tag tag ≡ true) where
    scan-put_all :
        (fuel : ℕ) (header : List Field)
        → All IsHeader header
        → length (put_all header (put (bytes tag payload) rest)) ≤ fuel
        → scan p fuel (put_all header (put (bytes tag payload) rest)) ≡ ok payload
    scan-put_all fuel [] h enough =
        scan_found p c fuel (put (bytes tag payload) rest) payload enough
          (omega (
            arith,
            c.key (put (bytes tag payload) rest)
                (w.write_varint (length payload) ++ (payload ++ rest)) (tag, length_delimited)
                (w.key_back tag length_delimited
                  (w.write_varint (length payload) ++ (payload ++ rest))),
          ))
          (turn-payload tag payload rest fits is_payload)
    scan-put_all fuel (f ∷ fs) (h, hs) enough =
        let tail = put_all fs (put (bytes tag payload) rest) in
        let (n, less, e) = scan_more p c fuel (put f tail) tail enough (turn-header f tail h) in
        e ∙ scan-put_all n fs hs less

    -- In an envelope whose fields before the payload are well-formed, the scan finds the bytes of
    -- the first payload as they stand, whatever follows.
    pub raw_envelope_payload-put_all :
        (header : List Field)
        → All IsHeader header
        → raw_envelope_payload p (put_all header (put (bytes tag payload) rest)) ≡ ok payload
    unfolding raw_envelope_payload
    raw_envelope_payload-put_all header h = scan-put_all _ header h (omega arith)
