-- ===== src/Signing/Raw.antt =====
-- `raw_envelope_payload` of rust/fhs/src/signing.rs: the scan of an encoded envelope for the bytes of
-- its payload. The readers of the crate prost are the record `Prost`.
pub mod Scan
pub mod Written
pub mod Appended
use galax_ia_sdk.Prelude.{
  ℕ, zero, suc, ◌^◌, Bool, true, false, Option, none, some, List, [], ◌∷◌, length, take, drop, ltb,
  ◌==◌, if◌then◌else◌, any, not,
}
use galax_ia_sdk.Prelude.Result.{Result, ok, err, ok_or, ◌>>=◌}
use galax_ia_sdk.Text.{Bytes}

pub data WireType : Type 0 where
  varint : WireType
  sixty_four_bit : WireType
  length_delimited : WireType
  start_group : WireType
  end_group : WireType
  thirty_two_bit : WireType

pub record Prost : Type 0 where
  pub decode_key : Bytes → Option ((ℕ × WireType) × Bytes)
  pub decode_varint : Bytes → Option (ℕ × Bytes)

-- `prost` is an error of its readers; `out_of_fuel` is of this model only.
pub data DecodeError : Type 0 where
  prost : DecodeError
  invalid_length : DecodeError
  truncated : DecodeError
  unsupported_wire_type : DecodeError
  out_of_fuel : DecodeError

abbrev pub envelope_payload_tags : List ℕ
envelope_payload_tags =
    10 ∷ 11 ∷ 12 ∷ 13 ∷ 14 ∷ 20 ∷ 21 ∷ 22 ∷ 23 ∷ 24 ∷ 25 ∷ 30 ∷ 31 ∷ 32 ∷ 33 ∷ 34 ∷ 35 ∷ 40 ∷ 50
    ∷ 51 ∷ 52 ∷ 53 ∷ 54 ∷ 60 ∷ 61 ∷ 62 ∷ 63 ∷ 64 ∷ 65 ∷ 66 ∷ 67 ∷ 69 ∷ 70 ∷ 80 ∷ 90 ∷ 91 ∷ 92 ∷ 93
    ∷ 94 ∷ 95 ∷ []

unfoldable pub is_payload_tag : ℕ → Bool
is_payload_tag tag = any (λ t. t == tag) envelope_payload_tags

unfoldable pub skip : Bytes → ℕ → Result Bytes DecodeError
skip buf len = if ltb (length buf) len then err truncated else ok (drop len buf)

-- One turn of the loop goes on with the rest, or returns.
pub data Turn : Type 0 where
  more : Bytes → Turn
  found : Bytes → Turn

-- a length-delimited field; a `usize` has 64 bits
unfoldable pub delimited : ℕ → ℕ → Bytes → Result Turn DecodeError
delimited tag len buf =
    if not (ltb len (2 ^ 64))
    then err invalid_length
    else if ltb (length buf) len
    then err truncated
    else if is_payload_tag tag
    then ok (found (take len buf))
    else ok (more (drop len buf))

abbrev pub after : (Bytes → Result Bytes DecodeError) → Turn → Result Bytes DecodeError
after go (found payload) = ok payload
after go (more rest) = go rest

module _ (p : Prost) where
  abbrev pub field_turn : ℕ → WireType → Bytes → Result Turn DecodeError
  field_turn tag varint buf = ok_or (p.decode_varint buf) prost >>= (λ r. ok (more r.1))
  field_turn tag sixty_four_bit buf = skip buf 8 >>= (λ rest. ok (more rest))
  field_turn tag thirty_two_bit buf = skip buf 4 >>= (λ rest. ok (more rest))
  field_turn tag length_delimited buf =
      ok_or (p.decode_varint buf) prost >>= (λ r. delimited tag r.0 r.1)
  field_turn tag start_group buf = err unsupported_wire_type
  field_turn tag end_group buf = err unsupported_wire_type

  unfoldable pub turn : Bytes → Result Turn DecodeError
  turn buf = ok_or (p.decode_key buf) prost >>= (λ k. field_turn k.0.0 k.0.1 k.1)

  -- the loop on fuel
  unfoldable pub scan : ℕ → Bytes → Result Bytes DecodeError
  scan fuel [] = ok []
  scan zero (b ∷ buf) = err out_of_fuel
  scan (suc fuel) (b ∷ buf) = turn (b ∷ buf) >>= after (λ rest. scan fuel rest)

  unfoldable pub raw_envelope_payload : Bytes → Result Bytes DecodeError
  raw_envelope_payload bytes = scan (length bytes) bytes
