-- ===== src/Signing/Raw/Scan.antt =====
-- The scan for the payload: its end, what it finds in an encoded envelope, and that bytes behind the
-- first payload do not reach it.
use galax_ia_sdk.Prelude.{
  ℕ, zero, suc, ◌≤◌, ◌<◌, ◌≡◌, ◌≢◌, refl, ap, ◌∙◌, Option, none, some, [], ◌∷◌, length, drop, arith,
}
use galax_ia_sdk.Prelude.Result.{Result, ok, err, ok_or, ◌>>=◌, >>=-eq-ok}
use galax_ia_sdk.Text.{Bytes}
use galax_ia_sdk.Signing.Raw.{
  WireType, varint, sixty_four_bit, length_delimited, start_group, end_group, thirty_two_bit, Prost,
  DecodeError, prost, out_of_fuel, skip, Turn, more, found, delimited, after, field_turn, turn,
  scan, raw_envelope_payload,
}

-- prost: a reader that succeeds has read at least a byte.
pub record Consumes (p : Prost) : Type 0 where
  pub key :
      (buf rest : Bytes) (k : ℕ × WireType)
      → p.decode_key buf ≡ some (k, rest)
      → length rest < length buf
  pub number :
      (buf rest : Bytes) (v : ℕ) → p.decode_varint buf ≡ some (v, rest) → length rest < length buf

length-drop : (n : ℕ) (xs : Bytes) → length (drop n xs) ≤ length xs
length-drop zero xs = omega arith
length-drop (suc n) [] = omega arith
length-drop (suc n) (x ∷ xs) = omega (arith, length-drop n xs)

skip-shorter : (buf rest : Bytes) (n : ℕ) → skip buf n ≡ ok rest → length rest ≤ length buf
unfolding skip
skip-shorter buf rest n h = ground (arith, length-drop n buf)

delimited-shorter :
    (tag n : ℕ) (buf rest : Bytes) → delimited tag n buf ≡ ok (more rest) → length rest ≤ length buf
unfolding delimited
delimited-shorter tag n buf rest h = ground (arith, length-drop n buf)

-- the errors of a turn are those of the source
abbrev NotFuel : Result Turn DecodeError → Type 0
NotFuel r = r ≢ err out_of_fuel

delimited-NotFuel : (tag n : ℕ) (buf : Bytes) → NotFuel (delimited tag n buf)
unfolding delimited
delimited-NotFuel tag n buf h = ground arith

skip-NotFuel : (buf : Bytes) (n : ℕ) → NotFuel (skip buf n >>= (λ rest. ok (more rest)))
unfolding skip
skip-NotFuel buf n h = ground arith

module _ (p : Prost) (c : Consumes p) where
  field_turn-shorter :
      (tag : ℕ) (w : WireType) (buf rest : Bytes)
      → field_turn p tag w buf ≡ ok (more rest)
      → length rest ≤ length buf
  field_turn-shorter tag varint buf rest h = go (p.decode_varint buf) refl h
    where
      go :
          (o : Option (ℕ × Bytes))
          → p.decode_varint buf ≡ o
          → (ok_or o prost >>= (λ r. ok (more r.1))) ≡ ok (more rest)
          → length rest ≤ length buf
      go none e q = cc
      go (some (v, r)) e q = ground (arith, c.number buf r v e)
  field_turn-shorter tag sixty_four_bit buf rest h =
      let (r, s, q) = >>=-eq-ok (skip buf 8) (λ rest. ok (more rest)) h in
      ground (arith, skip-shorter buf r 8 s)
  field_turn-shorter tag thirty_two_bit buf rest h =
      let (r, s, q) = >>=-eq-ok (skip buf 4) (λ rest. ok (more rest)) h in
      ground (arith, skip-shorter buf r 4 s)
  field_turn-shorter tag length_delimited buf rest h = go (p.decode_varint buf) refl h
    where
      go :
          (o : Option (ℕ × Bytes))
          → p.decode_varint buf ≡ o
          → (ok_or o prost >>= (λ r. delimited tag r.0 r.1)) ≡ ok (more rest)
          → length rest ≤ length buf
      go none e q = cc
      go (some (v, r)) e q = omega (arith, c.number buf r v e, delimited-shorter tag v r rest q)
  field_turn-shorter tag start_group buf rest h = cc
  field_turn-shorter tag end_group buf rest h = cc

  field_turn-NotFuel : (tag : ℕ) (w : WireType) (buf : Bytes) → NotFuel (field_turn p tag w buf)
  field_turn-NotFuel tag varint buf h = go (p.decode_varint buf) h
    where
      go : (o : Option (ℕ × Bytes)) → NotFuel (ok_or o prost >>= (λ r. ok (more r.1)))
      go none q = cc
      go (some r) q = cc
  field_turn-NotFuel tag sixty_four_bit buf h = skip-NotFuel buf 8 h
  field_turn-NotFuel tag thirty_two_bit buf h = skip-NotFuel buf 4 h
  field_turn-NotFuel tag length_delimited buf h = go (p.decode_varint buf) h
    where
      go : (o : Option (ℕ × Bytes)) → NotFuel (ok_or o prost >>= (λ r. delimited tag r.0 r.1))
      go none q = cc
      go (some r) q = delimited-NotFuel tag r.0 r.1 q
  field_turn-NotFuel tag start_group buf h = cc
  field_turn-NotFuel tag end_group buf h = cc

  pub turn-shorter : (buf rest : Bytes) → turn p buf ≡ ok (more rest) → length rest < length buf
  unfolding turn
  turn-shorter buf rest h = go (p.decode_key buf) refl h
    where
      go :
          (o : Option ((ℕ × WireType) × Bytes))
          → p.decode_key buf ≡ o
          → (ok_or o prost >>= (λ k. field_turn p k.0.0 k.0.1 k.1)) ≡ ok (more rest)
          → length rest < length buf
      go none e q = cc
      go (some ((tag, w), r)) e q =
          omega (arith, c.key buf r (tag, w) e, field_turn-shorter tag w r rest q)

  turn-NotFuel : (buf : Bytes) → NotFuel (turn p buf)
  unfolding turn
  turn-NotFuel buf h = go (p.decode_key buf) h
    where
      go :
          (o : Option ((ℕ × WireType) × Bytes))
          → NotFuel (ok_or o prost >>= (λ k. field_turn p k.0.0 k.0.1 k.1))
      go none q = cc
      go (some ((tag, w), r)) q = field_turn-NotFuel tag w r q

  scan-ends : (fuel : ℕ) (buf : Bytes) → length buf ≤ fuel → scan p fuel buf ≢ err out_of_fuel
  unfolding scan
  scan-ends zero [] h q = cc
  scan-ends (suc fuel) [] h q = cc
  scan-ends zero (b ∷ buf) h q = omega arith
  scan-ends (suc fuel) (b ∷ buf) h q =
      go (λ rest l. scan-ends fuel rest l) (turn p (b ∷ buf)) refl q
    where
      go :
          ((rest : Bytes) → length rest ≤ fuel → scan p fuel rest ≢ err out_of_fuel)
          → (t : Result Turn DecodeError) → turn p (b ∷ buf) ≡ t
          → (t >>= after (λ rest. scan p fuel rest)) ≡ err out_of_fuel
          → ⊥
      go ih (err e) same r = turn-NotFuel (b ∷ buf) (same ∙ stop r)
        where
          stop :
              {x y : DecodeError}
              → Path (Result Bytes DecodeError) (err x) (err y)
              → Path (Result Turn DecodeError) (err x) (err y)
          stop s = cc
      go ih (ok (found x)) same r = cc
      go ih (ok (more rest)) same r = ih rest (omega (arith, turn-shorter (b ∷ buf) rest same)) r

  -- The loop ends on every input: the length of the input is enough fuel.
  pub raw_envelope_payload-ends : (bytes : Bytes) → raw_envelope_payload p bytes ≢ err out_of_fuel
  unfolding raw_envelope_payload
  raw_envelope_payload-ends bytes = scan-ends (length bytes) bytes (omega arith)

  -- With any fuel that is enough, a turn that goes on leaves enough, and one that finds returns.
  pub scan_more :
      (fuel : ℕ) (buf rest : Bytes)
      → length buf ≤ fuel
      → turn p buf ≡ ok (more rest)
      → (f : ℕ) × (length rest ≤ f) × (scan p fuel buf ≡ scan p f rest)
  unfolding scan
  scan_more fuel [] rest h q = absurd (omega (arith, turn-shorter [] rest q))
  scan_more zero (b ∷ buf) rest h q = absurd (omega arith)
  scan_more (suc fuel) (b ∷ buf) rest h q = (
    fuel,
    omega (arith, turn-shorter (b ∷ buf) rest q),
    ap (λ t. t >>= after (λ rest. scan p fuel rest)) q,
  )

  pub scan_found :
      (fuel : ℕ) (buf x : Bytes)
      → length buf ≤ fuel
      → 0 < length buf
      → turn p buf ≡ ok (found x)
      → scan p fuel buf ≡ ok x
  unfolding scan
  scan_found fuel [] x h some_byte q = absurd (omega arith)
  scan_found zero (b ∷ buf) x h some_byte q = absurd (omega arith)
  scan_found (suc fuel) (b ∷ buf) x h some_byte q =
      ap (λ t. t >>= after (λ rest. scan p fuel rest)) q
