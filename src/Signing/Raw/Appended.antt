-- ===== src/Signing/Raw/Appended.antt =====
-- Bytes that are added behind an encoded envelope.
use galax_ia_sdk.Prelude.{
  ℕ, zero, suc, ◌^◌, ◌≤◌, ◌≡◌, ◌≢◌, refl, ap, ◌∙◌, Bool, true, false, Option, none, some, [], ◌∷◌,
  ◌++◌, length, take, drop, ltb, arith, Bool-cases, inl, inr, length-append, not, if◌then◌else◌,
}
use galax_ia_sdk.Prelude.Result.{Result, ok, err, ok_or, ◌>>=◌, passed}
use galax_ia_sdk.Text.{Bytes}
use galax_ia_sdk.Signing.Raw.{
  WireType, varint, sixty_four_bit, length_delimited, start_group, end_group, thirty_two_bit, Prost,
  DecodeError, prost, is_payload_tag, skip, Turn, more, found, delimited, after, field_turn, turn,
  scan, raw_envelope_payload,
}
use galax_ia_sdk.Signing.Raw.Scan.{Consumes, scan_more, scan_found}

-- prost: what a reader reads does not depend on the bytes behind it.
pub record Prefix (p : Prost) : Type 0 where
  pub key :
      (buf rest extra : Bytes) (k : ℕ × WireType)
      → p.decode_key buf ≡ some (k, rest)
      → p.decode_key (buf ++ extra) ≡ some (k, rest ++ extra)
  pub number :
      (buf rest extra : Bytes) (v : ℕ)
      → p.decode_varint buf ≡ some (v, rest)
      → p.decode_varint (buf ++ extra) ≡ some (v, rest ++ extra)

abbrev extended : Bytes → Turn → Turn
extended extra (more rest) = more (rest ++ extra)
extended extra (found x) = found x

drop-extended :
    (n : ℕ) (xs extra : Bytes) → n ≤ length xs → drop n (xs ++ extra) ≡ drop n xs ++ extra
drop-extended zero xs extra h = refl
drop-extended (suc n) [] extra h = absurd (omega arith)
drop-extended (suc n) (x ∷ xs) extra h = drop-extended n xs extra (omega arith)

take-extended : (n : ℕ) (xs extra : Bytes) → n ≤ length xs → take n (xs ++ extra) ≡ take n xs
take-extended zero xs extra h = refl
take-extended (suc n) [] extra h = absurd (omega arith)
take-extended (suc n) (x ∷ xs) extra h = ap (◌∷◌ x) (take-extended n xs extra (omega arith))

skip-extended :
    (buf extra : Bytes) (n : ℕ) (t : Turn)
    → (skip buf n >>= (λ r. ok (more r))) ≡ ok t
    → (skip (buf ++ extra) n >>= (λ r. ok (more r))) ≡ ok (extended extra t)
unfolding skip
skip-extended buf extra n t h = elim (Bool-cases (ltb (length buf) n)) [
  | inl short ↦ absurd (no (rw short at h))
  | inr room ↦
      let fits : ltb (length (buf ++ extra)) n ≡ false = ground (arith, length-append buf extra) in
      let same : Path (Result Turn DecodeError) (ok (more (drop n buf))) (ok t) = rw room at h in
      rw (fits, drop-extended n buf extra (ground arith)) (grow same)
]
  where
    no : {e : DecodeError} → Path (Result Turn DecodeError) (err e) (ok t) → ⊥
    no q = cc

    grow :
        Path (Result Turn DecodeError) (ok (more (drop n buf))) (ok t)
        → Path (Result Turn DecodeError) (ok (more (drop n buf ++ extra))) (ok (extended extra t))
    grow q = ap (λ r. r >>= (λ u. ok (extended extra u))) q

delimited-extended :
    (tag n : ℕ) (buf extra : Bytes) (t : Turn)
    → delimited tag n buf ≡ ok t
    → delimited tag n (buf ++ extra) ≡ ok (extended extra t)
unfolding delimited
delimited-extended tag n buf extra t h =
    let (small, h1) = passed (not (ltb n (2 ^ 64))) _ _ h in
    let (room, h2) = passed (ltb (length buf) n) _ _ h1 in
    let fits : ltb (length (buf ++ extra)) n ≡ false = ground (arith, length-append buf extra) in
    rw
      (
        small,
        fits,
        take-extended n buf extra (ground arith),
        drop-extended n buf extra (ground arith),
      )
      (grow (is_payload_tag tag) h2)
  where
    grow :
        (b : Bool)
        → Path
            (Result Turn DecodeError)
            (if b then ok (found (take n buf)) else ok (more (drop n buf)))
            (ok t)
        → Path
            (Result Turn DecodeError)
            (if b then ok (found (take n buf)) else ok (more (drop n buf ++ extra)))
            (ok (extended extra t))
    grow true q = ap (λ r. r >>= (λ u. ok (extended extra u))) q
    grow false q = ap (λ r. r >>= (λ u. ok (extended extra u))) q

module _ (p : Prost) (s : Prefix p) (extra : Bytes) where
  field_turn-extended :
      (tag : ℕ) (w : WireType) (buf : Bytes) (t : Turn)
      → field_turn p tag w buf ≡ ok t
      → field_turn p tag w (buf ++ extra) ≡ ok (extended extra t)
  field_turn-extended tag varint buf t h = go (p.decode_varint buf) refl h
    where
      go :
          (o : Option (ℕ × Bytes))
          → p.decode_varint buf ≡ o
          → (ok_or o prost >>= (λ r. ok (more r.1))) ≡ ok t
          → field_turn p tag varint (buf ++ extra) ≡ ok (extended extra t)
      go none e q = cc
      go (some (v, r)) e q =
          rw (s.number buf r extra v e) (ap (λ x. x >>= (λ u. ok (extended extra u))) q)
  field_turn-extended tag sixty_four_bit buf t h = skip-extended buf extra 8 t h
  field_turn-extended tag thirty_two_bit buf t h = skip-extended buf extra 4 t h
  field_turn-extended tag length_delimited buf t h = go (p.decode_varint buf) refl h
    where
      go :
          (o : Option (ℕ × Bytes))
          → p.decode_varint buf ≡ o
          → (ok_or o prost >>= (λ r. delimited tag r.0 r.1)) ≡ ok t
          → field_turn p tag length_delimited (buf ++ extra) ≡ ok (extended extra t)
      go none e q = cc
      go (some (v, r)) e q = rw (s.number buf r extra v e) (delimited-extended tag v r extra t q)
  field_turn-extended tag start_group buf t h = cc
  field_turn-extended tag end_group buf t h = cc

  turn-extended :
      (buf : Bytes) (t : Turn) → turn p buf ≡ ok t → turn p (buf ++ extra) ≡ ok (extended extra t)
  unfolding turn
  turn-extended buf t h = go (p.decode_key buf) refl h
    where
      go :
          (o : Option ((ℕ × WireType) × Bytes))
          → p.decode_key buf ≡ o
          → (ok_or o prost >>= (λ k. field_turn p k.0.0 k.0.1 k.1)) ≡ ok t
          → (ok_or (p.decode_key (buf ++ extra)) prost >>= (λ k. field_turn p k.0.0 k.0.1 k.1))
            ≡ ok (extended extra t)
      go none e q = cc
      go (some ((tag, w), r)) e q =
          rw (s.key buf r extra (tag, w) e) (field_turn-extended tag w r t q)

  module _ (c : Consumes p) (x : Bytes) (some_payload : x ≢ []) where
    scan-extended :
        (fuel enough : ℕ) (buf : Bytes)
        → length (buf ++ extra) ≤ enough
        → scan p fuel buf ≡ ok x
        → scan p enough (buf ++ extra) ≡ ok x
    unfolding scan
    scan-extended zero enough [] h q = absurd (some_payload (cc))
    scan-extended (suc fuel) enough [] h q = absurd (some_payload (cc))
    scan-extended zero enough (b ∷ buf) h q = cc
    scan-extended (suc fuel) enough (b ∷ buf) h q =
        go (λ n rest l. scan-extended fuel n rest l) (turn p (b ∷ buf)) refl q
      where
        go :
            ((n : ℕ) (rest : Bytes)
              → length (rest ++ extra) ≤ n
              → scan p fuel rest ≡ ok x
              → scan p n (rest ++ extra) ≡ ok x)
            → (t : Result Turn DecodeError) → turn p (b ∷ buf) ≡ t
            → (t >>= after (λ rest. scan p fuel rest)) ≡ ok x
            → scan p enough ((b ∷ buf) ++ extra) ≡ ok x
        go ih (err e) same r = cc
        go ih (ok (found y)) same r =
            scan_found p c enough ((b ∷ buf) ++ extra) y h (omega arith)
              (turn-extended (b ∷ buf) (found y) same)
            ∙ r
        go ih (ok (more rest)) same r =
            let (n, less, e) =
              scan_more p c enough ((b ∷ buf) ++ extra) (rest ++ extra) h
                (turn-extended (b ∷ buf) (more rest) same) in
            e ∙ ih n rest less r

    -- Bytes behind the envelope do not change the payload that is found.
    pub raw_envelope_payload-extended :
        (bytes : Bytes)
        → raw_envelope_payload p bytes ≡ ok x
        → raw_envelope_payload p (bytes ++ extra) ≡ ok x
    unfolding raw_envelope_payload
    raw_envelope_payload-extended bytes q =
        scan-extended (length bytes) (length (bytes ++ extra)) bytes (omega arith) q
