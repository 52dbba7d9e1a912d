-- ===== src/Authorization/Binding.antt =====
-- What a digest binds: two equal digests come from the same domain and the same value, or they show
-- a collision of SHA-256.
use galax_ia_sdk.Prelude.{◌+◌, ◌≡◌, ◌≢◌, ◌⊎◌, inl, inr, refl, [], ◌∷◌, ◌++◌, arith, All, Bool-cases}
use galax_ia_sdk.Prelude.Lex.{list_eq, list_eq_iff}
use galax_ia_sdk.Prelude.Result.{ok, >>=-eq-ok}
use galax_ia_sdk.Text.{Bytes}
use galax_ia_sdk.Protocol.{DynamicValue}
use galax_ia_sdk.Authorization.{framed, framed_input, value_digest, encode_value}
use galax_ia_sdk.Authorization.Decoder.{Fits, normal, depth}
use galax_ia_sdk.Authorization.RoundTrip.{back}

-- Two inputs with one hash.
abbrev pub Collision : (Bytes → Bytes) → Type 0
Collision sha256 = (x y : Bytes) × (x ≢ y) × (sha256 x ≡ sha256 y)

-- The domains of the program hold no byte 0.
abbrev pub IsDomain : Bytes → Type 0
IsDomain = All (λ b. b ≢ 0)

framed_input_cancel :
    (d e b c : Bytes) → IsDomain d → IsDomain e → d ++ (0 ∷ b) ≡ e ++ (0 ∷ c) → (d ≡ e) × (b ≡ c)
framed_input_cancel [] [] b c hd he eq = (refl, ground arith)
framed_input_cancel [] (y ∷ ys) b c hd he eq = absurd (he.0 (ground arith))
framed_input_cancel (x ∷ xs) [] b c hd he eq = absurd (hd.0 (ground arith))
framed_input_cancel (x ∷ xs) (y ∷ ys) b c hd he eq =
    let (p, q) = framed_input_cancel xs ys b c hd.1 he.1 (ground arith) in
    let r : x ≡ y = ground arith in (ground arith, q)

-- The bytes that are hashed determine the domain and the body.
pub framed_input_injective :
    (d e b c : Bytes)
    → IsDomain d
    → IsDomain e
    → framed_input d b ≡ framed_input e c
    → (d ≡ e) × (b ≡ c)
unfolding framed_input
framed_input_injective d e b c hd he eq =
    let (p, q) = framed_input_cancel d e (49 ∷ 0 ∷ b) (49 ∷ 0 ∷ c) hd he eq in (p, ground arith)

module _ (sha256 : Bytes → Bytes) where
  pub same_or_Collision : (x y : Bytes) → sha256 x ≡ sha256 y → (x ≡ y) ⊎ Collision sha256
  same_or_Collision x y e = elim (Bool-cases (list_eq x y)) [
    | inl same ↦ inl ((list_eq_iff x y).0 same)
    | inr other ↦ inr (x, y, (λ p. cc ((list_eq_iff x y).1 p)), e)
  ]

  -- Equal digests have the same domain and the same body, or show a collision.
  pub framed_binding :
      (d e b c : Bytes)
      → IsDomain d
      → IsDomain e
      → framed sha256 d b ≡ framed sha256 e c
      → ((d ≡ e) × (b ≡ c)) ⊎ Collision sha256
  unfolding framed
  framed_binding d e b c hd he eq =
      elim (same_or_Collision (framed_input d b) (framed_input e c) eq) [
        | inl same ↦ inl (framed_input_injective d e b c hd he same)
        | inr collision ↦ inr collision
      ]

-- Values with one canonical form have one normal form.
pub encode_value_injective :
    (v w : DynamicValue) (out : Bytes)
    → Fits v
    → Fits w
    → encode_value v ≡ ok out
    → encode_value w ≡ ok out
    → normal v ≡ normal w
encode_value_injective v w out fv fw hv hw =
    let fuel = depth v + depth w in
    let p = back v fuel fv (omega arith) out [] hv in
    let q = back w fuel fw (omega arith) out [] hw in ground (arith, p, q)

-- Two argument values of the types of the program, with lengths below 2^32 and under domains
-- without a byte 0, that have one digest have the same domain and are the same up to the order
-- of keys and the sign of zero, or they give a collision of SHA-256.
pub value_digest_binding :
    (sha256 : Bytes → Bytes) (d e digest : Bytes) (v w : DynamicValue)
    → IsDomain d
    → IsDomain e
    → Fits v
    → Fits w
    → value_digest sha256 d v ≡ ok digest
    → value_digest sha256 e w ≡ ok digest
    → ((d ≡ e) × (normal v ≡ normal w)) ⊎ Collision sha256
unfolding value_digest
value_digest_binding sha256 d e digest v w hd he fv fw p q =
    let (b, eb, kb) = >>=-eq-ok (encode_value v) _ p in
    let (c, ec, kc) = >>=-eq-ok (encode_value w) _ q in
    elim (framed_binding sha256 d e b c hd he (ground arith)) [
      | inl (same, body) ↦ inl (same, encode_value_injective v w c fv fw (cc) ec)
      | inr collision ↦ inr collision
    ]
