-- ===== src/Signing/Payloads.antt =====
-- What the signed texts determine.
use galax_ia_sdk.Prelude.{
  ℕ, ◌≡◌, ◌≢◌, refl, ap, ◌∙◌, sym, List, [], ◌∷◌, ◌++◌, arith, All, append_assoc, length, subst,
  suc,
}
use galax_ia_sdk.Prelude.Int.{ℤ, pos, negsuc}
use galax_ia_sdk.Prelude.Sort.{Shuffle, sort_on-Shuffle}
use galax_ia_sdk.Text.{Text, Bytes, codes}
use galax_ia_sdk.Text.Utf8.{as_bytes}
use galax_ia_sdk.Text.Decimal.{print_ℕ, print_ℤ, IsDigit, print_ℕ-IsDigit, IsI64, print_ℤ_injective}
use galax_ia_sdk.Protocol.{NodeAdvertiseMessage, MissionBidMessage, MissionAssignMessage}
use galax_ia_sdk.Signing.{
  Crypto, colons, beacon_sha256, node_advertise_payload, mission_assign_payload,
  mission_bid_payload, did_key_prefix,
}

abbrev pub NoColon : Text → Type 0
NoColon = All (λ (c : ℕ). c ≢ 58)

inside_lem : (s t : Text) → NoColon (s ++ 58 ∷ t) → ⊥
inside_lem [] t (h, hs) = h refl
inside_lem (x ∷ s) t (h, hs) = inside_lem s t hs

-- The last colon splits a text in one way.
last_colon :
    (s s' t t' : Text) → NoColon t → NoColon t' → s ++ 58 ∷ t ≡ s' ++ 58 ∷ t' → (s ≡ s') × (t ≡ t')
last_colon [] [] t t' h h' e = (refl, cc)
last_colon [] (x ∷ s') t t' h h' e =
    let same : t ≡ s' ++ 58 ∷ t' = cc in absurd (inside_lem s' t' (subst NoColon same h))
last_colon (x ∷ s) [] t t' h h' e =
    let same : t' ≡ s ++ 58 ∷ t = cc in absurd (inside_lem s t (subst NoColon same h'))
last_colon (x ∷ s) (y ∷ s') t t' h h' e =
    let head : x ≡ y = cc in
    let tails : s ++ 58 ∷ t ≡ s' ++ 58 ∷ t' = cc in
    let (p, q) = last_colon s s' t t' h h' tails in (λ i. head i ∷ p i, q)

-- Joined fields determine their fields, when none but the first holds a colon.
pub colons_injective :
    (a a' : Text) (l l' : List Text)
    → length l ≡ length l'
    → All NoColon l
    → All NoColon l'
    → colons a l ≡ colons a' l'
    → (a ≡ a') × (l ≡ l')
unfolding colons
colons_injective a a' [] [] n h h' e = (e, refl)
colons_injective a a' [] (t' ∷ l') n h h' e = absurd (omega arith)
colons_injective a a' (t ∷ l) [] n h h' e = absurd (omega arith)
colons_injective a a' (t ∷ l) (t' ∷ l') n (h, hs) (h', hs') e =
    let (p, q) = colons_injective (a ++ 58 ∷ t) (a' ++ 58 ∷ t') l l' (omega arith) hs hs' e in
    let (x, y) = last_colon a a' t t' h h' p in (x, λ i. y i ∷ q i)

digits-NoColon : (t : Text) → All IsDigit t → NoColon t
digits-NoColon [] h = tt
digits-NoColon (c ∷ t) (h, hs) = ((λ e. omega arith), digits-NoColon t hs)

pub print_ℤ-NoColon : (z : ℤ) → NoColon (print_ℤ z)
unfolding print_ℤ
print_ℤ-NoColon (pos n) = digits-NoColon (print_ℕ n) (print_ℕ-IsDigit n)
print_ℤ-NoColon (negsuc n) =
    ((λ e. ground arith), digits-NoColon (print_ℕ (suc n)) (print_ℕ-IsDigit (suc n)))

-- The signed text of an advertisement determines its DID, the digest of its beacon, its time and
-- its life.
pub node_advertise_payload_injective :
    (c : Crypto) (m m' : NodeAdvertiseMessage)
    → ((b : Bytes) → NoColon (c.hex b))
    → IsI64 m.timestamp
    → IsI64 m'.timestamp
    → IsI64 m.ttl_seconds
    → IsI64 m'.ttl_seconds
    → node_advertise_payload c m ≡ node_advertise_payload c m'
    → (m.did ≡ m'.did)
      × (beacon_sha256 c m.beacon ≡ beacon_sha256 c m'.beacon)
      × (m.timestamp ≡ m'.timestamp)
      × (m.ttl_seconds ≡ m'.ttl_seconds)
unfolding node_advertise_payload beacon_sha256
node_advertise_payload_injective c m m' hex t t' l l' e =
    let (did, fields) =
      colons_injective m.did m'.did _ _ refl
        (hex _, (print_ℤ-NoColon m.timestamp, (print_ℤ-NoColon m.ttl_seconds, tt)))
        (hex _, (print_ℤ-NoColon m'.timestamp, (print_ℤ-NoColon m'.ttl_seconds, tt))) e in
    (
      did,
      cc,
      print_ℤ_injective m.timestamp m'.timestamp t t' (cc),
      print_ℤ_injective m.ttl_seconds m'.ttl_seconds l l' (cc),
    )

-- A DID whose key is a text without colons, as every base58 text is.
abbrev pub IsDidKey : Text → Type 0
IsDidKey did = (key : Text) × (did ≡ did_key_prefix ++ key) × NoColon key

split_did :
    (a key : Text)
    → a ++ 58 ∷ (did_key_prefix ++ key)
      ≡ ((a ++ 58 ∷ codes "did") ++ 58 ∷ codes "key") ++ 58 ∷ 122 ∷ key
split_did a key = sym (
    append_assoc (a ++ 58 ∷ codes "did") (58 ∷ codes "key") (58 ∷ 122 ∷ key)
    ∙ append_assoc a (58 ∷ codes "did") (58 ∷ codes "key" ++ 58 ∷ 122 ∷ key))

-- A DID among the fields is three fields.
abbrev spread : Text → List Text → List Text
spread key l = codes "did" ∷ codes "key" ∷ (122 ∷ key) ∷ l

colons-spread :
    (a key : Text) (l : List Text)
    → colons a ((did_key_prefix ++ key) ∷ l) ≡ colons a (spread key l)
unfolding colons
colons-spread a key l = ap (λ x. colons x l) (split_did a key)

spread-NoColon :
    (key : Text) (l : List Text) → NoColon key → All NoColon l → All NoColon (spread key l)
spread-NoColon key l h hs = (ground arith, (ground arith, (((λ e. omega arith), h), hs)))

colons_with_dids :
    (a k k' t : Text)
    → colons a ((did_key_prefix ++ k) ∷ (did_key_prefix ++ k') ∷ t ∷ [])
      ≡ colons a (spread k (spread k' (t ∷ [])))
unfolding colons
colons_with_dids a k k' t =
    colons-spread a k ((did_key_prefix ++ k') ∷ t ∷ [])
    ∙ colons-spread (((a ++ 58 ∷ codes "did") ++ 58 ∷ codes "key") ++ 58 ∷ 122 ∷ k) k' (t ∷ [])

-- The signed text of an assignment between `did:key` nodes determines the mission, both nodes
-- and the time, whatever the id of the mission is.
pub mission_assign_payload_injective :
    (m m' : MissionAssignMessage)
    → IsDidKey m.navigator_did
    → IsDidKey m'.navigator_did
    → IsDidKey m.assigned_provider
    → IsDidKey m'.assigned_provider
    → IsI64 m.timestamp
    → IsI64 m'.timestamp
    → mission_assign_payload m ≡ mission_assign_payload m'
    → (m.mission_id ≡ m'.mission_id)
      × (m.navigator_did ≡ m'.navigator_did)
      × (m.assigned_provider ≡ m'.assigned_provider)
      × (m.timestamp ≡ m'.timestamp)
unfolding mission_assign_payload
mission_assign_payload_injective m m' (k, d, n) (k', d', n') (p, q, r) (p', q', r') t t' e =
    let spread_out : (a : MissionAssignMessage) (x y : Text)
        → a.navigator_did ≡ did_key_prefix ++ x
        → a.assigned_provider ≡ did_key_prefix ++ y
        → mission_assign_payload a
          ≡ colons a.mission_id (spread x (spread y (print_ℤ a.timestamp ∷ []))) =
      λ a x y g h. rw (g, h) (colons_with_dids a.mission_id x y (print_ℤ a.timestamp)) in
    let (mission, fields) =
      colons_injective m.mission_id m'.mission_id _ _ refl
        (spread-NoColon k (spread p (print_ℤ m.timestamp ∷ [])) n
          (spread-NoColon p (print_ℤ m.timestamp ∷ []) r (print_ℤ-NoColon m.timestamp, tt)))
        (spread-NoColon k' (spread p' (print_ℤ m'.timestamp ∷ [])) n'
          (spread-NoColon p' (print_ℤ m'.timestamp ∷ []) r' (print_ℤ-NoColon m'.timestamp, tt)))
        (sym (spread_out m k p d q) ∙ e ∙ spread_out m' k' p' d' q') in
    let navigator : k ≡ k' = cc in
    let provider : p ≡ p' = cc in
    (
      mission,
      d ∙ ap (λ x. did_key_prefix ++ x) navigator ∙ sym d',
      q ∙ ap (λ x. did_key_prefix ++ x) provider ∙ sym q',
      print_ℤ_injective m.timestamp m'.timestamp t t' (cc),
    )

-- The order in which a bid lists its capabilities does not reach the signed text.
pub mission_bid_payload-Shuffle :
    (b b' : MissionBidMessage)
    → b.mission_id ≡ b'.mission_id
    → b.provider_did ≡ b'.provider_did
    → b.timestamp ≡ b'.timestamp
    → Shuffle as_bytes b.offered_capabilities b'.offered_capabilities
    → mission_bid_payload b ≡ mission_bid_payload b'
unfolding mission_bid_payload
mission_bid_payload-Shuffle b b' mission provider time s =
    rw (mission, provider, time, sort_on-Shuffle as_bytes s)
