-- ===== src/Identity/Keys.antt =====
-- The DID of a key gives the key back, and the file of an identity gives the identity back.
use galax_ia_sdk.Prelude.{
  ◌≡◌, refl, ap, ◌∙◌, sym, Bool, true, Option, none, some, ◌++◌, length, arith,
}
use galax_ia_sdk.Prelude.Lex.{list_eq}
use galax_ia_sdk.Prelude.Result.{Result, ok}
use galax_ia_sdk.Text.{Text, Bytes}
use galax_ia_sdk.Text.Trim.{trim}
use galax_ia_sdk.Signing.{
  Crypto, did_public_key, strip_prefix, did_key_prefix, ed25519_multicodec, ed25519_key,
}
use galax_ia_sdk.Identity.{
  Crates, NodeIdentity, did_of, from_keypair, protobuf_key, load_or_create, holds, absent,
  peer_id_of_did, load, write_new, IdentityError, or_invalid,
}

strip_own_prefix : (t : Text) → strip_prefix did_key_prefix (did_key_prefix ++ t) ≡ some t
unfolding strip_prefix
strip_own_prefix t = refl

own_key : (key : Bytes) → length key ≡ 32 → ed25519_key (ed25519_multicodec ++ key) ≡ ok key
unfolding list_eq
own_key key h = ground arith

module _ (k : Crates) (c : Crypto) where
  -- The DID made of a 32-byte key gives back that key, when base58 decodes what it encodes.
  pub did_public_key-did_of :
      (key : Bytes)
      → ((b : Bytes) → c.base58 (k.base58_encode b) ≡ some b)
      → length key ≡ 32
      → did_public_key c (did_of k key) ≡ ok key
  unfolding did_public_key did_of
  did_public_key-did_of key back size =
      rw
        (
          strip_own_prefix (k.base58_encode (ed25519_multicodec ++ key)),
          back (ed25519_multicodec ++ key),
        )
        (own_key key size)

  -- The peer of the DID of a key is the peer of the key, when libp2p derives it from the key.
  pub peer_id_of_did-did_of :
      (keypair : k.Keypair) (key : Bytes)
      → ((b : Bytes) → c.base58 (k.base58_encode b) ≡ some b)
      → length key ≡ 32
      → k.peer_of_public key ≡ some (k.peer_id keypair)
      → peer_id_of_did k c (did_of k key) ≡ ok (k.peer_id keypair)
  unfolding peer_id_of_did
  peer_id_of_did-did_of keypair key back size same =
      rw (did_public_key-did_of key back size, same) refl

-- The crates read back what they write, and a printed hexadecimal text has no blanks around it.
pub record ReadsBack (k : Crates) : Type 0 where
  pub json :
      (hex : Text)
      → k.parse_json (k.print_json hex) ≡ some (record { private_key_hex = some hex; key = none })
  pub hex : (b : Bytes) → k.hex_decode (trim (k.hex_encode b)) ≡ some b
  pub protobuf :
      (kp : k.Keypair) (b : Bytes) → k.to_protobuf kp ≡ some b → k.from_protobuf b ≡ some kp

load_written :
    (k : Crates) (generated : k.Keypair) (bytes : Bytes)
    → ReadsBack k
    → k.to_protobuf generated ≡ some bytes
    → load k (k.print_json (k.hex_encode bytes)) ≡ or_invalid k (from_keypair k generated)
unfolding protobuf_key
load_written k generated bytes b e =
    rw (b.json (k.hex_encode bytes), b.hex bytes, b.protobuf generated bytes e) refl

-- A node that finds no file creates its identity and writes a file; started again with that
-- file, it has the same identity and writes nothing.
pub load_or_create-again :
    (k : Crates) (generated other : k.Keypair) (writable : Bool) (id : NodeIdentity k) (file : Text)
    → ReadsBack k
    → load_or_create k generated true absent ≡ (ok id, some file)
    → load_or_create k other writable (holds file) ≡ (ok id, none)
unfolding load_or_create
load_or_create-again k generated other writable id file b h = go (k.to_protobuf generated) refl h
  where
    Found : Type 0
    Found = Result (NodeIdentity k) IdentityError × Option Text

    go :
        (o : Option Bytes)
        → k.to_protobuf generated ≡ o
        → write_new k generated true o ≡ (ok id, some file)
        → Path Found (load k file, none) (ok id, none)
    go none e q = absurd (nothing (ap (λ r. r.1) q))
      where
        nothing : Path (Option Text) none (some file) → ⊥
        nothing p = cc
    go (some bytes) e q =
        let written : k.print_json (k.hex_encode bytes) ≡ file = same (ap (λ r. r.1) q) in
        ap (λ f. (load k f, none)) (sym written)
        ∙ ap (λ r. (r, none)) (load_written k generated bytes b e ∙ ap (λ r. r.0) q)
      where
        same : {x y : Text} → Path (Option Text) (some x) (some y) → x ≡ y
        same p = cc
