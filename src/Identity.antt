-- ===== src/Identity.antt =====
-- rust/fhs/src/p2p/identity.rs: the identity of a node and the file that keeps it. The crates for
-- keys, JSON and encodings are the record `Keys`; the error texts of the crates are not kept.
pub mod Keys
use galax_ia_sdk.Prelude.{
  ℕ, Bool, true, false, Option, none, some, List, [], ◌∷◌, ◌++◌, if◌then◌else◌,
}
use galax_ia_sdk.Prelude.Result.{Result, ok, err, ok_or, ◌>>=◌}
use galax_ia_sdk.Text.{Text, Bytes}
use galax_ia_sdk.Text.Trim.{trim}
use galax_ia_sdk.Limits.{PeerId}
use galax_ia_sdk.Signing.{Crypto, did_key_prefix, ed25519_multicodec, did_public_key, DidError}

-- the two fields that an identity file may have
pub record AnyIdentity : Type 0 where
  pub private_key_hex : Option Text
  pub key : Option Text

pub record Crates : Type 1 where
  pub Keypair : Type 0
  pub ed25519_public : Keypair → Option Bytes
  pub peer_id : Keypair → PeerId
  pub to_protobuf : Keypair → Option Bytes
  pub from_protobuf : Bytes → Option Keypair
  pub base58_encode : Bytes → Text
  pub hex_encode : Bytes → Text
  pub hex_decode : Text → Option Bytes
  pub base64_decode : Text → Option Bytes
  pub parse_json : Text → Option AnyIdentity
  pub print_json : Text → Text
  pub peer_of_public : Bytes → Option PeerId

pub data KeyFault : Type 0 where
  bad_json : KeyFault
  bad_encoding : KeyFault
  no_key : KeyFault
  bad_protobuf : KeyFault
  not_ed25519 : KeyFault

pub data IdentityError : Type 0 where
  io : IdentityError
  invalid : KeyFault → IdentityError

pub data PeerFault : Type 0 where
  bad_did : DidError → PeerFault
  bad_key : PeerFault

module _ (k : Crates) where
  pub record NodeIdentity : Type 0 where
    pub keypair : k.Keypair
    pub peer_id : PeerId
    pub did : Text

  -- the key that a file holds: the hexadecimal field goes before the other
  abbrev pub key_of : AnyIdentity → Result Bytes KeyFault
  key_of persisted = elim persisted.private_key_hex [
    | some hex_key ↦ ok_or (k.hex_decode (trim hex_key)) bad_encoding
    | none ↦ elim persisted.key [
      | some b64 ↦ ok_or (k.base64_decode (trim b64)) bad_encoding
      | none ↦ err no_key
    ]
  ]

  unfoldable pub protobuf_key : Text → Result Bytes KeyFault
  protobuf_key raw = ok_or (k.parse_json raw) bad_json >>= key_of

  unfoldable pub did_of : Bytes → Text
  did_of public = did_key_prefix ++ k.base58_encode (ed25519_multicodec ++ public)

  unfoldable pub from_keypair : k.Keypair → Result NodeIdentity KeyFault
  from_keypair keypair = ok_or (k.ed25519_public keypair) not_ed25519 >>= (λ public.
      ok (record { keypair = keypair; peer_id = k.peer_id keypair; did = did_of public }))

  -- The file of the identity: none, one that cannot be read, or its text.
  pub data File : Type 0 where
    absent : File
    unreadable : File
    holds : Text → File

  abbrev pub or_invalid : {A : Type 0} → Result A KeyFault → Result A IdentityError
  or_invalid (ok a) = ok a
  or_invalid (err fault) = err (invalid fault)

  abbrev pub load : Text → Result NodeIdentity IdentityError
  load raw =
      or_invalid (
        protobuf_key raw >>= (λ bytes. ok_or (k.from_protobuf bytes) bad_protobuf >>= from_keypair))

  abbrev pub write_new :
      k.Keypair → Bool → Option Bytes → Result NodeIdentity IdentityError × Option Text
  write_new generated writable none = (err (invalid bad_protobuf), none)
  write_new generated false (some bytes) = (err io, none)
  write_new generated true (some bytes) =
      (or_invalid (from_keypair generated), some (k.print_json (k.hex_encode bytes)))

  -- The identity and what is written to the file; a key is generated for when there is none.
  unfoldable pub load_or_create :
      k.Keypair → Bool → File → Result NodeIdentity IdentityError × Option Text
  load_or_create generated writable (holds raw) = (load raw, none)
  load_or_create generated writable unreadable = (err io, none)
  load_or_create generated writable absent = write_new generated writable (k.to_protobuf generated)

  abbrev pub or_bad_did : Result Bytes DidError → Result Bytes PeerFault
  or_bad_did (ok key) = ok key
  or_bad_did (err e) = err (bad_did e)

  unfoldable pub peer_id_of_did : Crypto → Text → Result PeerId PeerFault
  peer_id_of_did c did =
      or_bad_did (did_public_key c did) >>= (λ key. ok_or (k.peer_of_public key) bad_key)
