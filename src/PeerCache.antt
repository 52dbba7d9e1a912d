-- ===== src/PeerCache.antt =====
-- rust/fhs/src/p2p/peer_cache.rs: the providers that a node knows by their signed advertisements.
-- The clock is an argument; the lock makes each call one step on the map. A beacon that is absent is
-- an empty one. The order in which a `HashMap` lists its entries is that of the association list.
pub mod Civil
pub mod Upsert
pub mod Reach
use galax_ia_sdk.Prelude.{
  ℕ, ◌+◌, ◌*◌, ◌/◌, ◌^◌, Bool, true, false, Option, none, some, List, [], ◌∷◌, ◌++◌, ltb, ◌==◌,
  if◌then◌else◌, not, ◌&&◌, ◌||◌,
}
use galax_ia_sdk.Prelude.Int.{ℤ, pos, negsuc, ◌+ℤ◌, ◌*ℤ◌, ltb_ℤ, wrap_i64, checked_i64, abs_diff}
use galax_ia_sdk.Prelude.Dict.{Dict, get, insert, retain, list_key, keep_if}
use galax_ia_sdk.Prelude.Lex.{list_eq}
use galax_ia_sdk.Text.{Text, codes}
use galax_ia_sdk.Protocol.{ProviderIdentity, Beacon, NodeAdvertiseMessage}

pub data PeerType : Type 0 where
  star : PeerType
  satellite : PeerType
  nova : PeerType
  unknown : PeerType

-- `reputation_score` is always 0.5 and stands for its bit pattern.
pub record PeerEntry : Type 0 where
  pub did : Text
  pub beacon : Beacon
  pub multiaddrs : List Text
  pub trust_level : Text
  pub reputation_score : ℕ
  pub peer_type : PeerType
  pub capabilities : List Text
  pub last_seen_ms : ℤ
  pub expires_at_ms : ℤ
  pub advert_expires_ms : ℤ
  pub advert_timestamp_ms : ℤ

abbrev pub one_half : ℕ
one_half = 0x3fe * 2 ^ 52

abbrev pub ttl_grace_ms : ℕ
ttl_grace_ms = 30000

abbrev pub max_advert_skew_ms : ℕ
max_advert_skew_ms = 120000

abbrev pub max_advert_ttl_seconds : ℕ
max_advert_ttl_seconds = 120

-- `list.is_empty()`
abbrev pub is_empty : {A : Type 0} → List A → Bool
is_empty [] = true
is_empty (x ∷ xs) = false

-- the accessors of an entry: what its provider says, or a default
pub field_of : {A : Type 0} → PeerEntry → (ProviderIdentity → A) → A → A
field_of e read default = elim e.beacon.provider [ none ↦ default | some p ↦ read p ]

pub name : PeerEntry → Text
unfolding field_of
name e = let given = field_of e (λ p. p.name) [] in if is_empty given then e.did else given

pub description : PeerEntry → Text
unfolding field_of
description e = field_of e (λ p. p.description) []

pub tags : PeerEntry → List Text
unfolding field_of
tags e = field_of e (λ p. p.tags) []

pub provider_id : PeerEntry → Text
unfolding field_of
provider_id e = field_of e (λ p. p.id) []

pub visibility : PeerEntry → ℤ
unfolding field_of
visibility e = field_of e (λ p. p.visibility) (pos 0)

abbrev pub peer_type_of : ℤ → PeerType
peer_type_of (negsuc n) = unknown
peer_type_of (pos n) =
    if n == 1 then star else if n == 2 then satellite else if n == 3 then nova else unknown

abbrev pub or_empty : Option Beacon → Beacon
or_empty (some b) = b
or_empty none = record {
  fhs_version = [];
  provider = none;
  capabilities = [];
  agent_capabilities = [];
  commands = [];
  unread = [];
}

abbrev pub type_of : Option ProviderIdentity → ℤ
type_of none = pos 0
type_of (some p) = p.provider_type

abbrev pub Cache : Type 0
Cache = Dict Text PeerEntry

-- the range 1..=120 of a TTL in seconds
abbrev pub ttl_ok : ℤ → Bool
ttl_ok ttl = not (ltb_ℤ ttl (pos 1)) && not (ltb_ℤ (pos max_advert_ttl_seconds) ttl)

unfoldable pub fresh : NodeAdvertiseMessage → ℤ → Bool
fresh m now = ttl_ok m.ttl_seconds && not (ltb max_advert_skew_ms (abs_diff m.timestamp now))

abbrev pub plus_ttl : ℤ → Option ℤ → Option ℤ
plus_ttl timestamp none = none
plus_ttl timestamp (some ms) = checked_i64 (timestamp +ℤ ms)

-- `timestamp + ttl`, both products and sums checked
unfoldable pub advert_expiry : NodeAdvertiseMessage → Option ℤ
advert_expiry m = plus_ttl m.timestamp (checked_i64 (m.ttl_seconds *ℤ pos 1000))

-- the entry of this DID holds an advertisement that is as new
unfoldable pub is_replay : NodeAdvertiseMessage → Option PeerEntry → Bool
is_replay m none = false
is_replay m (some known) = not (ltb_ℤ known.advert_timestamp_ms m.timestamp)

unfoldable pub entry_of : NodeAdvertiseMessage → ℤ → ℤ → PeerEntry
entry_of m now expiry =
    let beacon = or_empty m.beacon in
    record {
      did = m.did;
      beacon = beacon;
      multiaddrs = m.multiaddrs;
      trust_level = m.trust_level;
      reputation_score = one_half;
      peer_type = peer_type_of (type_of beacon.provider);
      capabilities = beacon.capabilities ++ beacon.agent_capabilities;
      last_seen_ms = now;
      expires_at_ms =
          wrap_i64
            (m.timestamp +ℤ wrap_i64 (wrap_i64 (m.ttl_seconds *ℤ pos 1000) +ℤ pos ttl_grace_ms));
      advert_expires_ms = expiry;
      advert_timestamp_ms = m.timestamp;
    }

-- the part of `upsert_at` behind the check of the sums
abbrev pub store : Cache → NodeAdvertiseMessage → ℤ → Option ℤ → Cache × Bool
store c m now none = (c, false)
store c m now (some expiry) =
    if is_replay m (get m.did c) then (c, false) else (insert m.did (entry_of m now expiry) c, true)

-- The read lock of the test for a replay and the write lock of the store are taken as one step.
unfoldable pub upsert_at : Cache → NodeAdvertiseMessage → ℤ → Cache × Bool
upsert_at c m now =
    if is_empty m.did || not (fresh m now) then (c, false) else store c m now (advert_expiry m)

abbrev pub alive : ℤ → PeerEntry → Bool
alive now e = ltb_ℤ now e.expires_at_ms

-- `live` drops what has expired, and lists the rest.
unfoldable pub live : Cache → ℤ → Cache
live c now = retain (alive now) c

abbrev pub values : Cache → List PeerEntry
values [] = []
values ((k, e) ∷ c) = e ∷ values c

abbrev pub filter : (PeerEntry → Bool) → List PeerEntry → List PeerEntry
filter p [] = []
filter p (e ∷ es) = if p e then e ∷ filter p es else filter p es

abbrev pub is_star : PeerType → Bool
is_star star = true
is_star _ = false

abbrev pub is_satellite : PeerType → Bool
is_satellite satellite = true
is_satellite _ = false

unfoldable pub stars : Cache → ℤ → List PeerEntry
stars c now = filter (λ e. is_star e.peer_type) (values (live c now))

unfoldable pub satellites : Cache → ℤ → List PeerEntry
satellites c now = filter (λ e. is_satellite e.peer_type) (values (live c now))

abbrev pub find_did : Text → List PeerEntry → Option PeerEntry
find_did did [] = none
find_did did (e ∷ es) = if list_eq e.did did then some e else find_did did es

-- `get`
unfoldable pub lookup : Cache → Text → ℤ → Option PeerEntry
lookup c did now = find_did did (values (live c now))

unfoldable pub get_at : Cache → Text → ℤ → Option PeerEntry
get_at c did now = keep_if (alive now) (get did c)
