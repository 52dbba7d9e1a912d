-- ===== src/Tests/PeerCache.antt =====
-- rust/fhs/src/p2p/peer_cache.rs on concrete inputs.
use galax_ia_sdk.Prelude.{ℕ, ◌≡◌, refl, true, false, none, some, [], ◌∷◌, arith}
use galax_ia_sdk.Prelude.Int.{pos, ◌+ℤ◌, ◌*ℤ◌, ◌-ℤ◌, wrap_i64, checked_i64}
use galax_ia_sdk.Prelude.Dict.{get, insert, retain, list_key}
use galax_ia_sdk.Prelude.Lex.{list_eq}
use galax_ia_sdk.Text.{codes}
use galax_ia_sdk.Text.Decimal.{print_ℕ}
use galax_ia_sdk.Protocol.{NodeAdvertiseMessage}
use galax_ia_sdk.PeerCache.{
  PeerEntry, Cache, upsert_at, live, get_at, fresh, advert_expiry, is_replay, entry_of,
}
use galax_ia_sdk.PeerCache.Civil.{iso8601, civil}
use galax_ia_sdk.PeerCache.Reach.{Cached, empty, after, advert, CacheInv, Cached-CacheInv}

iso8601_run : iso8601 (pos 1790000000000) ≡ codes "2026-09-21T14:13:20.000Z"
unfolding iso8601 civil ◌+ℤ◌ ◌*ℤ◌ print_ℕ
iso8601_run = refl

epoch_run : iso8601 (pos 0) ≡ codes "1970-01-01T00:00:00.000Z"
unfolding iso8601 civil ◌+ℤ◌ ◌*ℤ◌ print_ℕ
epoch_run = refl

abbrev announces : ℕ → ℕ → NodeAdvertiseMessage
announces timestamp ttl = record {
  did = codes "did:key:zKB";
  beacon = none;
  multiaddrs = [];
  timestamp = pos timestamp;
  ttl_seconds = pos ttl;
  ephemeral = false;
  delegated_by = [];
  trust_level = codes "community";
  signature = [];
}

abbrev first : NodeAdvertiseMessage
first = announces 1790000000000 120

abbrev second : NodeAdvertiseMessage
second = announces 1790000010000 1

abbrev entry : PeerEntry
entry = entry_of first (pos 1790000000000) (pos 1790000120000)

abbrev known : Cache
known = (codes "did:key:zKB", entry) ∷ []

first_run : upsert_at [] first (pos 1790000000000) ≡ (known, true)
unfolding upsert_at fresh advert_expiry is_replay get insert entry_of ◌+ℤ◌ ◌*ℤ◌ ◌-ℤ◌ wrap_i64
    checked_i64
first_run = refl

first_again_run : upsert_at known first (pos 1790000010000) ≡ (known, false)
unfolding upsert_at fresh advert_expiry is_replay get insert entry_of ◌+ℤ◌ ◌*ℤ◌ ◌-ℤ◌ wrap_i64
    checked_i64 list_eq
first_again_run = refl

abbrev renewed : Cache
renewed = (codes "did:key:zKB", entry_of second (pos 1790000010000) (pos 1790000011000)) ∷ []

second_run : upsert_at known second (pos 1790000010000) ≡ (renewed, true)
unfolding upsert_at fresh advert_expiry is_replay get insert entry_of ◌+ℤ◌ ◌*ℤ◌ ◌-ℤ◌ wrap_i64
    checked_i64 list_eq
second_run = refl

-- Once the second advertisement has expired and a sweep has dropped it, its timestamp is forgotten:
-- the first one, older, is accepted again, and served.
forgotten_run : live renewed (pos 1790000050000) ≡ []
unfolding live retain entry_of ◌+ℤ◌ ◌*ℤ◌ wrap_i64
forgotten_run = refl

replayed_run : (upsert_at (live renewed (pos 1790000050000)) first (pos 1790000060000)).1 ≡ true
unfolding live retain upsert_at fresh advert_expiry is_replay get insert entry_of ◌+ℤ◌ ◌*ℤ◌ ◌-ℤ◌
    wrap_i64 checked_i64
replayed_run = refl

known-Cached : Cached known
known-Cached = after empty (advert [] known first (pos 1790000000000) true (omega arith) first_run)

Cached-CacheInv_example : CacheInv known
Cached-CacheInv_example = Cached-CacheInv known-Cached

found_run : get_at known (codes "did:key:zKB") (pos 1790000100000) ≡ some entry
unfolding get_at get list_eq entry_of ◌+ℤ◌ ◌*ℤ◌ wrap_i64
found_run = refl

known_entry : get second.did known ≡ some entry
unfolding get list_eq
known_entry = refl
