-- ===== src/PeerCache/Reach.antt =====
-- The cache under any order of advertisements and sweeps, each at its own time of the clock.
use galax_ia_sdk.Prelude.{
  ◌*◌, ◌≡◌, refl, ap, sym, ◌∙◌, subst, Bool, true, false, Option, none, some, [], ◌∷◌, arith,
  Bool-cases, inl, inr, All, ltb→lt,
}
use galax_ia_sdk.Prelude.Int.{ℤ, pos, ◌+ℤ◌, ◌≤ℤ◌, ltb_ℤ, +ℤ_parts, -ℤ_parts}
use galax_ia_sdk.Prelude.Dict.{
  get, retain, list_key, keep_if, DistinctKeys, insert-DistinctKeys, retain-DistinctKeys,
  get-retain, All-insert, All-retain, All-get,
}
use galax_ia_sdk.Text.{Text}
use galax_ia_sdk.Protocol.{NodeAdvertiseMessage}
use galax_ia_sdk.PeerCache.{
  PeerEntry, Cache, upsert_at, live, alive, values, find_did, lookup, get_at, entry_of,
}
use galax_ia_sdk.PeerCache.Upsert.{
  upsert_at-Taken, upsert_at-rejected, Taken, Sound, IsClock, entry_of-Sound,
}

pub data CacheStep : Cache → Cache → Type 0 where
  advert :
      (c c' : Cache) (m : NodeAdvertiseMessage) (now : ℤ) (taken : Bool)
      → IsClock now
      → upsert_at c m now ≡ (c', taken)
      → CacheStep c c'
  sweep : (c : Cache) (now : ℤ) → CacheStep c (live c now)

pub data Cached : Cache → Type 0 where
  empty : Cached []
  after : {c d : Cache} → Cached c → CacheStep c d → Cached d

-- An entry stands under its own DID and is sound.
abbrev pub Filed : Text × PeerEntry → Type 0
Filed (did, e) = (e.did ≡ did) × Sound e

pub record CacheInv (c : Cache) : Type 0 where
  pub distinct : DistinctKeys c
  pub filed : All Filed c

entry_of-did : (m : NodeAdvertiseMessage) (now e : ℤ) → (entry_of m now e).did ≡ m.did
unfolding entry_of
entry_of-did m now e = refl

insert-CacheInv :
    (c c' : Cache) (m : NodeAdvertiseMessage) (now : ℤ)
    → IsClock now
    → Taken c c' m now
    → CacheInv c
    → CacheInv c'
insert-CacheInv c c' m now clock t v =
    let expiry = m.timestamp +ℤ pos (t.seconds * 1000) in
    let entry = entry_of m now expiry in
    subst CacheInv (sym t.stored) (record {
      distinct = insert-DistinctKeys m.did entry c v.distinct;
      filed =
          All-insert Filed m.did entry c
            (entry_of-did m now expiry, entry_of-Sound m now t.seconds clock t.valid) v.filed;
    })

CacheStep-CacheInv : {c d : Cache} → CacheStep c d → CacheInv c → CacheInv d
unfolding live
CacheStep-CacheInv (advert c c' m now true clock h) v =
    insert-CacheInv c c' m now clock (upsert_at-Taken c c' m now h) v
CacheStep-CacheInv (advert c c' m now false clock h) v =
    subst CacheInv (sym (upsert_at-rejected c c' m now h)) v
CacheStep-CacheInv (sweep c now) v = record {
  distinct = retain-DistinctKeys (alive now) c v.distinct;
  filed = All-retain Filed (alive now) c v.filed;
}

-- After any advertisements, each at a clock within 2^62 milliseconds of 1970, and any sweeps, no
-- DID stands twice, each entry stands under its own DID, and the advertisement that it keeps had
-- a clock within 120 seconds, lives 1 to 120 seconds from its own timestamp and is kept 30
-- seconds longer.
pub Cached-CacheInv : {c : Cache} → Cached c → CacheInv c
Cached-CacheInv empty = record { distinct = tt; filed = tt }
Cached-CacheInv (after r s) = CacheStep-CacheInv s (Cached-CacheInv r)

find_did-values : (did : Text) (c : Cache) → All Filed c → find_did did (values c) ≡ get did c
unfolding get
find_did-values did [] h = refl
find_did-values did ((k, e) ∷ c) ((same, s), h) = rw (same, find_did-values did c h)

-- In a reachable cache the lookup that sweeps first and the lookup at a given time give the same
-- entry.
pub lookup-get_at :
    (c : Cache) (did : Text) (now : ℤ) → Cached c → lookup c did now ≡ get_at c did now
unfolding lookup get_at live
lookup-get_at c did now r =
    let v = Cached-CacheInv r in
    find_did-values did (retain (alive now) c) (All-retain Filed (alive now) c v.filed)
    ∙ get-retain (alive now) did c v.distinct

some-keep_if :
    (p : PeerEntry → Bool) (o : Option PeerEntry) (e : PeerEntry)
    → keep_if p o ≡ some e
    → (o ≡ some e) × (p e ≡ true)
some-keep_if p none e h = cc
some-keep_if p (some x) e h = elim (Bool-cases (p x)) [
  | inl holds ↦
      let same : x ≡ e = some_injective (rw holds at h) in (ap some same, ap p (sym same) ∙ holds)
  | inr fails ↦ absurd (none_some (rw fails at h))
]
  where
    some_injective : {x y : PeerEntry} → Path (Option PeerEntry) (some x) (some y) → x ≡ y
    some_injective q = cc

    none_some : {y : PeerEntry} → Path (Option PeerEntry) none (some y) → ⊥
    none_some q = cc

age :
    (e : PeerEntry) (now : ℤ)
    → Sound e
    → ltb_ℤ now e.expires_at_ms ≡ true
    → now ≤ℤ e.last_seen_ms +ℤ pos 270000
age e now s young =
    let before : ltb_ℤ now (e.advert_expires_ms +ℤ pos 30000) ≡ true = rw s.kept at young in
    let lt = ltb→lt _ _ before in
    omega (
      arith,
      lt,
      s.dies,
      s.skew,
      +ℤ_parts e.advert_expires_ms (pos 30000),
      +ℤ_parts e.advert_timestamp_ms (pos 120000),
      +ℤ_parts e.last_seen_ms (pos 270000),
      -ℤ_parts e.advert_timestamp_ms e.last_seen_ms,
    )

-- In a reachable cache an entry that is found stands for the DID that was asked and was heard at
-- most 270 seconds before.
pub get_at-age :
    (c : Cache) (did : Text) (now : ℤ) (e : PeerEntry)
    → Cached c
    → get_at c did now ≡ some e
    → (e.did ≡ did) × (now ≤ℤ e.last_seen_ms +ℤ pos 270000)
unfolding get_at
get_at-age c did now e r h =
    let v = Cached-CacheInv r in
    let (found, young) = some-keep_if (alive now) (get did c) e h in
    let (same, s) = All-get Filed did e c v.filed found in (same, age e now s young)
