-- ===== src/PeerCache/Upsert.antt =====
-- What one advertisement does to the cache, on every branch of `upsert_at`.
use galax_ia_sdk.Prelude.{
  ℕ, ◌+◌, ◌*◌, ◌^◌, ◌≤◌, ◌<◌, ◌≡◌, inl, inr, refl, ap, sym, ◌∙◌, Bool, true, false, Option, none,
  some, arith, Bool-cases, not, ◌||◌,
}
use galax_ia_sdk.Prelude.Int.{
  ℤ, pos, negsuc, pos_part, neg_part, ◌+ℤ◌, ◌-ℤ◌, ◌*ℤ◌, ◌≤ℤ◌, ltb_ℤ, wrap_i64, checked_i64,
  abs_diff, int_laws, +ℤ_parts, eq_of_parts,
}
use galax_ia_sdk.Prelude.Dict.{get, insert, list_key}
use galax_ia_sdk.Text.Decimal.{IsI64}
use galax_ia_sdk.Protocol.{NodeAdvertiseMessage}
use galax_ia_sdk.PeerCache.{
  PeerEntry, Cache, upsert_at, fresh, ttl_ok, advert_expiry, is_replay, entry_of, store, is_empty,
  max_advert_skew_ms, max_advert_ttl_seconds, ttl_grace_ms,
}

-- the milliseconds of a TTL in range
ttl_ms :
    (ttl : ℤ)
    → ttl_ok ttl ≡ true
    → (n : ℕ) × (ttl ≡ pos n) × (1 ≤ n) × (n ≤ 120) × (ttl *ℤ pos 1000 ≡ pos (n * 1000))
unfolding ◌*ℤ◌
ttl_ms (pos n) h = (n, refl, ground arith, ground arith, ground arith)
ttl_ms (negsuc n) h = absurd (ground arith)

-- An advertisement with a fresh clock and a TTL in range.
pub record IsFresh (m : NodeAdvertiseMessage) (now : ℤ) (n : ℕ) : Type 0 where
  pub named : is_empty m.did ≡ false
  pub ttl : m.ttl_seconds ≡ pos n
  pub positive : 1 ≤ n
  pub short : n ≤ max_advert_ttl_seconds
  pub skew : abs_diff m.timestamp now ≤ max_advert_skew_ms

wrap-small : (z : ℤ) → IsI64 z → wrap_i64 z ≡ z
unfolding wrap_i64
wrap-small (pos n) h = ground arith
wrap-small (negsuc n) h = ground arith

checked-some : (z w : ℤ) → checked_i64 z ≡ some w → (z ≡ w) × IsI64 z
unfolding checked_i64
checked-some (pos n) w h = (ground arith, ground arith)
checked-some (negsuc n) w h = (ground arith, ground arith)

-- What an accepted advertisement is, and what it leaves in the cache.
pub record Taken (c c' : Cache) (m : NodeAdvertiseMessage) (now : ℤ) : Type 0 where
  pub seconds : ℕ
  pub valid : IsFresh m now seconds
  pub expiry : IsI64 (m.timestamp +ℤ pos (seconds * 1000))
  pub newer : is_replay m (get m.did c) ≡ false
  pub stored : c' ≡ insert m.did (entry_of m now (m.timestamp +ℤ pos (seconds * 1000))) c

store-Taken :
    (c c' : Cache) (m : NodeAdvertiseMessage) (now : ℤ) (x : Option ℤ)
    → store c m now x ≡ (c', true)
    → (e : ℤ) × (x ≡ some e)
      × (is_replay m (get m.did c) ≡ false)
      × (c' ≡ insert m.did (entry_of m now e) c)
store-Taken c c' m now none h = absurd (ground arith)
store-Taken c c' m now (some e) h = (e, refl, ground arith, ground arith)

checked-in_range : (n : ℕ) → n < 2 ^ 63 → checked_i64 (pos n) ≡ some (pos n)
unfolding checked_i64
checked-in_range n h = ground arith

advert_expiry-sum :
    (m : NodeAdvertiseMessage) (n : ℕ)
    → m.ttl_seconds *ℤ pos 1000 ≡ pos (n * 1000)
    → n ≤ 120
    → advert_expiry m ≡ checked_i64 (m.timestamp +ℤ pos (n * 1000))
unfolding advert_expiry
advert_expiry-sum m n ms short = rw (ms, checked-in_range (n * 1000) (omega arith))

-- An advertisement that is accepted has a DID, a TTL of 1 to 120 seconds, a clock within 120
-- seconds, an expiry that fits an i64 and a timestamp later than the entry of its DID, and is
-- stored under its DID with that expiry.
pub upsert_at-Taken :
    (c c' : Cache) (m : NodeAdvertiseMessage) (now : ℤ)
    → upsert_at c m now ≡ (c', true)
    → Taken c c' m now
unfolding upsert_at fresh
upsert_at-Taken c c' m now h =
    let (n, ttl, low, high, ms) = ttl_ms m.ttl_seconds (ground arith) in
    let (e, some_expiry, newer, stored) = store-Taken c c' m now (advert_expiry m) (ground arith) in
    let (same, fits) =
      checked-some (m.timestamp +ℤ pos (n * 1000)) e
        (sym (advert_expiry-sum m n ms high) ∙ some_expiry) in
    record {
      seconds = n;
      valid = record {
        named = ground arith;
        ttl = ttl;
        positive = low;
        short = high;
        skew = ground arith;
      };
      expiry = fits;
      newer = newer;
      stored = stored ∙ ap (λ (x : ℤ). insert m.did (entry_of m now x) c) (sym same);
    }

-- A rejected advertisement changes nothing.
pub upsert_at-rejected :
    (c c' : Cache) (m : NodeAdvertiseMessage) (now : ℤ) → upsert_at c m now ≡ (c', false) → c' ≡ c
unfolding upsert_at
upsert_at-rejected c c' m now h = elim (Bool-cases (is_empty m.did || not (fresh m now))) [
  | inl bad ↦ ground arith
  | inr good ↦ rejected (advert_expiry m) (ground arith)
]
  where
    rejected : (x : Option ℤ) → store c m now x ≡ (c', false) → c' ≡ c
    rejected none p = ground arith
    rejected (some e) p = ground arith

-- While the cache has an entry of a DID, an advertisement of that DID is accepted only if its
-- timestamp is later than the one of the entry.
pub upsert_at-later :
    (c c' : Cache) (m : NodeAdvertiseMessage) (now : ℤ) (known : PeerEntry)
    → upsert_at c m now ≡ (c', true)
    → get m.did c ≡ some known
    → ltb_ℤ known.advert_timestamp_ms m.timestamp ≡ true
unfolding is_replay
upsert_at-later c c' m now known h k =
    let t = upsert_at-Taken c c' m now h in
    later (ltb_ℤ known.advert_timestamp_ms m.timestamp) (rw k at t.newer)
  where
    later : (b : Bool) → not b ≡ false → b ≡ true
    later b e = ground arith

-- What an entry promises: its advertisement was fresh when it came, lives for 1 to 120 seconds from
-- its own timestamp, and is kept 30 seconds longer.
pub record Sound (e : PeerEntry) : Type 0 where
  pub lives : e.advert_timestamp_ms +ℤ pos 1000 ≤ℤ e.advert_expires_ms
  pub dies : e.advert_expires_ms ≤ℤ e.advert_timestamp_ms +ℤ pos 120000
  pub kept : e.expires_at_ms ≡ e.advert_expires_ms +ℤ pos ttl_grace_ms
  pub skew : abs_diff e.advert_timestamp_ms e.last_seen_ms ≤ max_advert_skew_ms

-- A clock far from the ends of an i64, as any clock is.
abbrev pub IsClock : ℤ → Type 0
IsClock now = pos_part now + neg_part now < 2 ^ 62

small-IsI64 : (z : ℤ) → pos_part z + neg_part z < 2 ^ 63 → IsI64 z
small-IsI64 (pos n) h = omega arith
small-IsI64 (negsuc n) h = omega arith

pos_times : (n : ℕ) → pos n *ℤ pos 1000 ≡ pos (n * 1000)
unfolding ◌*ℤ◌
pos_times n = ground arith

pos_plus : (n k : ℕ) → pos n +ℤ pos k ≡ pos (n + k)
unfolding ◌+ℤ◌
pos_plus n k = ground arith

plus_assoc : (z : ℤ) (n k : ℕ) → z +ℤ pos (n + k) ≡ (z +ℤ pos n) +ℤ pos k
plus_assoc z n k =
    eq_of_parts _ _
      (omega (arith, +ℤ_parts z (pos (n + k)), +ℤ_parts z (pos n), +ℤ_parts (z +ℤ pos n) (pos k)))

near :
    (z now : ℤ) (k : ℕ)
    → IsClock now
    → abs_diff z now ≤ max_advert_skew_ms
    → k ≤ 150000
    → pos_part (z +ℤ pos k) + neg_part (z +ℤ pos k) < 2 ^ 63
unfolding ◌+ℤ◌ ◌-ℤ◌
near (pos a) (pos b) k clock skew short = ground arith
near (pos a) (negsuc b) k clock skew short = ground arith
near (negsuc a) (pos b) k clock skew short = ground arith
near (negsuc a) (negsuc b) k clock skew short = ground arith

-- A timestamp near a clock stays far from the ends of an i64, with its TTL added.
near-IsI64 :
    (z now : ℤ) (k : ℕ)
    → IsClock now
    → abs_diff z now ≤ max_advert_skew_ms
    → k ≤ 150000
    → IsI64 (z +ℤ pos k)
near-IsI64 z now k clock skew short = small-IsI64 (z +ℤ pos k) (near z now k clock skew short)

entry_expiry :
    (m : NodeAdvertiseMessage) (now : ℤ) (n : ℕ)
    → IsClock now
    → IsFresh m now n
    → wrap_i64 (m.timestamp +ℤ wrap_i64 (wrap_i64 (m.ttl_seconds *ℤ pos 1000) +ℤ pos ttl_grace_ms))
      ≡ (m.timestamp +ℤ pos (n * 1000)) +ℤ pos ttl_grace_ms
entry_expiry m now n clock f =
    let ms = ap (λ (t : ℤ). t *ℤ pos 1000) f.ttl ∙ pos_times n in
    rw (
      ms,
      wrap-small (pos (n * 1000)) (omega (arith, f.short)),
      pos_plus (n * 1000) ttl_grace_ms,
      wrap-small (pos (n * 1000 + ttl_grace_ms)) (omega (arith, f.short)),
      wrap-small (m.timestamp +ℤ pos (n * 1000 + ttl_grace_ms)) (
          near-IsI64 m.timestamp now (n * 1000 + ttl_grace_ms) clock f.skew
            (omega (arith, f.short))),
      plus_assoc m.timestamp (n * 1000) ttl_grace_ms,
    )

pub entry_of-Sound :
    (m : NodeAdvertiseMessage) (now : ℤ) (n : ℕ)
    → IsClock now
    → IsFresh m now n
    → Sound (entry_of m now (m.timestamp +ℤ pos (n * 1000)))
unfolding entry_of
entry_of-Sound m now n clock f = record {
  lives = omega (int_laws, f.positive);
  dies = omega (int_laws, f.short);
  kept = entry_expiry m now n clock f;
  skew = f.skew;
}
