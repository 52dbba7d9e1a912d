-- ===== src/PeerCache/Civil.antt =====
-- `iso8601` of peer_cache.rs and the list of known peers that uses it.
use galax_ia_sdk.Prelude.{
  ℕ, suc, ◌+◌, ◌-◌, ◌*◌, ◌/◌, ◌%◌, List, ◌∷◌, ◌++◌, map, ltb, leb, if◌then◌else◌, length, replicate,
}
use galax_ia_sdk.Prelude.Int.{ℤ, pos, negsuc, ◌+ℤ◌, ◌*ℤ◌, div_euclid, rem_euclid}
use galax_ia_sdk.Prelude.Sort.{sort_on}
use galax_ia_sdk.Text.{Text, codes, Bytes}
use galax_ia_sdk.Text.Utf8.{as_bytes}
use galax_ia_sdk.Text.Decimal.{print_ℕ}
use galax_ia_sdk.PeerCache.{PeerEntry, PeerType, Cache, live, values}

-- `{n:0width}`
abbrev pub pad : ℕ → ℕ → Text
pad width n = let digits = print_ℕ n in replicate (width - length digits) 48 ++ digits

abbrev pub pad_ℤ : ℕ → ℤ → Text
pad_ℤ width (pos n) = pad width n
pad_ℤ width (negsuc n) = 45 ∷ pad (width - 1) (suc n)

-- Year, month and day of a number of days since 1970-01-01.
unfoldable pub civil : ℤ → ℤ × ℕ × ℕ
civil days =
    let z = days +ℤ pos 719468 in
    let era = div_euclid z 146097 in
    let doe = rem_euclid z 146097 in
    let yoe = (doe - doe / 1460 + doe / 36524 - doe / 146096) / 365 in
    let y = pos yoe +ℤ (era *ℤ pos 400) in
    let doy = doe - (365 * yoe + yoe / 4 - yoe / 100) in
    let mp = (5 * doy + 2) / 153 in
    let d = doy - (153 * mp + 2) / 5 + 1 in
    let mo = if ltb mp 10 then mp + 3 else mp - 9 in (if leb mo 2 then y +ℤ pos 1 else y, mo, d)

unfoldable pub iso8601 : ℤ → Text
iso8601 ms =
    let secs = div_euclid ms 1000 in
    let millis = rem_euclid ms 1000 in
    let days = div_euclid secs 86400 in
    let rem = rem_euclid secs 86400 in
    let (y, mo, d) = civil days in
    pad_ℤ 4 y
    ++ (codes "-"
        ++ (pad 2 mo
            ++ (codes "-"
                ++ (pad 2 d
                    ++ (codes "T"
                        ++ (pad 2 (rem / 3600)
                            ++ (codes ":"
                                ++ (pad 2 (rem % 3600 / 60)
                                    ++ (codes ":"
                                        ++ (pad 2 (rem % 60)
                                            ++ (codes "." ++ (pad 3 millis ++ codes "Z"))))))))))))

pub record KnownPeer : Type 0 where
  pub did : Text
  pub peer_type : PeerType
  pub capabilities : List Text
  pub multiaddrs : List Text
  pub trust_level : Text
  pub last_seen : Text

abbrev pub known_peer : PeerEntry → KnownPeer
known_peer p = record {
  did = p.did;
  peer_type = p.peer_type;
  capabilities = p.capabilities;
  multiaddrs = p.multiaddrs;
  trust_level = p.trust_level;
  last_seen = iso8601 p.last_seen_ms;
}

abbrev pub known_key : KnownPeer → Bytes
known_key p = as_bytes p.did

unfoldable pub known_peers : Cache → ℤ → List KnownPeer
known_peers c now = sort_on known_key (map known_peer (values (live c now)))
