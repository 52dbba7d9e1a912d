-- ===== src/Dynamic/Files.antt =====
-- The files of rust/fhs/src/p2p/dynamic.rs: `artifact_from_json` takes back what `artifact_to_json`
-- writes.
use galax_ia_sdk.Prelude.{
  ◌≡◌, refl, ap, ◌∙◌, true, Option, none, some, List, [], ◌∷◌, arith, all, not,
}
use galax_ia_sdk.Prelude.Lex.{list_eq}
use galax_ia_sdk.Text.{Text, Bytes, codes}
use galax_ia_sdk.Protocol.{InlineArtifact, IpfsArtifact, inline, ipfs}
use galax_ia_sdk.Dynamic.{
  JsonObject, no_entries, string, insert_entry, find, as_str, or_empty, text_of, retention_of, put,
  artifact_of, artifact_in, inline_entries, ipfs_entries,
}
use galax_ia_sdk.Dynamic.Maps.{find-insert_entry, find-inserted, find-put, text_of-put}

abbrev puts : List (Text × Text) → JsonObject → JsonObject
puts [] m = m
puts ((k, s) ∷ l) m = put k s (puts l m)

abbrev Others : Text → List (Text × Text) → Type 0
Others k l = all (λ e. not (list_eq e.0 k)) l ≡ true

find-puts :
    (k : Text) (l : List (Text × Text)) (m : JsonObject) → Others k l → find k (puts l m) ≡ find k m
find-puts k [] m h = refl
find-puts k ((k', s) ∷ l) m h = ground (arith, find-put k k' s (puts l m), find-puts k l m)

text_of-puts :
    (k s : Text) (l l' : List (Text × Text)) (m : JsonObject)
    → Others k l
    → Others k l'
    → find k m ≡ none
    → text_of k (puts l (put k s (puts l' m))) ≡ s
text_of-puts k s l l' m h h' new =
    ap (λ o. or_empty (as_str o)) (find-puts k l (put k s (puts l' m)) h)
    ∙ text_of-put k s (puts l' m) (find-puts k l' m h' ∙ new)

abbrev inline_start : JsonObject
inline_start = put (codes "transport") (codes "inline") no_entries

abbrev ipfs_start : JsonObject
ipfs_start = put (codes "transport") (codes "ipfs") no_entries

pub inline_entries-back :
    (encode : Bytes → Text) (decode : Text → Option Bytes) (a : InlineArtifact)
    → decode (encode a.content) ≡ some a.content
    → artifact_in decode (inline_entries encode a) ≡ some (inline a)
unfolding inline_entries artifact_of list_eq insert_entry find put
inline_entries-back encode decode a h =
    let m = put (codes "filename") a.filename inline_start in
    rw (
      find-insert_entry (codes "transport") (codes "base64") (string (encode a.content)) m refl,
      find-put (codes "transport") (codes "filename") a.filename inline_start refl,
      find-inserted (codes "base64") (string (encode a.content)) m,
      h,
      find-insert_entry (codes "filename") (codes "base64") (string (encode a.content)) m refl,
      text_of-put (codes "filename") a.filename inline_start refl,
    )

-- What each key of an IPFS file reads as.
module _ (a : IpfsArtifact) where
  abbrev retention_part : Text × Text
  retention_part = (codes "retention", retention_of a.retention)

  abbrev filename_part : Text × Text
  filename_part = (codes "filename", a.filename)

  abbrev gateway_part : Text × Text
  gateway_part = (codes "gatewayUrl", a.gateway_url)

  abbrev network_part : Text × Text
  network_part = (codes "network", a.network)

  abbrev cid_part : Text × Text
  cid_part = (codes "cid", a.cid)

  ipfs-transport : find (codes "transport") (ipfs_entries a) ≡ some (string (codes "ipfs"))
  unfolding ipfs_entries list_eq find put insert_entry
  ipfs-transport =
      find-puts (codes "transport")
        (retention_part ∷ filename_part ∷ gateway_part ∷ network_part ∷ cid_part ∷ []) ipfs_start
        refl

  ipfs-retention : text_of (codes "retention") (ipfs_entries a) ≡ retention_of a.retention
  unfolding ipfs_entries list_eq find put insert_entry
  ipfs-retention =
      text_of-puts (codes "retention") (retention_of a.retention) []
        (filename_part ∷ gateway_part ∷ network_part ∷ cid_part ∷ []) ipfs_start refl refl refl

  ipfs-filename : text_of (codes "filename") (ipfs_entries a) ≡ a.filename
  unfolding ipfs_entries list_eq find put insert_entry
  ipfs-filename =
      text_of-puts (codes "filename") a.filename (retention_part ∷ [])
        (gateway_part ∷ network_part ∷ cid_part ∷ []) ipfs_start refl refl refl

  ipfs-gateway : text_of (codes "gatewayUrl") (ipfs_entries a) ≡ a.gateway_url
  unfolding ipfs_entries list_eq find put insert_entry
  ipfs-gateway =
      text_of-puts (codes "gatewayUrl") a.gateway_url (retention_part ∷ filename_part ∷ [])
        (network_part ∷ cid_part ∷ []) ipfs_start refl refl refl

  ipfs-network : text_of (codes "network") (ipfs_entries a) ≡ a.network
  unfolding ipfs_entries list_eq find put insert_entry
  ipfs-network =
      text_of-puts (codes "network") a.network (retention_part ∷ filename_part ∷ gateway_part ∷ [])
        (cid_part ∷ []) ipfs_start refl refl refl

  ipfs-cid : text_of (codes "cid") (ipfs_entries a) ≡ a.cid
  unfolding ipfs_entries list_eq find put insert_entry
  ipfs-cid =
      text_of-puts (codes "cid") a.cid
        (retention_part ∷ filename_part ∷ gateway_part ∷ network_part ∷ []) [] ipfs_start refl refl
        refl

retention_idem : (r : Text) → retention_of (retention_of r) ≡ retention_of r
unfolding retention_of list_eq
retention_idem r = ground arith

pub ipfs_entries-back :
    (decode : Text → Option Bytes) (a : IpfsArtifact)
    → retention_of a.retention ≡ a.retention
    → artifact_in decode (ipfs_entries a) ≡ some (ipfs a)
unfolding artifact_of list_eq
ipfs_entries-back decode a h = rw (
  ipfs-transport a,
  ipfs-cid a,
  ipfs-network a,
  ipfs-gateway a,
  ipfs-filename a,
  ipfs-retention a,
  h,
  h,
)
