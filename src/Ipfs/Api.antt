-- ===== src/Ipfs/Api.antt =====
-- The calls of rust/fhs/src/ipfs.rs that read an answer: `add`, whose last line is decoded, and those
-- whose body is. What serde decodes is the record `Decoders`.
use galax_ia_sdk.Prelude.{
  ℕ, Bool, true, false, Option, none, some, List, [], ◌∷◌, ◌++◌, ◌==◌, if◌then◌else◌, any,
}
use galax_ia_sdk.Prelude.Lex.{list_eq}
use galax_ia_sdk.Prelude.Result.{Result, ok, err, ok_or, ◌>>=◌}
use galax_ia_sdk.Text.{Text, Bytes, codes}
use galax_ia_sdk.Text.Trim.{trim}
use galax_ia_sdk.PeerCache.{is_empty}
use galax_ia_sdk.Ipfs.{Kubo, KuboClient, KuboError, http, unparsed, Query, call, canonical_cid}

pub record RepoStat : Type 0 where
  pub repo_size : ℕ
  pub storage_max : ℕ

-- the field that each answer is read for
pub record Decoders : Type 0 where
  pub added_hash : Text → Option Text
  pub pinned_keys : Bytes → Option (List Text)
  pub repo_stat : Bytes → Option RepoStat
  pub free_space : Bytes → Option ℕ
  pub id : Bytes → Option Text
  pub peers : Bytes → Option (Option (List Text))

abbrev pub add_profile : Query
add_profile =
    (codes "cid-version", codes "1")
    ∷ (codes "hash", codes "sha2-256")
    ∷ (codes "chunker", codes "size-262144")
    ∷ (codes "raw-leaves", codes "true")
    ∷ (codes "trickle", codes "false")
    ∷ (codes "wrap-with-directory", codes "false")
    ∷ (codes "inline", codes "false")
    ∷ (codes "progress", codes "false")
    ∷ []

abbrev pub true_or_false : Bool → Text
true_or_false true = codes "true"
true_or_false false = codes "false"

abbrev pub negated : Bool → Bool
negated true = false
negated false = true

unfoldable pub add_query : Bool → Query
add_query only_hash =
    add_profile
    ++ (codes "only-hash", true_or_false only_hash)
      ∷ (codes "pin", true_or_false (negated only_hash))
      ∷ []

-- `bytes()` and `text()`: the chunks in one, or a failure of the transport
unfoldable pub whole : List (Option Bytes) → Result Bytes KuboError
whole [] = ok []
whole (none ∷ chunks) = err http
whole (some chunk ∷ chunks) = do more ← whole chunks; ok (chunk ++ more)

-- `lines`: a line ends in `\n`, before which one `\r` is dropped
unfoldable pub strip_cr : Text → Text
strip_cr [] = []
strip_cr (c ∷ []) = if c == 13 then [] else c ∷ []
strip_cr (c ∷ d ∷ t) = c ∷ strip_cr (d ∷ t)

abbrev pub last_line : Text → List Text
last_line [] = []
last_line (c ∷ line) = (c ∷ line) ∷ []

unfoldable pub lines_from : Text → Text → List Text
lines_from line [] = last_line line
lines_from line (c ∷ t) = elim (c == 10) [
  | true ↦ strip_cr line ∷ lines_from [] t
  | false ↦ lines_from (line ++ c ∷ []) t
]

-- `rfind` of a line that is not blank
abbrev pub or_this : Text → Option Text → Option Text
or_this line (some later) = some later
or_this line none = if is_empty (trim line) then none else some line

unfoldable pub last_nonblank : List Text → Option Text
last_nonblank [] = none
last_nonblank (line ∷ more) = or_this line (last_nonblank more)

-- `collect` into a set: the list of its members
abbrev pub member : Text → List Text → Bool
member t = any (λ x. list_eq x t)

unfoldable pub insert_member : Text → List Text → List Text
insert_member t set = if member t set then set else t ∷ set

unfoldable pub collect : List Text → List Text
collect [] = []
collect (t ∷ ts) = insert_member t (collect ts)

abbrev pub or_no_peers : Option (List Text) → List Text
or_no_peers none = []
or_no_peers (some ps) = ps

module _ (k : Kubo) (d : Decoders) (client : KuboClient) where
  unfoldable pub json : {A : Type 0} → (Bytes → Option A) → Text → Query → Result A KuboError
  json decode command query = do
    chunks ← call k client command query none
    body ← whole chunks
    ok_or (decode body) (unparsed command)

  unfoldable pub added : Bytes → Result Text KuboError
  added body = do
    last ← ok_or (last_nonblank (lines_from [] (k.body_text body))) (unparsed (codes "add"))
    hash ← ok_or (d.added_hash last) (unparsed (codes "add"))
    canonical_cid k hash

  unfoldable pub add : Bytes → Bool → Result Text KuboError
  add bytes only_hash = do
    chunks ← call k client (codes "add") (add_query only_hash) (some bytes)
    body ← whole chunks
    added body

  unfoldable pub canonical_all : List Text → Result (List Text) KuboError
  canonical_all [] = ok []
  canonical_all (key ∷ keys) = do
    c ← canonical_cid k key
    more ← canonical_all keys
    ok (insert_member c more)

  unfoldable pub pin_ls : Text → Result (List Text) KuboError
  pin_ls kind = do
    keys ← json d.pinned_keys (codes "pin/ls") ((codes "type", kind) ∷ [])
    canonical_all keys

  unfoldable pub repo_stat : Result RepoStat KuboError
  repo_stat = json d.repo_stat (codes "repo/stat") ((codes "size-only", codes "true") ∷ [])

  unfoldable pub free_space : Result ℕ KuboError
  free_space = json d.free_space (codes "diag/sys") []

  unfoldable pub id : Result Text KuboError
  id = json d.id (codes "id") []

  unfoldable pub swarm_peers : Result (List Text) KuboError
  swarm_peers = do peers ← json d.peers (codes "swarm/peers") []; ok (collect (or_no_peers peers))
