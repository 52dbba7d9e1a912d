-- ===== src/Tests/Ipfs.antt =====
-- rust/fhs/src/ipfs.rs on concrete inputs.
use galax_ia_sdk.Prelude.{
  ◌≡◌, refl, ◌↔◌, ◌++◌, none, true, false, some, List, [], ◌∷◌, ltb, length, map, if◌then◌else◌,
}
use galax_ia_sdk.Prelude.Lex.{list_eq}
use galax_ia_sdk.Prelude.Result.{ok, err}
use galax_ia_sdk.Text.{Bytes, codes}
use galax_ia_sdk.Ipfs.{
  Kubo, KuboClient, response, call, unparsed, canonical_cid, no_response, too_large, read_chunks,
}
use galax_ia_sdk.Ipfs.Api.{
  Decoders, swarm_peers, member, whole, json, pin_ls, canonical_all, insert_member,
}
use galax_ia_sdk.Text.Trim.{trim}
use galax_ia_sdk.Ipfs.Pins.{HasKey, AllCanonical, pin_ls-members}
use galax_ia_sdk.Ipfs.Read.{content, read_chunks-content}

abbrev kubo : Kubo
kubo = record {
  canonical = λ t. some t;
  header_ok = λ t. true;
  post = λ target auth query form. no_response;
  body_text = λ b. b;
  error_message = λ body. [];
  contains_not_pinned = λ t. false;
}

abbrev chunks : List Bytes
chunks = (1 ∷ 2 ∷ []) ∷ (3 ∷ 4 ∷ []) ∷ []

read_chunks-content_example :
    read_chunks kubo 3 [] (map some chunks)
    ≡ (if ltb 3 (length (content chunks)) then err (too_large 3) else ok (content chunks))
read_chunks-content_example = read_chunks-content kubo 3 chunks

-- a local node that pins one CID under two keys, and reports its progress on an `add`
abbrev busy : Kubo
busy = record kubo { post = λ target auth query form. response 200 (some (codes "p\nh\n") ∷ []) }

abbrev decoders : Decoders
decoders = record {
  added_hash = λ line. some (codes "Q" ++ line);
  pinned_keys = λ b. some (codes "a" ∷ codes "a " ∷ []);
  repo_stat = λ b. none;
  free_space = λ b. none;
  id = λ b. none;
  peers = λ b. none;
}

abbrev client : KuboClient
client = record { base = codes "http://127.0.0.1:5001"; auth = codes "Bearer t" }

-- the one line that `progress=false` asks for
abbrev calm : Kubo
calm = record kubo { post = λ target auth query form. response 200 (some (codes "h\n") ∷ []) }

pin_ls-members_example :
    AllCanonical busy decoders client (codes "a" ∷ codes "a " ∷ [])
    × ((member (codes "a") (codes "a" ∷ []) ≡ true)
        ↔ HasKey busy decoders client (codes "a") (codes "a" ∷ codes "a " ∷ []))
unfolding json call whole pin_ls canonical_all canonical_cid insert_member list_eq trim
pin_ls-members_example =
    pin_ls-members busy decoders client (codes "recursive") (codes "a" ∷ codes "a " ∷ [])
      (codes "a" ∷ []) (codes "a") refl refl

no_peers_run : swarm_peers busy decoders client ≡ err (unparsed (codes "swarm/peers"))
unfolding swarm_peers json call whole
no_peers_run = refl
