-- ===== src/Ipfs.antt =====
-- rust/fhs/src/ipfs.rs: the client of the API of a local IPFS node (Kubo). The crates for CIDs and
-- JSON and the HTTP exchange are the record `Kubo`; an error keeps its kind, not its text.
pub mod Cuts
pub mod Url
pub mod Read
pub mod Api
pub mod Pins
use galax_ia_sdk.Prelude.{
  ℕ, ◌+◌, ◌^◌, Bool, true, false, Option, none, some, List, [], ◌∷◌, ◌++◌, length, all, any, ltb,
  leb, ◌==◌, if◌then◌else◌, not, ◌&&◌, ◌||◌,
}
use galax_ia_sdk.Prelude.Lex.{list_eq}
use galax_ia_sdk.Prelude.Result.{Result, ok, err, ok_or, ◌>>=◌}
use galax_ia_sdk.Text.{Text, Bytes, codes}
use galax_ia_sdk.Text.Decimal.{print_ℕ, value_from}
use galax_ia_sdk.Text.Trim.{trim}
use galax_ia_sdk.PeerCache.{is_empty}
use galax_ia_sdk.Signing.{strip_prefix}

pub data UrlFault : Type 0 where
  not_http : UrlFault
  has_path : UrlFault
  no_port : UrlFault
  not_loopback : UrlFault
  bad_port : UrlFault

pub data KuboError : Type 0 where
  url : UrlFault → KuboError
  token_unreadable : KuboError
  token_empty : KuboError
  token_characters : KuboError
  cid : KuboError
  http : KuboError
  api : ℕ → Text → KuboError
  unparsed : Text → KuboError
  too_large : ℕ → KuboError

-- `strip_suffix('/').unwrap_or(rest)`
unfoldable pub strip_slash : Text → Text
strip_slash [] = []
strip_slash (c ∷ []) = if c == 47 then [] else c ∷ []
strip_slash (c ∷ d ∷ t) = c ∷ strip_slash (d ∷ t)

-- `contains(['/', '?', '#', '@'])`
abbrev pub has_forbidden : Text → Bool
has_forbidden = any (λ c. c == 47 || c == 63 || c == 35 || c == 64)

abbrev pub before : ℕ → Option (Text × Text) → Option (Text × Text)
before c none = none
before c (some (host, port)) = some (c ∷ host, port)

-- `split_once("]:")`
unfoldable pub split_bracket : Text → Option (Text × Text)
split_bracket [] = none
split_bracket (c ∷ []) = none
split_bracket (c ∷ d ∷ t) =
    let more = before c (split_bracket (d ∷ t)) in if c == 93 && d == 58 then some ([], t) else more

abbrev pub colon_here : ℕ → Text → Option (Text × Text) → Option (Text × Text)
colon_here c t (some (host, port)) = some (c ∷ host, port)
colon_here c t none = if c == 58 then some ([], t) else none

-- `rsplit_once(':')`
unfoldable pub rsplit_colon : Text → Option (Text × Text)
rsplit_colon [] = none
rsplit_colon (c ∷ t) = colon_here c t (rsplit_colon t)

abbrev pub split_authority : Text → Option (Text × Text)
split_authority [] = rsplit_colon []
split_authority (c ∷ t) = if c == 91 then split_bracket t else rsplit_colon (c ∷ t)

abbrev pub is_digit : ℕ → Bool
is_digit c = leb 48 c && leb c 57

-- the digits of a `u16`: a plus sign may stand before them
abbrev pub digits_u16 : Text → Option ℕ
digits_u16 t =
    if is_empty t || not (all is_digit t)
    then none
    else if ltb (value_from 0 t) (2 ^ 16)
    then some (value_from 0 t)
    else none

unfoldable pub parse_u16 : Text → Option ℕ
parse_u16 [] = none
parse_u16 (c ∷ t) = if c == 43 then digits_u16 t else digits_u16 (c ∷ t)

abbrev pub v4_host : Text
v4_host = codes "127.0.0.1"

abbrev pub v6_host : Text
v6_host = codes "::1"

abbrev pub base_of : Bool → ℕ → Text
base_of true port = codes "http://[::1]:" ++ print_ℕ port
base_of false port = codes "http://127.0.0.1:" ++ print_ℕ port

abbrev pub checked_host : Text × Text → Result Text UrlFault
checked_host (host, port) =
    if not (list_eq host v4_host) && not (list_eq host v6_host)
    then err not_loopback
    else ok_or (parse_u16 port) bad_port
      >>= (λ n. if n == 0 then err bad_port else ok (base_of (list_eq host v6_host) n))

abbrev pub checked_authority : Text → Result Text UrlFault
checked_authority authority =
    if has_forbidden authority
    then err has_path
    else ok_or (split_authority authority) no_port >>= checked_host

unfoldable pub parse_api_url : Text → Result Text UrlFault
parse_api_url raw =
    ok_or (strip_prefix (codes "http://") raw) not_http
    >>= (λ rest. checked_authority (strip_slash rest))

-- What the network answers to a call: no response, or a status and a body in chunks. `none` among
-- the chunks is a failure of the transport.
pub data Response : Type 0 where
  no_response : Response
  response : ℕ → List (Option Bytes) → Response

abbrev pub Query : Type 0
Query = List (Text × Text)

pub record Kubo : Type 0 where
  pub canonical : Text → Option Text
  pub header_ok : Text → Bool
  pub post : Text → Text → Query → Option Bytes → Response
  pub body_text : Bytes → Text
  pub error_message : List (Option Bytes) → Text
  pub contains_not_pinned : Text → Bool

pub record KuboClient : Type 0 where
  pub base : Text
  pub auth : Text

abbrev pub or_url : Result Text UrlFault → Result Text KuboError
or_url (ok base) = ok base
or_url (err fault) = err (url fault)

abbrev pub is_success : ℕ → Bool
is_success status = leb 200 status && ltb status 300

module _ (k : Kubo) where
  unfoldable pub with_token : Text → Text → Result KuboClient KuboError
  with_token given token = or_url (parse_api_url given) >>= (λ base.
      if is_empty token
      then err token_empty
      else if not (k.header_ok (codes "Bearer " ++ token))
      then err token_characters
      else ok (record { base = base; auth = codes "Bearer " ++ token }))

  -- The token is what the file holds, or `none` when it cannot be read.
  unfoldable pub new_client : Text → Option Text → Result KuboClient KuboError
  new_client given file = ok_or file token_unreadable >>= (λ token. with_token given (trim token))

  unfoldable pub canonical_cid : Text → Result Text KuboError
  canonical_cid raw = ok_or (k.canonical (trim raw)) cid

  abbrev pub answered : Response → Result (List (Option Bytes)) KuboError
  answered no_response = err http
  answered (response status body) =
      if is_success status then ok body else err (api status (k.error_message body))

  -- The form is the file of `add`.
  unfoldable pub call :
      KuboClient → Text → Query → Option Bytes → Result (List (Option Bytes)) KuboError
  call client command query form =
      answered (k.post (client.base ++ codes "/api/v0/" ++ command) client.auth query form)

  abbrev pub removed : Result (List (Option Bytes)) KuboError → Result Unit KuboError
  removed (ok body) = ok tt
  removed (err (api status message)) =
      if k.contains_not_pinned message then ok tt else err (api status message)
  removed (err e) = err e

  unfoldable pub pin_rm : KuboClient → Text → Result Unit KuboError
  pin_rm client given = canonical_cid given >>= (λ c. removed (
      call client (codes "pin/rm") ((codes "arg", c) ∷ (codes "recursive", codes "true") ∷ [])
        none))

  -- the loop of `cat` over the chunks, with what is read so far
  unfoldable pub read_chunks : ℕ → Bytes → List (Option Bytes) → Result Bytes KuboError
  read_chunks max_bytes out [] = ok out
  read_chunks max_bytes out (none ∷ chunks) = err http
  read_chunks max_bytes out (some chunk ∷ chunks) =
      let more = read_chunks max_bytes (out ++ chunk) chunks in
      if ltb max_bytes (length out + length chunk) then err (too_large max_bytes) else more

  unfoldable pub cat : KuboClient → Text → ℕ → Result Bytes KuboError
  cat client given max_bytes = canonical_cid given >>= (λ c.
      call client (codes "cat") ((codes "arg", c) ∷ (codes "length", print_ℕ (max_bytes + 1)) ∷ [])
        none
      >>= read_chunks max_bytes [])
