-- ===== src/Dynamic/Recognised.antt =====
-- Which JSON objects rust/fhs/src/p2p/dynamic.rs reads as files, described apart from the code.
use galax_ia_sdk.Prelude.{
  ◌≡◌, inl, inr, refl, ap, sym, ◌∙◌, subst, Bool, true, false, Option, none, some, Bool-cases,
  if◌then◌else◌, [],
}
use galax_ia_sdk.Text.{Text, Bytes, codes}
use galax_ia_sdk.Prelude.Lex.{list_eq, list_eq_iff}
use galax_ia_sdk.Protocol.{ArtifactRef}
use galax_ia_sdk.Dynamic.{
  Json, null, boolean, number, string, array, object, JsonObject, no_entries, entry, artifact_in,
  find, as_str, or_empty, text_of, inline_of, ipfs_of, artifact_of,
}

words_differ : list_eq (codes "inline") (codes "ipfs") ≡ false
unfolding list_eq
words_differ = refl

no_word : (list_eq [] (codes "ipfs") ≡ false) × (list_eq [] (codes "inline") ≡ false)
unfolding list_eq
no_word = (refl, refl)

abbrev pub is_read : Option ArtifactRef → Bool
is_read none = false
is_read (some a) = true

pub unread : (o : Option ArtifactRef) → is_read o ≡ false → o ≡ none
unread none h = refl
unread (some a) h = cc

-- a text under a key, or the empty text
abbrev text_in : Json → Text
text_in (string s) = s
text_in _ = []

unfoldable pub text_at : Text → JsonObject → Text
text_at key no_entries = []
text_at key (entry k j m) = let more = text_at key m in if list_eq k key then text_in j else more

abbrev readable : Option Bytes → Bool
readable none = false
readable (some content) = true

text_at-text_of : (key : Text) (m : JsonObject) → text_of key m ≡ text_at key m
unfolding find text_at
text_at-text_of key no_entries = refl
text_at-text_of key (entry k j m) = elim (Bool-cases (list_eq k key)) [
  | inl same ↦ rw same (text_in_lem j)
  | inr other ↦ rw other (text_at-text_of key m)
]
  where
    text_in_lem : (v : Json) → or_empty (as_str (some v)) ≡ text_in v
    text_in_lem null = refl
    text_in_lem (boolean b) = refl
    text_in_lem (number n) = refl
    text_in_lem (string s) = refl
    text_in_lem (array js) = refl
    text_in_lem (object o) = refl

inline_read : (m : JsonObject) (o : Option Bytes) → is_read (inline_of m o) ≡ readable o
inline_read m none = refl
inline_read m (some content) = refl

module _ (decode : Text → Option Bytes) where
  -- What is a file: its transport is "ipfs", or "inline" with a content in base64.
  abbrev pub is_file : JsonObject → Bool
  is_file m =
      if list_eq (text_at (codes "transport") m) (codes "ipfs")
      then true
      else if list_eq (text_at (codes "transport") m) (codes "inline")
      then readable (decode (text_at (codes "base64") m))
      else false

  -- The two transports are different words.
  read_of :
      (t : Text) (m : JsonObject)
      → is_read (artifact_of decode (some t) m) ≡ (
          if list_eq t (codes "ipfs")
          then true
          else if list_eq t (codes "inline")
          then readable (decode (text_of (codes "base64") m))
          else false)
  unfolding artifact_of
  read_of t m = elim (Bool-cases (list_eq t (codes "inline"))) [
    | inl same ↦ rw same (
        inline_read m (decode (text_of (codes "base64") m))
        ∙ ap (λ b. if b then true else readable (decode (text_of (codes "base64") m)))
            (sym (not_ipfs t same)))
    | inr other ↦ rw other (last (list_eq t (codes "ipfs")))
  ]
    where
      not_ipfs : (t : Text) → list_eq t (codes "inline") ≡ true → list_eq t (codes "ipfs") ≡ false
      not_ipfs t e =
          subst (λ u. list_eq u (codes "ipfs") ≡ false) (sym ((list_eq_iff t (codes "inline")).0 e))
            (words_differ)

      last :
          (b : Bool) → is_read (if b then some (ipfs_of m) else none) ≡ (if b then true else false)
      last true = refl
      last false = refl

  pub is_read-is_file : (m : JsonObject) → is_read (artifact_in decode m) ≡ is_file m
  unfolding artifact_of
  is_read-is_file m = go (as_str (find (codes "transport") m)) refl
    where
      go :
          (o : Option Text)
          → as_str (find (codes "transport") m) ≡ o
          → is_read (artifact_of decode o m) ≡ is_file m
      go none e =
          let nothing : text_at (codes "transport") m ≡ [] =
            sym (text_at-text_of (codes "transport") m) ∙ ap or_empty e in
          rw (nothing, no_word.0, no_word.1) refl
      go (some t) e =
          let word : text_at (codes "transport") m ≡ t =
            sym (text_at-text_of (codes "transport") m) ∙ ap or_empty e in
          rw (word, sym (text_at-text_of (codes "base64") m)) (read_of t m)
