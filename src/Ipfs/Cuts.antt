-- ===== src/Ipfs/Cuts.antt =====
-- Where rust/fhs/src/ipfs.rs cuts a URL: the parts give the text back.
use galax_ia_sdk.Prelude.{
  ℕ, ◌≡◌, ◌⊎◌, inl, inr, refl, ap, sym, ◌∙◌, Bool, true, false, Option, none, some, [], ◌∷◌, ◌++◌,
  arith, ◌==◌, ==_iff, if◌then◌else◌, ◌&&◌, Bool-cases,
}
use galax_ia_sdk.Text.{Text, codes}
use galax_ia_sdk.Signing.{strip_prefix}
use galax_ia_sdk.Ipfs.{
  before, colon_here, split_bracket, rsplit_colon, strip_slash, split_authority,
}

pub strip_prefix_lem : (p t rest : Text) → strip_prefix p t ≡ some rest → t ≡ p ++ rest
unfolding strip_prefix
strip_prefix_lem [] t rest h = cc
strip_prefix_lem (c ∷ cs) [] rest h = cc
strip_prefix_lem (c ∷ cs) (d ∷ t) rest h = elim (Bool-cases (c == d)) [
  | inl same ↦
      let first : c ≡ d = (==_iff c d).0 same in
      let later = strip_prefix_lem cs t rest (rw same at h) in λ i. sym first i ∷ later i
  | inr other ↦ absurd (none_some (rw other at h))
]
  where
    none_some : {x : Text} → Path (Option Text) none (some x) → ⊥
    none_some q = cc

pub strip_slash_lem : (t : Text) → (t ≡ strip_slash t) ⊎ (t ≡ strip_slash t ++ codes "/")
unfolding strip_slash
strip_slash_lem [] = inl refl
strip_slash_lem (c ∷ []) = elim (Bool-cases (c == 47)) [
  | inl same ↦ rw same (inr (ap (λ x. x ∷ []) ((==_iff c 47).0 same)))
  | inr other ↦ rw other (inl refl)
]
strip_slash_lem (c ∷ d ∷ t) = elim (strip_slash_lem (d ∷ t)) [
  | inl e ↦ inl (ap (◌∷◌ c) e)
  | inr e ↦ inr (ap (◌∷◌ c) e)
]

-- What `before` adds is in front of what was split.
before_lem :
    (c : ℕ) (o : Option (Text × Text)) (t sep host port : Text)
    → ((h p : Text) → o ≡ some (h, p) → t ≡ h ++ (sep ++ p))
    → before c o ≡ some (host, port)
    → c ∷ t ≡ host ++ (sep ++ port)
before_lem c none t sep host port ih h = cc
before_lem c (some (x, y)) t sep host port ih h =
    let e : c ∷ t ≡ (c ∷ x) ++ (sep ++ y) = ap (◌∷◌ c) (ih x y refl) in
    let first : c ∷ x ≡ host = cc in
    let second : y ≡ port = cc in e ∙ (λ i. first i ++ (sep ++ second i))

split_bracket_lem :
    (t host port : Text) → split_bracket t ≡ some (host, port) → t ≡ host ++ 93 ∷ 58 ∷ port
unfolding split_bracket
split_bracket_lem [] host port h = cc
split_bracket_lem (c ∷ []) host port h = cc
split_bracket_lem (c ∷ d ∷ t) host port h = elim (Bool-cases (c == 93 && d == 58)) [
  | inl here ↦ found (ground arith) (ground arith) (rw here at h)
  | inr other ↦
      before_lem c (split_bracket (d ∷ t)) (d ∷ t) (93 ∷ 58 ∷ []) host port
        (λ x y e. split_bracket_lem (d ∷ t) x y e) (rw other at h)
]
  where
    found :
        c ≡ 93
        → d ≡ 58
        → Path (Option (Text × Text)) (some ([], t)) (some (host, port))
        → c ∷ d ∷ t ≡ host ++ 93 ∷ 58 ∷ port
    found p q e =
        let first : [] ≡ host = cc in
        let second : t ≡ port = cc in (λ i. p i ∷ q i ∷ t) ∙ (λ i. first i ++ 93 ∷ 58 ∷ second i)

rsplit_colon_lem : (t host port : Text) → rsplit_colon t ≡ some (host, port) → t ≡ host ++ 58 ∷ port
unfolding rsplit_colon
rsplit_colon_lem [] host port h = cc
rsplit_colon_lem (c ∷ t) host port h = go (rsplit_colon t) refl h (rsplit_colon_lem t)
  where
    here :
        (b : Bool)
        → c == 58 ≡ b
        → Path (Option (Text × Text)) (if b then some ([], t) else none) (some (host, port))
        → c ∷ t ≡ host ++ 58 ∷ port
    here false p e = cc
    here true p e =
        let first : [] ≡ host = cc in
        let second : t ≡ port = cc in
        (λ i. (==_iff c 58).0 p i ∷ t) ∙ (λ i. first i ++ 58 ∷ second i)

    go :
        (o : Option (Text × Text))
        → rsplit_colon t ≡ o
        → colon_here c t o ≡ some (host, port)
        → ((x y : Text) → rsplit_colon t ≡ some (x, y) → t ≡ x ++ 58 ∷ y)
        → c ∷ t ≡ host ++ 58 ∷ port
    go none e q ih = here (c == 58) refl q
    go (some (x, y)) e q ih =
        before_lem c (some (x, y)) t (58 ∷ []) host port (λ u v k. ih u v (e ∙ k)) q

-- An authority is a host, with or without brackets, a colon and a port.
pub split_authority_lem :
    (t host port : Text)
    → split_authority t ≡ some (host, port)
    → (t ≡ host ++ 58 ∷ port) ⊎ (t ≡ 91 ∷ (host ++ 93 ∷ 58 ∷ port))
split_authority_lem [] host port h = inl (rsplit_colon_lem [] host port h)
split_authority_lem (c ∷ t) host port h = elim (Bool-cases (c == 91)) [
  | inl bracket ↦
      inr (λ i. (==_iff c 91).0 bracket i ∷ split_bracket_lem t host port (rw bracket at h) i)
  | inr plain ↦ inl (rsplit_colon_lem (c ∷ t) host port (rw plain at h))
]
