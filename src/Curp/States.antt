-- ===== src/Curp/States.antt =====
-- The state in a population key, described by itself.
use galax_ia_sdk.Prelude.{
  and-true, ℕ, ◌≤◌, ◌≡◌, inl, inr, refl, ap, ◌∙◌, subst, Bool, true, false, Option, none, some,
  List, [], ◌∷◌, arith, length, get_elem?, ◌==◌, not, all, any, Bool-cases,
}
use galax_ia_sdk.Prelude.Lex.{list_eq, list_eq_iff}
use galax_ia_sdk.Text.{Text, codes}
use galax_ia_sdk.Text.Trim.{trim, trim_start, trim_end, is_whitespace}
use galax_ia_sdk.Curp.Catalogue.{entries}
use galax_ia_sdk.Curp.{
  shape_at, shape_from, slice, entidad_code, code_of_code, code_of_name, strip_diacritics,
  without_accent, or_name, is_some,
}
use galax_ia_sdk.Curp.Layout.{two_at, shape_at_lem}

abbrev pub states : List Text
states =
    codes "AS"
    ∷ codes "BC"
    ∷ codes "BS"
    ∷ codes "CC"
    ∷ codes "CH"
    ∷ codes "CL"
    ∷ codes "CM"
    ∷ codes "CS"
    ∷ codes "DF"
    ∷ codes "DG"
    ∷ codes "GR"
    ∷ codes "GT"
    ∷ codes "HG"
    ∷ codes "JC"
    ∷ codes "MC"
    ∷ codes "MN"
    ∷ codes "MS"
    ∷ codes "NE"
    ∷ codes "NL"
    ∷ codes "NT"
    ∷ codes "OC"
    ∷ codes "PL"
    ∷ codes "QR"
    ∷ codes "QT"
    ∷ codes "SL"
    ∷ codes "SP"
    ∷ codes "SR"
    ∷ codes "TC"
    ∷ codes "TL"
    ∷ codes "TS"
    ∷ codes "VZ"
    ∷ codes "YN"
    ∷ codes "ZS"
    ∷ []

abbrev pub is_state : Text → Bool
is_state t = any (λ s. list_eq s t) states

pub record HasState (t : Text) : Type 0 where
  pub a : ℕ
  pub b : ℕ
  pub first : get_elem? t 11 ≡ some a
  pub second : get_elem? t 12 ≡ some b
  pub state : is_state (a ∷ b ∷ []) ≡ true

-- An upper-case pair of letters is what it is behind trimming and stripping.
letter_lem :
    (a b : ℕ)
    → (65 ≤ a) × (a ≤ 90)
    → (65 ≤ b) × (b ≤ 90)
    → strip_diacritics (trim (a ∷ b ∷ [])) ≡ a ∷ b ∷ []
unfolding strip_diacritics trim trim_start trim_end
letter_lem a b (la, ha) (lb, hb) =
    let not_blank : is_whitespace a ≡ false = ground arith in
    let not_blank' : is_whitespace b ≡ false = ground arith in
    let same : without_accent a ≡ a = ground arith in
    let same' : without_accent b ≡ b = ground arith in
    rw (not_blank, not_blank') (λ i. same i ∷ same' i ∷ [])

code_lem :
    (t : Text) (es : List (Text × Text))
    → is_some (code_of_code t es) ≡ true
    → all (λ e. is_state e.1) es ≡ true
    → is_state t ≡ true
unfolding code_of_code
code_lem t [] h k = absurd (ground arith)
code_lem t ((name, code) ∷ more) h k = elim (Bool-cases (list_eq code t)) [
  | inl same ↦
      subst (λ x. is_state x ≡ true) ((list_eq_iff code t).0 same) (and-true (is_state code) _ k).0
  | inr other ↦ code_lem t more (rw other at h) (and-true (is_state code) _ k).1
]

name_lem :
    (t : Text) (es : List (Text × Text))
    → length t ≡ 2
    → all (λ e. not (length e.0 == 2)) es ≡ true
    → code_of_name t es ≡ none
unfolding code_of_name
name_lem t [] h k = refl
name_lem t ((name, code) ∷ more) h k = elim (Bool-cases (list_eq name t)) [
  | inl same ↦
      let long : not (length name == 2) ≡ true = (and-true (not (length name == 2)) _ k).0 in
      let short : length name ≡ 2 = ap length ((list_eq_iff name t).0 same) ∙ h in
      absurd (ground arith)
  | inr other ↦ rw other (name_lem t more h (and-true (not (length name == 2)) _ k).1)
]

all_states : all (λ (e : Text × Text). is_state e.1) entries ≡ true
unfolding list_eq
all_states = refl

no_short_name : all (λ (e : Text × Text). not (length e.0 == 2)) entries ≡ true
no_short_name = refl

entity_lem :
    (t : Text)
    → length t ≡ 2
    → is_some (or_name (code_of_code t entries) t) ≡ true
    → is_state t ≡ true
entity_lem t two h = go (code_of_code t entries) refl h
  where
    go :
        (o : Option Text)
        → code_of_code t entries ≡ o
        → is_some (or_name o t) ≡ true
        → is_state t ≡ true
    go none e q = absurd (some_true (name_lem t entries two no_short_name) q)
      where
        some_true : {o : Option Text} → o ≡ none → is_some o ≡ true → ⊥
        some_true p k = cc
    go (some code) e q = code_lem t entries (ap is_some e) all_states

pub entidad_code-HasState :
    (t : Text)
    → length t ≡ 18
    → shape_from 0 t ≡ true
    → is_some (entidad_code (slice 11 13 t)) ≡ true
    → HasState t
unfolding entidad_code
entidad_code-HasState t size shape h =
    let (a, b, first, second, cut) = two_at t 11 (omega arith) in
    let is_a : shape_at 11 a ≡ true = shape_at_lem t 11 a shape first in
    let is_b : shape_at 12 b ≡ true = shape_at_lem t 12 b shape second in
    let same = letter_lem a b (ground arith, ground arith) (ground arith, ground arith) in
    record {
      a = a;
      b = b;
      first = first;
      second = second;
      state = entity_lem (a ∷ b ∷ []) refl (rw (cut, same) at h);
    }
