-- ===== src/Ipfs/Pins.antt =====
-- The answers that rust/fhs/src/ipfs.rs reads: the pinned CIDs are those of the keys, in canonical
-- form, and the CID of an `add` is that of the last line that is not blank.
use galax_ia_sdk.Prelude.{
  ◌≡◌, ◌↔◌, ◌⊎◌, inl, inr, refl, ap, ◌∙◌, sym, subst, Bool, true, false, Option, none, some, List,
  [], ◌∷◌, ◌++◌, All, Bool-cases, ◌||◌,
}
use galax_ia_sdk.Prelude.Lex.{list_eq, list_eq_iff, list_eq_self}
use galax_ia_sdk.Prelude.Result.{ok, >>=-eq-ok, ok_injective}
use galax_ia_sdk.Text.{Text, codes}
use galax_ia_sdk.Ipfs.{Kubo, KuboClient, canonical_cid}
use galax_ia_sdk.Ipfs.Api.{Decoders, member, insert_member, json, canonical_all, pin_ls}

or_true : (a b : Bool) → (a || b) ≡ true → (a ≡ true) ⊎ (b ≡ true)
or_true true b h = inl refl
or_true false b h = inr h

true_or : (a b : Bool) → (a ≡ true) ⊎ (b ≡ true) → (a || b) ≡ true
true_or true b h = refl
true_or false b (inl h) = cc
true_or false b (inr h) = h

already :
    (b : Bool) (c t : Text) (set : List Text)
    → list_eq t c ≡ b
    → member t set ≡ true
    → member c set ≡ (b || member c set)
already false c t set e inside = refl
already true c t set e inside = subst (λ x. member x set ≡ true) ((list_eq_iff t c).0 e) inside

member-insert_member :
    (c t : Text) (set : List Text) → member c (insert_member t set) ≡ (list_eq t c || member c set)
unfolding insert_member
member-insert_member c t set = elim (Bool-cases (member t set)) [
  | inl inside ↦ rw inside (already (list_eq t c) c t set refl inside)
  | inr outside ↦ rw outside refl
]

module _ (k : Kubo) (d : Decoders) (client : KuboClient) where
  -- a key that is pinned, with its canonical form
  abbrev pub HasKey : Text → List Text → Type 0
  HasKey c [] = ⊥
  HasKey c (key ∷ keys) = (canonical_cid k key ≡ ok c) ⊎ HasKey c keys

  empty_set : (set : List Text) (c : Text) → [] ≡ set → member c set ≡ true → ⊥
  empty_set set c e m = absurd_member (subst (λ s. member c s ≡ true) (sym e) m)
    where
      absurd_member : false ≡ true → ⊥
      absurd_member h = cc

  key_found :
      (key : Text) (keys : List Text) (c c' : Text) {M : Type 0}
      → canonical_cid k key ≡ ok c'
      → (M → HasKey c keys)
      → (list_eq c' c ≡ true) ⊎ M
      → HasKey c (key ∷ keys)
  key_found key keys c c' e ih (inl same) = inl (e ∙ ap ok ((list_eq_iff c' c).0 same))
  key_found key keys c c' e ih (inr m) = inr (ih m)

  key_kept :
      (key : Text) (keys : List Text) (c c' : Text) {M : Type 0}
      → canonical_cid k key ≡ ok c'
      → (HasKey c keys → M)
      → HasKey c (key ∷ keys)
      → (list_eq c' c ≡ true) ⊎ M
  key_kept key keys c c' e ih (inl e') =
      inl (subst (λ x. list_eq c' x ≡ true) (ok_injective (sym e ∙ e')) (list_eq_self c'))
  key_kept key keys c c' e ih (inr f) = inr (ih f)

  canonical_all-members :
      (keys set : List Text) (c : Text)
      → canonical_all k d client keys ≡ ok set
      → (member c set ≡ true) ↔ HasKey c keys
  unfolding canonical_all
  canonical_all-members [] set c h = (λ m. empty_set set c (ok_injective h) m, λ e. elim e [ ])
  canonical_all-members (key ∷ keys) set c h =
      let (c', e, h') = >>=-eq-ok (canonical_cid k key) _ h in
      let (more, e', h'') = >>=-eq-ok (canonical_all k d client keys) _ h' in
      let ih = canonical_all-members keys more c e' in
      let same = ap (member c) (sym (ok_injective h'')) ∙ member-insert_member c c' more in
      (
        (λ m.
            key_found key keys c c' e ih.0 (or_true (list_eq c' c) (member c more) (sym same ∙ m))),
        (λ f. same ∙ true_or (list_eq c' c) (member c more) (key_kept key keys c c' e ih.1 f)),
      )

  abbrev pub AllCanonical : List Text → Type 0
  AllCanonical = All (λ key. (c : Text) × (canonical_cid k key ≡ ok c))

  canonical_all-AllCanonical :
      (keys set : List Text) → canonical_all k d client keys ≡ ok set → AllCanonical keys
  unfolding canonical_all
  canonical_all-AllCanonical [] set h = tt
  canonical_all-AllCanonical (key ∷ keys) set h =
      let (c', e, h') = >>=-eq-ok (canonical_cid k key) _ h in
      let (more, e', h'') = >>=-eq-ok (canonical_all k d client keys) _ h' in
      ((c', e), canonical_all-AllCanonical keys more e')

  -- When the pinned CIDs of a kind are read, every key that Kubo answers has a canonical form,
  -- and the result has those forms, all of them and no others.
  pub pin_ls-members :
      (kind : Text) (keys set : List Text) (c : Text)
      → json k d client d.pinned_keys (codes "pin/ls") ((codes "type", kind) ∷ []) ≡ ok keys
      → pin_ls k d client kind ≡ ok set
      → AllCanonical keys × ((member c set ≡ true) ↔ HasKey c keys)
  unfolding pin_ls
  pin_ls-members kind keys set c answered h =
      let read : canonical_all k d client keys ≡ ok set = rw answered at h in
      (canonical_all-AllCanonical keys set read, canonical_all-members keys set c read)

-- a text, first in the answer or behind lines
abbrev pub behind : Option Text → Text → Text
behind none t = t
behind (some earlier) t = earlier ++ 10 ∷ t
