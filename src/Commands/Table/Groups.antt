-- ===== src/Commands/Table/Groups.antt =====
-- The groups of offers that `from_peers` builds: never empty, and only of admitted nodes.
use galax_ia_sdk.Prelude.{
  ◌≡◌, ◌≢◌, sym, subst, true, some, List, [], ◌∷◌, ◌++◌, All, Bool-cases, inl, inr,
}
use galax_ia_sdk.Prelude.Dict.{Dict, get, list_key}
use galax_ia_sdk.Prelude.Lex.{lex_lt, list_eq, list_eq_iff}
use galax_ia_sdk.Text.{Text, Bytes}
use galax_ia_sdk.Text.Utf8.{as_bytes}
use galax_ia_sdk.Protocol.{CommandDescriptor}
use galax_ia_sdk.Commands.Registry.{Registry, RegistryEntry}
use galax_ia_sdk.Commands.Descriptors.{fingerprint}
use galax_ia_sdk.Commands.Table.{Policy, admits, Offer, Groups, update, push_offer}

-- A property of all entries of a map, of the key and the value, survives `update`.
module _ {ℓ μ} {V : Type ℓ} (P : Text → V → Type μ) where
  abbrev pub Each : Dict Text V → Type μ
  Each = All (λ e. P e.0 e.1)

  pub update-Each :
      (key : Text) (default : V) (f : V → V) (m : Dict Text V)
      → P key (f default)
      → ((v : V) → P key v → P key (f v))
      → Each m
      → Each (update key default f m)
  unfolding update
  update-Each key default f [] new old h = (new, tt)
  update-Each key default f ((k, v) ∷ m) new old (p, h) = elim (Bool-cases (list_eq k key)) [
    | inl same ↦
        let e : k ≡ key = (list_eq_iff k key).0 same in
        rw same (subst (λ x. P x (f v)) (sym e) (old v (subst (λ x. P x v) e p)), h)
    | inr other ↦ elim (Bool-cases (lex_lt (as_bytes key) (as_bytes k))) [
      | inl before ↦ rw (other, before) (new, (p, h))
      | inr behind ↦ rw (other, behind) (p, update-Each key default f m new old h)
    ]
  ]

module _ {ℓ} {V : Type ℓ} where
  not_nil : {x : Text × V} {xs : List (Text × V)} → Path (List (Text × V)) (x ∷ xs) [] → ⊥
  not_nil q = cc

  update-ne : (key : Text) (default : V) (f : V → V) (m : Dict Text V) → update key default f m ≢ []
  unfolding update
  update-ne key default f [] e = not_nil e
  update-ne key default f ((k, v) ∷ m) e = elim (Bool-cases (list_eq k key)) [
    | inl same ↦ not_nil (rw same at e)
    | inr other ↦ elim (Bool-cases (lex_lt (as_bytes key) (as_bytes k))) [
      | inl before ↦ not_nil (rw (other, before) at e)
      | inr behind ↦ not_nil (rw (other, behind) at e)
    ]
  ]

module _ (encode : CommandDescriptor → Bytes) (sha256 : Bytes → Bytes) (registry : Registry)
    (policy : Policy) where
  -- The offer of a node that the policy admits for the capability of the command, under the name
  -- and the fingerprint of its contract.
  pub record IsAdmitted (name contract : Text) (offer : Offer) : Type 0 where
    pub named : offer.1.name ≡ name
    pub same_contract : fingerprint sha256 encode offer.1 ≡ contract
    pub entry : RegistryEntry
    pub registered : get offer.1.capability_id registry.entries ≡ some entry
    pub admitted : admits policy entry.admission offer.0 ≡ true

  abbrev pub Offers : Text → Text → List Offer → Type 0
  Offers name contract offers = (offers ≢ []) × All (IsAdmitted name contract) offers

  abbrev pub Group : Text → Dict Text (List Offer) → Type 0
  Group name group = (group ≢ []) × Each (Offers name) group

  abbrev pub GroupsOk : Groups → Type 0
  GroupsOk = Each Group

  append-Offers :
      (name contract : Text) (offers : List Offer) (o : Offer)
      → All (IsAdmitted name contract) offers
      → IsAdmitted name contract o
      → All (IsAdmitted name contract) (offers ++ (o ∷ []))
  append-Offers name contract [] o h a = (a, tt)
  append-Offers name contract (x ∷ xs) o (p, h) a = (p, append-Offers name contract xs o h a)

  append-ne : (offers : List Offer) (o : Offer) → offers ++ (o ∷ []) ≢ []
  append-ne [] o e = cc
  append-ne (x ∷ xs) o e = cc

  pub push_offer-GroupsOk :
      (name contract : Text) (o : Offer) (groups : Groups)
      → IsAdmitted name contract o
      → GroupsOk groups
      → GroupsOk (push_offer name contract o groups)
  unfolding push_offer
  push_offer-GroupsOk name contract o groups a h =
      update-Each Group name [] into groups (into_Group [] tt) (λ group g. into_Group group g.1) h
    where
      add : List Offer → List Offer
      add offers = offers ++ (o ∷ [])

      into : Dict Text (List Offer) → Dict Text (List Offer)
      into group = update contract [] add group

      into_Group :
          (group : Dict Text (List Offer)) → Each (Offers name) group → Group name (into group)
      into_Group group g = (
        update-ne contract [] add group,
        update-Each (Offers name) contract [] add group
            (append-ne [] o, append-Offers name contract [] o tt a)
            (λ offers p. (append-ne offers o, append-Offers name contract offers o p.1 a)) g,
      )
