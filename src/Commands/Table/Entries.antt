-- ===== src/Commands/Table/Entries.antt =====
-- The table that `from_peers` builds: it never panics, and it only holds what the policy admits.
use galax_ia_sdk.Prelude.{
  ◌≡◌, ◌≢◌, refl, some, List, [], ◌∷◌, arith, All, map, Bool-cases, inl, inr,
}
use galax_ia_sdk.Prelude.Dict.{Dict, list_key}
use galax_ia_sdk.Prelude.Lex.{list_eq}
use galax_ia_sdk.Prelude.Sort.{sort_on, sort_on-All, place}
use galax_ia_sdk.Text.{Text, Bytes}
use galax_ia_sdk.Protocol.{CommandDescriptor}
use galax_ia_sdk.Commands.Registry.{Registry}
use galax_ia_sdk.Commands.Descriptors.{fingerprint}
use galax_ia_sdk.Commands.Table.{
  Policy, Offer, offer_key, Groups, Entry, active, conflict, active_of, entry_of, entries_of, dedup,
}
use galax_ia_sdk.Commands.Table.Groups.{IsAdmitted, Group, GroupsOk}

place-ne : (x : Offer) (xs : List Offer) → place offer_key x xs ≢ []
unfolding place
place-ne x [] e = cc
place-ne x (y ∷ ys) e = ground arith

sort-ne : (xs : List Offer) → xs ≢ [] → sort_on offer_key xs ≢ []
unfolding sort_on
sort-ne [] ne e = ne refl
sort-ne (x ∷ xs) ne e = place-ne x (sort_on offer_key xs) e

All-dedup : (P : Text → Type 0) (ts : List Text) → All P ts → All P (dedup ts)
unfolding dedup
All-dedup P [] h = tt
All-dedup P (t ∷ []) h = h
All-dedup P (t ∷ u ∷ ts) (p, h) = elim (Bool-cases (list_eq t u)) [
  | inl same ↦ rw same (All-dedup P (u ∷ ts) h)
  | inr other ↦ rw other (p, All-dedup P (u ∷ ts) h)
]

module _ (encode : CommandDescriptor → Bytes) (sha256 : Bytes → Bytes) (registry : Registry)
    (policy : Policy) where
  -- A node of a command in force: the policy admits it for the capability of a command of that name
  -- whose contract is the one in force.
  pub record IsNode (name contract did : Text) : Type 0 where
    pub descriptor : CommandDescriptor
    pub offered : IsAdmitted encode sha256 registry policy name contract (did, descriptor)

  -- What stands in the table under a name.
  abbrev pub EntryOk : Text → Entry → Type 0
  EntryOk name (conflict n) = Unit
  EntryOk name (active c) =
      (c.descriptor.name ≡ name)
      × (fingerprint sha256 encode c.descriptor ≡ c.contract)
      × All (IsNode name c.contract) c.nodes

  nodes_of :
      (name contract : Text) (offers : List Offer)
      → All (IsAdmitted encode sha256 registry policy name contract) offers
      → All (IsNode name contract) (map (λ (p : Offer). p.0) offers)
  nodes_of name contract [] h = tt
  nodes_of name contract ((did, d) ∷ os) (a, h) =
      (record { descriptor = d; offered = a }, nodes_of name contract os h)

  active_of-EntryOk :
      (name contract : Text) (offers : List Offer)
      → offers ≢ []
      → All (IsAdmitted encode sha256 registry policy name contract) offers
      → (e : Entry) × (active_of contract offers ≡ some e) × EntryOk name e
  active_of-EntryOk name contract [] ne h = absurd (ne refl)
  active_of-EntryOk name contract (o ∷ os) ne (a, h) = (
    _,
    refl,
    (
      a.named,
      a.same_contract,
      All-dedup (IsNode name contract) (map (λ (p : Offer). p.0) (o ∷ os))
          (nodes_of name contract (o ∷ os) (a, h)),
    ),
  )

  entry_of-EntryOk :
      (name : Text) (group : Dict Text (List Offer))
      → Group encode sha256 registry policy name group
      → (e : Entry) × (entry_of group ≡ some e) × EntryOk name e
  unfolding entry_of
  entry_of-EntryOk name [] (ne, h) = absurd (ne refl)
  entry_of-EntryOk name ((contract, offers) ∷ []) (ne, ((some_offer, h), _)) =
      active_of-EntryOk name contract (sort_on offer_key offers) (sort-ne offers some_offer)
        (sort_on-All offer_key _ offers h)
  entry_of-EntryOk name (first ∷ second ∷ more) h = (_, refl, tt)

  abbrev pub EntriesOk : Dict Text Entry → Type 0
  EntriesOk = All (λ e. EntryOk e.0 e.1)

  pub entries_of-EntriesOk :
      (groups : Groups)
      → GroupsOk encode sha256 registry policy groups
      → (entries : Dict Text Entry) × (entries_of groups ≡ some entries) × EntriesOk entries
  unfolding entries_of
  entries_of-EntriesOk [] h = ([], refl, tt)
  entries_of-EntriesOk ((name, group) ∷ groups) (g, h) =
      let (e, p, good) = entry_of-EntryOk name group g in
      let (rest, q, fine) = entries_of-EntriesOk groups h in
      ((name, e) ∷ rest, rw (p, q), (good, fine))
