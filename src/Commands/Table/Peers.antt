-- ===== src/Commands/Table/Peers.antt =====
-- From the advertisements to the table: `from_peers` never panics, and it only holds what the policy
-- admits.
use galax_ia_sdk.Prelude.{
  ℕ, ◌≡◌, refl, ap, sym, ◌∙◌, subst, Bool, Option, none, some, List, [], ◌∷◌, ◌++◌, arith, All,
  Bool-cases, inl, inr, ◌||◌, not,
}
use galax_ia_sdk.Prelude.Int.{ℤ, ltb_ℤ}
use galax_ia_sdk.Prelude.Dict.{get, list_key, All-get}
use galax_ia_sdk.Text.{Text, Bytes}
use galax_ia_sdk.Protocol.{CommandDescriptor}
use galax_ia_sdk.PeerCache.{PeerEntry}
use galax_ia_sdk.Commands.{DescriptorError, is_empty}
use galax_ia_sdk.Commands.Registry.{Registry, RegistryEntry}
use galax_ia_sdk.Commands.Descriptors.{
  validate_descriptors, validate_descriptor, validate_entry, validate_each, fingerprint, or_else,
}
use galax_ia_sdk.Commands.Table.{
  Policy, admits, Groups, Built, Entry, active, conflict, ActiveCommand, CommandTable, add_commands,
  judge, add_peer, add_peers, old_version, table_of, from_peers, push_offer, version_at_least,
  resolve, resolved, resolution_of,
}
use galax_ia_sdk.Commands.Table.Groups.{GroupsOk, push_offer-GroupsOk}
use galax_ia_sdk.Commands.Table.Entries.{EntryOk, EntriesOk, entries_of-EntriesOk, IsNode}

module _ (listed : ℕ → Bool) (registry : Registry) where
  -- A descriptor that is valid names a capability of the registry.
  registered_of :
      (d : CommandDescriptor) (capabilities : List Text) (o : Option RegistryEntry)
      → validate_entry listed d capabilities o ≡ none
      → (e : RegistryEntry) × (o ≡ some e)
  unfolding validate_entry
  registered_of d capabilities none h = cc
  registered_of d capabilities (some e) h = (e, refl)

  valid_registered :
      (d : CommandDescriptor) (capabilities : List Text)
      → validate_descriptor listed d capabilities registry ≡ none
      → (e : RegistryEntry) × (get d.capability_id registry.entries ≡ some e)
  unfolding validate_descriptor
  valid_registered d capabilities h =
      registered_of d capabilities (get d.capability_id registry.entries) (ground arith)

  or_else-none :
      (a b : Option DescriptorError) → or_else listed a b ≡ none → (a ≡ none) × (b ≡ none)
  or_else-none none b h = (refl, h)
  or_else-none (some e) b h = cc

  abbrev Registered : CommandDescriptor → Type 0
  Registered d = (e : RegistryEntry) × (get d.capability_id registry.entries ≡ some e)

  each-Registered :
      (ds : List CommandDescriptor) (capabilities : List Text)
      → validate_each listed ds capabilities registry ≡ none
      → All Registered ds
  unfolding validate_each
  each-Registered [] capabilities h = tt
  each-Registered (d ∷ ds) capabilities h =
      let (p, q) = or_else-none _ _ h in
      (valid_registered d capabilities p, each-Registered ds capabilities q)

module _ (listed : ℕ → Bool) (encode : CommandDescriptor → Bytes) (encoded_len_varint : ℕ → ℕ)
    (sha256 : Bytes → Bytes) (registry : Registry) (policy : Policy) where
  abbrev Good : Groups → Type 0
  Good = GroupsOk encode sha256 registry policy

  add_commands-Good :
      (did : Text) (ds : List CommandDescriptor) (groups : Groups)
      → All (Registered listed registry) ds
      → Good groups
      → (out : Groups) × (add_commands listed encode encoded_len_varint sha256 registry policy did
            ds groups
          ≡ some out)
        × Good out
  unfolding add_commands
  add_commands-Good did [] groups h g = (groups, refl, g)
  add_commands-Good did (d ∷ ds) groups ((e, known), h) g =
      elim (Bool-cases (admits policy e.admission did)) [
        | inl yes_admitted ↦
            let (out, p, good) =
              add_commands-Good did ds
                (push_offer d.name (fingerprint sha256 encode d) (did, d) groups) h
                (push_offer-GroupsOk encode sha256 registry policy d.name
                  (fingerprint sha256 encode d) (did, d) groups
                  (record {
                    named = refl;
                    same_contract = refl;
                    entry = e;
                    registered = known;
                    admitted = yes_admitted;
                  })
                  g) in
            (out, rw (known, yes_admitted) p, good)
        | inr refused ↦
            let (out, p, good) = add_commands-Good did ds groups h g in
            (out, rw (known, refused) p, good)
      ]

  valid-each :
      (ds : List CommandDescriptor) (capabilities : List Text)
      → validate_descriptors listed encode encoded_len_varint ds capabilities registry ≡ none
      → validate_each listed ds capabilities registry ≡ none
  unfolding validate_descriptors
  valid-each ds capabilities h = ground arith

  judge-Good :
      (peer : PeerEntry) (built : Built listed encode encoded_len_varint sha256 registry policy)
      (o : Option DescriptorError)
      → validate_descriptors listed encode encoded_len_varint peer.beacon.commands
          peer.beacon.capabilities registry
        ≡ o
      → Good built.0
      → (out : Built listed encode encoded_len_varint sha256 registry policy) × (judge listed encode
            encoded_len_varint sha256 registry policy peer built o
          ≡ some out)
        × Good out.0
  judge-Good peer (groups, rejected) (some e) v g = (_, refl, g)
  judge-Good peer (groups, rejected) none v g =
      let (out, p, good) =
        add_commands-Good peer.did peer.beacon.commands groups
          (each-Registered listed registry peer.beacon.commands peer.beacon.capabilities
            (valid-each peer.beacon.commands peer.beacon.capabilities v))
          g in
      ((out, rejected), rw p, good)

  add_peer-Good :
      (now_ms : ℤ) (peer : PeerEntry)
      (built : Built listed encode encoded_len_varint sha256 registry policy)
      → Good built.0
      → (out : Built listed encode encoded_len_varint sha256 registry policy) × (add_peer listed
            encode encoded_len_varint sha256 registry policy now_ms peer built
          ≡ some out)
        × Good out.0
  unfolding add_peer
  add_peer-Good now_ms peer (groups, rejected) g =
      elim (Bool-cases
        (is_empty peer.beacon.commands || not (ltb_ℤ now_ms peer.advert_expires_ms))) [
          | inl skipped ↦ ((groups, rejected), rw skipped, g)
          | inr live_peer ↦ elim (Bool-cases (not (version_at_least peer.beacon.fhs_version))) [
            | inl old ↦
                ((groups, rejected ++ ((peer.did, old_version) ∷ [])), rw (live_peer, old), g)
            | inr recent ↦
                let (out, p, good) = judge-Good peer (groups, rejected) _ refl g in
                (out, rw (live_peer, recent) p, good)
          ]
        ]

  add_peers-Good :
      (now_ms : ℤ) (peers : List PeerEntry)
      (built : Built listed encode encoded_len_varint sha256 registry policy)
      → Good built.0
      → (out : Built listed encode encoded_len_varint sha256 registry policy) × (add_peers listed
            encode encoded_len_varint sha256 registry policy now_ms peers built
          ≡ some out)
        × Good out.0
  unfolding add_peers
  add_peers-Good now_ms [] built g = (built, refl, g)
  add_peers-Good now_ms (peer ∷ peers) built g =
      let (next, p, good) = add_peer-Good now_ms peer built g in
      let (out, q, fine) = add_peers-Good now_ms peers next good in (out, rw p q, fine)

  table_of-EntriesOk :
      (built : Built listed encode encoded_len_varint sha256 registry policy)
      → Good built.0
      → (t : CommandTable) × (table_of listed encode encoded_len_varint sha256 registry policy
            (some built)
          ≡ some t)
        × EntriesOk encode sha256 registry policy t.entries
  table_of-EntriesOk (groups, rejected) g =
      let (entries, p, good) = entries_of-EntriesOk encode sha256 registry policy groups g in
      (record { entries = entries; rejected = rejected }, rw p, good)

  -- The table is built without a failing index or expect whatever the peers announce, and every
  -- entry of an active command has the name and contract it stands under and only admitted nodes.
  pub from_peers_total :
      (peers : List PeerEntry) (now_ms : ℤ)
      → (t : CommandTable) × (from_peers listed encode encoded_len_varint sha256 registry policy
            peers now_ms
          ≡ some t)
        × EntriesOk encode sha256 registry policy t.entries
  unfolding from_peers
  from_peers_total peers now_ms =
      let (built, p, good) = add_peers-Good now_ms peers ([], []) tt in
      let (t, q, fine) = table_of-EntriesOk built good in (t, rw p q, fine)

  resolved_entry :
      (o : Option Entry) (c : ActiveCommand) → resolution_of o ≡ resolved c → o ≡ some (active c)
  resolved_entry none c h = absurd (ground arith)
  resolved_entry (some (active d)) c h =
      let same : d ≡ c = cc in ap (λ (x : ActiveCommand). some (active x)) same
  resolved_entry (some (conflict n)) c h = absurd (ground arith)

  -- A command that resolves in the table of any peers has the name that was asked for and the
  -- contract of its fingerprint, and each of its nodes is one that the policy admits for the
  -- capability of a command of that name and that contract.
  pub resolve-IsNode :
      (peers : List PeerEntry) (now_ms : ℤ) (t : CommandTable) (name : Text) (c : ActiveCommand)
      → from_peers listed encode encoded_len_varint sha256 registry policy peers now_ms ≡ some t
      → resolve t name ≡ resolved c
      → (c.descriptor.name ≡ name)
        × (fingerprint sha256 encode c.descriptor ≡ c.contract)
        × All (IsNode encode sha256 registry policy name c.contract) c.nodes
  unfolding resolve
  resolve-IsNode peers now_ms t name c built h =
      let (t', p, fine) = from_peers_total peers now_ms in
      let same : t' ≡ t = some_injective (sym p ∙ built) in
      let entries = subst (λ x. EntriesOk encode sha256 registry policy x.entries) same fine in
      All-get (λ e. EntryOk encode sha256 registry policy e.0 e.1) name (active c) t.entries entries
        (resolved_entry (get name t.entries) c h)
    where
      some_injective : {x y : CommandTable} → Path (Option CommandTable) (some x) (some y) → x ≡ y
      some_injective q = cc
