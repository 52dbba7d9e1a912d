-- ===== src/Mission/Selection.antt =====
-- What `select_winning_bid` promises, whatever bids come in.
use galax_ia_sdk.Prelude.{
  ℕ, ◌<◌, ltb, ◌==◌, ==_iff, ltb→lt, arith, ◌≡◌, ◌≢◌, ◌⊎◌, inl, inr, refl, sym, ◌∙◌, subst, Bool,
  true, false, Option, none, some, List, [], ◌∷◌, Bool-cases,
}
use galax_ia_sdk.Prelude.Int.{ℤ, ◌≤ℤ◌, ltb_ℤ}
use galax_ia_sdk.Prelude.Lex.{list_eq, list_eq_iff}
use galax_ia_sdk.Text.{Text}
use galax_ia_sdk.Protocol.{MissionBidMessage}
use galax_ia_sdk.Mission.{
  trust_rank, total_key, then_with, cmp, cmp_ℤ, Bids, greater, cmp_bids, covers, eligible, filter,
  find, min_from, min_by, select_winning_bid, or_best, find_preferred,
}
use galax_ia_sdk.Mission.Choice.{
  Among, filter-Among, Among-filter, find-some, find-none, min_from-below, min_from-below_best,
  min_from-Among, head_or_tail,
}

abbrev able : List Text → MissionBidMessage → Bool
able required b = covers required b.offered_capabilities

abbrev from : Text → MissionBidMessage → Bool
from did b = list_eq b.provider_did did

-- What the selection comes to: the first bid of the preferred provider, or the best of all.
Chosen : Bids → Option Text → MissionBidMessage → Type 0
Chosen bids preferred w =
    ((did : Text) × (preferred ≡ some did) × (find (from did) bids ≡ some w))
    ⊎ ((find_preferred preferred bids ≡ none) × (min_by bids ≡ some w))

or_best-Chosen :
    (bids : Bids) (preferred : Option Text) (w : MissionBidMessage)
    → or_best (find_preferred preferred bids) bids ≡ some w
    → Chosen bids preferred w
unfolding Chosen
or_best-Chosen bids none w h = inr (refl, h)
or_best-Chosen bids (some did) w h = found (find (from did) bids) refl h
  where
    found :
        (o : Option MissionBidMessage)
        → find (from did) bids ≡ o
        → or_best o bids ≡ some w
        → ((d : Text) × (Path (Option Text) (some did) (some d)) × (find (from d) bids ≡ some w))
          ⊎ ((find (from did) bids ≡ none) × (min_by bids ≡ some w))
    found none p q = inr (p, q)
    found (some x) p q = inl (did, refl, p ∙ q)

min_by-Among : (bids : Bids) (w : MissionBidMessage) → min_by bids ≡ some w → Among w bids
unfolding min_by
min_by-Among [] w h = absurd (none_some h)
  where
    none_some : {x : MissionBidMessage} → Path (Option MissionBidMessage) none (some x) → ⊥
    none_some q = cc
min_by-Among (b ∷ bs) w h = subst (λ x. Among x (b ∷ bs)) (of_some h) (min_from-Among b bs)
  where
    of_some : {x y : MissionBidMessage} → Path (Option MissionBidMessage) (some x) (some y) → x ≡ y
    of_some q = cc

min_by-below :
    (bids : Bids) (w b : MissionBidMessage)
    → min_by bids ≡ some w
    → Among b bids
    → cmp_bids w b ≢ greater
unfolding min_by
min_by-below [] w b h m = elim m [ ]
min_by-below (c ∷ bs) w b h m =
    let same : min_from c bs ≡ w = of_some h in
    subst (λ x. cmp_bids x b ≢ greater) same
      (elim (head_or_tail b c m) [
        | inl first ↦
            subst (λ x. cmp_bids (min_from c bs) x ≢ greater) (sym first) (min_from-below_best c bs)
        | inr later ↦ min_from-below c bs b later
      ])
  where
    of_some : {x y : MissionBidMessage} → Path (Option MissionBidMessage) (some x) (some y) → x ≡ y
    of_some q = cc

Chosen-Among :
    (bids : Bids) (preferred : Option Text) (w : MissionBidMessage)
    → Chosen bids preferred w
    → Among w bids
unfolding Chosen
Chosen-Among bids preferred w (inl (did, p, f)) = (find-some (from did) bids w f).0
Chosen-Among bids preferred w (inr (p, f)) = min_by-Among bids w f

-- One bid is at least as good as another: more trusted, or as trusted with a higher reputation, or
-- the same in both with a latency that is not higher.
abbrev pub NotWorse : MissionBidMessage → MissionBidMessage → Type 0
NotWorse w b =
    (trust_rank b.trust_level < trust_rank w.trust_level)
    ⊎ ((trust_rank b.trust_level ≡ trust_rank w.trust_level)
        × ((total_key b.reputation_score < total_key w.reputation_score)
            ⊎ ((total_key b.reputation_score ≡ total_key w.reputation_score)
                × (w.estimated_latency_ms ≤ℤ b.estimated_latency_ms))))

not_worse :
    (t r t' r' : ℕ) (l l' : ℤ)
    → then_with (then_with (cmp t' t) (cmp r' r)) (cmp_ℤ l l') ≢ greater
    → (t' < t) ⊎ ((t' ≡ t) × ((r' < r) ⊎ ((r' ≡ r) × (l ≤ℤ l'))))
not_worse t r t' r' l l' h = elim (Bool-cases (ltb t' t)) [
  | inl more_trust ↦ inl (ltb→lt t' t more_trust)
  | inr not_more ↦ elim (Bool-cases (t' == t)) [
    | inr less_trust ↦ absurd (h (rw (not_more, less_trust)))
    | inl same_trust ↦ inr (
      (==_iff t' t).0 same_trust,
      elim (Bool-cases (ltb r' r)) [
        | inl higher ↦ inl (ltb→lt r' r higher)
        | inr not_higher ↦ elim (Bool-cases (r' == r)) [
          | inr lower ↦ absurd (h (rw (not_more, same_trust, not_higher, lower)))
          | inl same ↦ inr (
            (==_iff r' r).0 same,
            elim (Bool-cases (ltb_ℤ l' l)) [
              | inl slower ↦ absurd (h (ground (arith, not_more, same_trust, not_higher, same)))
              | inr quick ↦ ground arith
            ],
          )
        ]
      ],
    )
  ]
]

cmp_bids-NotWorse : (w b : MissionBidMessage) → cmp_bids w b ≢ greater → NotWorse w b
unfolding cmp_bids
cmp_bids-NotWorse w b h =
    not_worse (trust_rank w.trust_level) (total_key w.reputation_score) (trust_rank b.trust_level)
      (total_key b.reputation_score) w.estimated_latency_ms b.estimated_latency_ms h

module _ (bids : Bids) (required : List Text) (preferred : Option Text) (w : MissionBidMessage)
    (won : select_winning_bid bids required preferred ≡ some w) where
  chosen : Chosen (eligible required bids) preferred w
  unfolding select_winning_bid
  chosen = or_best-Chosen (eligible required bids) preferred w won

  -- The winner is one of the bids, and it offers every required capability.
  pub select_winning_bid-Among : Among w bids × (covers required w.offered_capabilities ≡ true)
  unfolding eligible
  select_winning_bid-Among =
      filter-Among (able required) w bids (Chosen-Among (eligible required bids) preferred w chosen)

  -- If the preferred provider has a bid that offers every required capability, the winner is a
  -- bid of that provider.
  pub select_winning_bid_preferred :
      (did : Text) (b : MissionBidMessage)
      → preferred ≡ some did
      → Among b bids
      → covers required b.offered_capabilities ≡ true
      → b.provider_did ≡ did
      → w.provider_did ≡ did
  unfolding eligible Chosen
  select_winning_bid_preferred did b wish m able_b is_did = elim chosen [
    | inl (d, p, f) ↦ preferred_first d p f
    | inr (p, f) ↦ absurd (never (rw wish at p))
  ]
    where
      preferred_first :
          (d : Text)
          → preferred ≡ some d
          → find (from d) (filter (able required) bids) ≡ some w
          → w.provider_did ≡ did
      preferred_first d p f =
          (list_eq_iff w.provider_did d).0 (find-some (from d) (filter (able required) bids) w f).1
          ∙ same_text (sym p ∙ wish)
        where
          same_text : {x y : Text} → Path (Option Text) (some x) (some y) → x ≡ y
          same_text q = cc

      never : find (from did) (filter (able required) bids) ≡ none → ⊥
      never q =
          let absent =
            find-none (from did) (filter (able required) bids) b q
              (Among-filter (able required) b bids m able_b) in
          let present : list_eq b.provider_did did ≡ true =
            (list_eq_iff b.provider_did did).1 is_did in
          cc

  -- When the winner is not the preferred provider, no bid that offers every required capability
  -- is better than it by trust, then reputation, then latency.
  pub select_winning_bid_best :
      (b : MissionBidMessage)
      → ((did : Text) → preferred ≡ some did → w.provider_did ≢ did)
      → Among b bids
      → covers required b.offered_capabilities ≡ true
      → NotWorse w b
  unfolding eligible Chosen
  select_winning_bid_best b other m able_b = cmp_bids-NotWorse w b (elim chosen [
    | inl (d, p, f) ↦ absurd (
        other d p (
          (list_eq_iff w.provider_did d).0
            (find-some (from d) (filter (able required) bids) w f).1))
    | inr (p, f) ↦
        min_by-below (filter (able required) bids) w b f
          (Among-filter (able required) b bids m able_b)
  ])

-- There is no winner only when no bid offers every required capability.
pub select_winning_bid-none :
    (bids : Bids) (required : List Text) (preferred : Option Text) (b : MissionBidMessage)
    → select_winning_bid bids required preferred ≡ none
    → Among b bids
    → covers required b.offered_capabilities ≡ false
unfolding select_winning_bid eligible min_by
select_winning_bid-none bids required preferred b h m = elim (Bool-cases (able required b)) [
  | inl good ↦ absurd (
      nonempty (filter (able required) bids)
        (find_preferred preferred (filter (able required) bids)) h
        (Among-filter (able required) b bids m good))
  | inr bad ↦ bad
]
  where
    nonempty : (bs : Bids) (o : Option MissionBidMessage) → or_best o bs ≡ none → Among b bs → ⊥
    nonempty bs (some x) p n = cc
    nonempty [] none p n = elim n [ ]
    nonempty (x ∷ xs) none p n = cc
