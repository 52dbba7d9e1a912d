-- ===== src/Mission/Choice.antt =====
-- The bid that `select_winning_bid` chooses.
use galax_ia_sdk.Prelude.{
  ◌≡◌, ◌≢◌, ◌⊎◌, inl, inr, refl, ap, sym, ◌∙◌, subst, Bool, true, false, Option, none, some, [],
  ◌∷◌, arith, Bool-cases,
}
use galax_ia_sdk.Protocol.{MissionBidMessage}
use galax_ia_sdk.Mission.{
  Bids, Ordering, less, equal, greater, cmp_bids, filter, find, keep_min, min_from,
}

-- A bid stands in a list of bids.
pub data Among (b : MissionBidMessage) : Bids → Type 0 where
  here : (bs : Bids) → Among b (b ∷ bs)
  there : (a : MissionBidMessage) {bs : Bids} → Among b bs → Among b (a ∷ bs)

cmp_bids_trans :
    (a b c : MissionBidMessage)
    → cmp_bids a b ≢ greater
    → cmp_bids b c ≢ greater
    → cmp_bids a c ≢ greater
unfolding cmp_bids
cmp_bids_trans a b c p q r = ground arith

cmp_bids_self : (a : MissionBidMessage) → cmp_bids a a ≢ greater
unfolding cmp_bids
cmp_bids_self a = ground arith

cmp_bids_turned : (a b : MissionBidMessage) → cmp_bids a b ≡ greater → cmp_bids b a ≢ greater
unfolding cmp_bids
cmp_bids_turned a b h = ground arith

-- What is kept of two is below both.
keep_min-below :
    (a b : MissionBidMessage) (o : Ordering)
    → cmp_bids a b ≡ o
    → (cmp_bids (keep_min a b o) a ≢ greater) × (cmp_bids (keep_min a b o) b ≢ greater)
keep_min-below a b less h = (cmp_bids_self a, λ e. cc)
keep_min-below a b equal h = (cmp_bids_self a, λ e. cc)
keep_min-below a b greater h = (cmp_bids_turned a b h, cmp_bids_self b)

keep_min-either :
    (a b : MissionBidMessage) (o : Ordering) → (keep_min a b o ≡ a) ⊎ (keep_min a b o ≡ b)
keep_min-either a b less = inl refl
keep_min-either a b equal = inl refl
keep_min-either a b greater = inr refl

pub min_from-below_best :
    (best : MissionBidMessage) (bs : Bids) → cmp_bids (min_from best bs) best ≢ greater
unfolding min_from
min_from-below_best best [] = cmp_bids_self best
min_from-below_best best (b ∷ bs) =
    cmp_bids_trans _ (keep_min best b (cmp_bids best b)) best
      (min_from-below_best (keep_min best b (cmp_bids best b)) bs)
      (keep_min-below best b (cmp_bids best b) refl).0

pub min_from-below :
    (best : MissionBidMessage) (bs : Bids) (b : MissionBidMessage)
    → Among b bs
    → cmp_bids (min_from best bs) b ≢ greater
unfolding min_from
min_from-below best [] b m = elim m [ ]
min_from-below best (c ∷ bs) b (here _) =
    cmp_bids_trans _ (keep_min best c (cmp_bids best c)) c
      (min_from-below_best (keep_min best c (cmp_bids best c)) bs)
      (keep_min-below best c (cmp_bids best c) refl).1
min_from-below best (c ∷ bs) b (there _ m) =
    min_from-below (keep_min best c (cmp_bids best c)) bs b m

pub min_from-Among : (best : MissionBidMessage) (bs : Bids) → Among (min_from best bs) (best ∷ bs)
unfolding min_from
min_from-Among best [] = here []
min_from-Among best (b ∷ bs) = elim (keep_min-either best b (cmp_bids best b)) [
  | inl first ↦ rw first (weaken (min_from-Among best bs))
  | inr second ↦ rw second (there best (min_from-Among b bs))
]
  where
    weaken : {w a c : MissionBidMessage} {bs : Bids} → Among w (a ∷ bs) → Among w (a ∷ c ∷ bs)
    weaken (here _) = here _
    weaken (there _ m) = there _ (there _ m)

pub head_or_tail : (b a : MissionBidMessage) {bs : Bids} → Among b (a ∷ bs) → (b ≡ a) ⊎ Among b bs
head_or_tail b a (here _) = inl refl
head_or_tail b a (there _ m) = inr m

-- Membership in a filtered list.
module _ (p : MissionBidMessage → Bool) where
  pub filter-Among :
      (b : MissionBidMessage) (bs : Bids) → Among b (filter p bs) → Among b bs × (p b ≡ true)
  filter-Among b [] m = elim m [ ]
  filter-Among b (a ∷ bs) m = elim (Bool-cases (p a)) [
    | inl keeps ↦ elim (head_or_tail b a (subst (Among b) (rw keeps) m)) [
      | inl same ↦ (subst (λ x. Among x (a ∷ bs)) (sym same) (here bs), ap p same ∙ keeps)
      | inr later ↦ let (m', holds) = filter-Among b bs later in (there a m', holds)
    ]
    | inr drops ↦
        let (m', holds) = filter-Among b bs (subst (Among b) (rw drops) m) in (there a m', holds)
  ]

  pub Among-filter :
      (b : MissionBidMessage) (bs : Bids) → Among b bs → p b ≡ true → Among b (filter p bs)
  Among-filter b [] m h = elim m [ ]
  Among-filter b (a ∷ bs) (here _) h = rw h (here _)
  Among-filter b (a ∷ bs) (there _ m) h = elim (Bool-cases (p a)) [
    | inl keeps ↦ rw keeps (there a (Among-filter b bs m h))
    | inr drops ↦ rw drops (Among-filter b bs m h)
  ]

  pub find-some :
      (bs : Bids) (b : MissionBidMessage) → find p bs ≡ some b → Among b bs × (p b ≡ true)
  unfolding find
  find-some [] b h = absurd (none_some h)
    where
      none_some : {x : MissionBidMessage} → Path (Option MissionBidMessage) none (some x) → ⊥
      none_some q = cc
  find-some (a ∷ bs) b h = elim (Bool-cases (p a)) [
    | inl holds ↦ first holds (rw holds at h)
    | inr fails ↦ let (m, holds) = find-some bs b (rw fails at h) in (there a m, holds)
  ]
    where
      first :
          p a ≡ true
          → Path (Option MissionBidMessage) (some a) (some b)
          → Among b (a ∷ bs) × (p b ≡ true)
      first holds q =
          let same : a ≡ b = cc in
          (subst (λ x. Among x (a ∷ bs)) same (here bs), ap p (sym same) ∙ holds)

  pub find-none : (bs : Bids) (b : MissionBidMessage) → find p bs ≡ none → Among b bs → p b ≡ false
  unfolding find
  find-none [] b h m = elim m [ ]
  find-none (a ∷ bs) b h m = elim (Bool-cases (p a)) [
    | inl holds ↦ absurd (some_none (rw holds at h))
    | inr fails ↦ elim (head_or_tail b a m) [
      | inl same ↦ ap p same ∙ fails
      | inr later ↦ find-none bs b (rw fails at h) later
    ]
  ]
    where
      some_none : {x : MissionBidMessage} → Path (Option MissionBidMessage) (some x) none → ⊥
      some_none q = cc
