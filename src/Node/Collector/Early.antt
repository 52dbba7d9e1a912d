-- ===== src/Node/Collector/Early.antt =====
-- Closing a window early, when the preferred provider has a bid, against waiting for more bids.
use galax_ia_sdk.Prelude.{
  ◌≡◌, refl, ap, ◌∙◌, sym, Bool, true, false, Option, none, some, List, [], ◌∷◌, ◌++◌,
  if◌then◌else◌, Bool-cases, inl, inr, any, ◌||◌,
}
use galax_ia_sdk.Prelude.Lex.{list_eq_iff}
use galax_ia_sdk.Text.{Text}
use galax_ia_sdk.Protocol.{MissionBidMessage}
use galax_ia_sdk.Mission.{
  Bids, filter, find, covers, eligible, select_winning_bid, allow, allowed_bid, filter_allowed,
}
use galax_ia_sdk.Mission.Choice.{Among, head_or_tail, filter-Among}
use galax_ia_sdk.Node.Collector.{OpenBidWindow, bid_of, preferred_arrived}

filter-append :
    (p : MissionBidMessage → Bool) (xs ys : Bids) → filter p (xs ++ ys) ≡ filter p xs ++ filter p ys
filter-append p [] ys = refl
filter-append p (x ∷ xs) ys = go (p x) (filter-append p xs ys)
  where
    go :
        (b : Bool)
        → filter p (xs ++ ys) ≡ filter p xs ++ filter p ys
        → (if b then x ∷ filter p (xs ++ ys) else filter p (xs ++ ys))
          ≡ (if b then x ∷ filter p xs else filter p xs) ++ filter p ys
    go true e = ap (◌∷◌ x) e
    go false e = e

-- A bid that passes a filter and a search is found, and more bids behind it change nothing.
find-append :
    (p q : MissionBidMessage → Bool) (xs ys : Bids) (b : MissionBidMessage)
    → Among b xs
    → p b ≡ true
    → q b ≡ true
    → (w : MissionBidMessage) × (find q (filter p xs) ≡ some w)
      × (find q (filter p xs ++ ys) ≡ some w)
unfolding find
find-append p q [] ys b m h k = elim m [ ]
find-append p q (x ∷ xs) ys b m h k = elim (head_or_tail b x m) [
  | inl first ↦
      let passes : p x ≡ true = ap p (sym first) ∙ h in
      let fits : q x ≡ true = ap q (sym first) ∙ k in rw (passes, fits) (x, refl, refl)
  | inr later ↦ go (p x) (find-append p q xs ys b later h k)
]
  where
    go :
        (s : Bool)
        → (w : MissionBidMessage) × (find q (filter p xs) ≡ some w)
          × (find q (filter p xs ++ ys) ≡ some w)
        → (w : MissionBidMessage) × (find q (if s then x ∷ filter p xs else filter p xs) ≡ some w)
          × (find q ((if s then x ∷ filter p xs else filter p xs) ++ ys) ≡ some w)
    go false r = r
    go true (w, e, e') = elim (Bool-cases (q x)) [
      | inl fits ↦ rw fits (x, refl, refl)
      | inr other ↦ rw other (w, e, e')
    ]

any-Among :
    (q : MissionBidMessage → Bool) (xs : Bids) (b : MissionBidMessage)
    → Among b xs
    → q b ≡ true
    → any q xs ≡ true
any-Among q [] b m k = elim m [ ]
any-Among q (x ∷ xs) b m k = elim (head_or_tail b x m) [
  | inl first ↦ let fits : q x ≡ true = ap q (sym first) ∙ k in rw fits refl
  | inr later ↦ or_true (q x) (any-Among q xs b later k)
]
  where
    or_true : (s : Bool) {t : Bool} → t ≡ true → s || t ≡ true
    or_true true e = refl
    or_true false e = e

allow-append :
    (o : Option (List Text)) (connected : Text → Bool) (xs ys : Bids)
    → allow o connected (xs ++ ys) ≡ allow o connected xs ++ allow o connected ys
unfolding filter_allowed
allow-append none connected xs ys = refl
allow-append (some allowed) connected xs ys = filter-append (allowed_bid allowed connected) xs ys

allow-Among :
    (o : Option (List Text)) (connected : Text → Bool) (b : MissionBidMessage) (bs : Bids)
    → Among b (allow o connected bs)
    → Among b bs
unfolding filter_allowed
allow-Among none connected b bs m = m
allow-Among (some allowed) connected b bs m =
    (filter-Among (allowed_bid allowed connected) b bs m).0

-- When a bid of the preferred provider that offers every required capability is in the window
-- and passes the filter of the allowed providers, the loop of `collect` stops, and the bids that
-- it does not wait for cannot change the winner among the bids that pass the filter.
pub early_close :
    (window : OpenBidWindow) (did : Text) (required : List Text) (later : Bids)
    (allowed : Option (List Text)) (connected : Text → Bool) (b : MissionBidMessage)
    → window.preferred_provider ≡ some did
    → Among b (allow allowed connected window.bids)
    → b.provider_did ≡ did
    → covers required b.offered_capabilities ≡ true
    → (preferred_arrived window ≡ true)
      × (select_winning_bid (allow allowed connected (window.bids ++ later)) required (some did)
          ≡ select_winning_bid (allow allowed connected window.bids) required (some did))
unfolding preferred_arrived select_winning_bid eligible
early_close window did required later allowed connected b wish m from able =
    let kept = allow allowed connected window.bids in
    let is_did : bid_of did b ≡ true = (list_eq_iff b.provider_did did).1 from in
    let (w, found, still) =
      find-append (λ x. covers required x.offered_capabilities) (bid_of did) kept
        (filter (λ x. covers required x.offered_capabilities) (allow allowed connected later)) b m
        able is_did in
    (
      rw wish (
          any-Among (bid_of did) window.bids b (allow-Among allowed connected b window.bids m)
            is_did),
      rw (
        allow-append allowed connected window.bids later,
        filter-append (λ x. covers required x.offered_capabilities) kept
            (allow allowed connected later),
        found,
        still,
      ),
    )
