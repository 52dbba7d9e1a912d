-- ===== src/Client/Reached.antt =====
-- Whom `dial_provider` reaches, and which addresses it dials.
use galax_ia_sdk.Prelude.{
  ◌≡◌, inl, inr, refl, ap, ◌∙◌, sym, subst, Bool, true, false, Option, none, some, List, [], ◌∷◌,
  ◌++◌, if◌then◌else◌, Bool-cases, All, ◌==◌, ==_iff,
}
use galax_ia_sdk.Prelude.Result.{Result, ok, err, ok_injective}
use galax_ia_sdk.Text.{Text}
use galax_ia_sdk.Limits.{PeerId}
use galax_ia_sdk.Node.{Multiaddr, peer_id_of}
use galax_ia_sdk.Client.{MissionError, Failure}
use galax_ia_sdk.Client.Dial.{
  Network, Dialled, reached, refused, silent, ordered, Attempt, failed, success, judge, names_other,
  attempt_at, Dials, add_failure, then_dials, try_all, of_failures, dial_addrs, dial_expected,
  dial_provider,
}

module _ (n : Network) (expected : PeerId) where
  -- an address that names the expected peer or none
  abbrev pub Names : Multiaddr → Type 0
  Names addr = names_other expected (peer_id_of addr) ≡ false

  abbrev OnlyExpected : Dials n → Type 0
  OnlyExpected d = ((peer : PeerId) → d.result ≡ ok peer → peer ≡ expected) × All Names d.dialled

  judged :
      (raw : Text) (d : Dialled) (peer : PeerId)
      → judge raw expected d ≡ success peer
      → peer ≡ expected
  judged raw (reached q) peer h = elim (Bool-cases (q == expected)) [
    | inl same ↦
        let e : Path Attempt (success q) (success peer) = rw same at h in
        let p : q ≡ peer = cc in sym p ∙ (==_iff q expected).0 same
    | inr other ↦ absurd (no (rw other at h))
  ]
    where
      no : {f : Failure} → Path Attempt (failed f) (success peer) → ⊥
      no q = cc
  judged raw (refused e) peer h = cc
  judged raw silent peer h = cc

  add_failure-ok :
      (f : Failure) (r : Result PeerId (List Failure)) (peer : PeerId)
      → add_failure n f r ≡ ok peer
      → r ≡ ok peer
  add_failure-ok f (ok q) peer h = h
  add_failure-ok f (err fs) peer h = cc

  All-append : (xs ys : List Multiaddr) → All Names xs → All Names ys → All Names (xs ++ ys)
  All-append [] ys h k = k
  All-append (x ∷ xs) ys (p, h) k = (p, All-append xs ys h k)

  then_dials-OnlyExpected :
      (a : Attempt × List Multiaddr) (rest : Dials n)
      → ((peer : PeerId) → a.0 ≡ success peer → peer ≡ expected)
      → All Names a.1
      → OnlyExpected rest
      → OnlyExpected (then_dials n a rest)
  then_dials-OnlyExpected (success p, dialled) rest h k r =
      ((λ peer e. h peer (ap success (ok_injective e))), k)
  then_dials-OnlyExpected (failed f, dialled) rest h k (r, rs) = (
    (λ peer e. r peer (add_failure-ok f rest.result peer e)),
    All-append dialled rest.dialled k rs,
  )

  attempt_at-OnlyExpected :
      (raw : Text) (o : Option Multiaddr)
      → ((peer : PeerId) → (attempt_at n raw expected o).0 ≡ success peer → peer ≡ expected)
        × All Names (attempt_at n raw expected o).1
  attempt_at-OnlyExpected raw none = ((λ peer e. cc), tt)
  attempt_at-OnlyExpected raw (some addr) =
      elim (Bool-cases (names_other expected (peer_id_of addr))) [
        | inl other ↦ rw other ((λ peer e. cc), tt)
        | inr named ↦ rw named (judged raw (n.dial addr), (named, tt))
      ]

  try_all-OnlyExpected : (raws : List Text) → OnlyExpected (try_all n expected raws)
  unfolding try_all
  try_all-OnlyExpected [] = ((λ peer e. cc), tt)
  try_all-OnlyExpected (raw ∷ raws) =
      let (h, k) = attempt_at-OnlyExpected raw (n.parse raw) in
      then_dials-OnlyExpected (attempt_at n raw expected (n.parse raw)) (try_all n expected raws) h
        k (try_all-OnlyExpected raws)

module _ (n : Network) where
  of_failures-ok :
      (provider : Text) (r : Result PeerId (List Failure)) (peer : PeerId)
      → of_failures n provider r ≡ ok peer
      → r ≡ ok peer
  of_failures-ok provider (ok q) peer h = ap ok (ok_injective h)
  of_failures-ok provider (err fs) peer h = cc

  -- A dial of a provider that succeeds has reached the peer of its DID, and it dialled no address
  -- that names another peer.
  pub dial_provider-expected :
      (provider : Text) (addrs : List Text) (peer : PeerId)
      → (dial_provider n provider addrs).0 ≡ ok peer
      → (n.peer_id_of_did provider ≡ ok peer)
        × All (Names n peer) (dial_provider n provider addrs).1
  unfolding dial_provider
  dial_provider-expected provider addrs peer h = go (n.peer_id_of_did provider) refl h
    where
      listed :
          (expected : PeerId) (l : List Text)
          → (dial_addrs n provider expected l).0 ≡ ok peer
          → (peer ≡ expected) × All (Names n expected) (dial_addrs n provider expected l).1
      listed expected [] q = cc
      listed expected (a ∷ l) q =
          let (only, named) = try_all-OnlyExpected n expected (ordered (a ∷ l)) in
          (only peer (of_failures-ok provider _ peer q), named)

      known :
          (b : Bool) (expected : PeerId) (r : Result PeerId MissionError × List Multiaddr)
          → (r.0 ≡ ok peer → (peer ≡ expected) × All (Names n expected) r.1)
          → (if b then (ok expected, []) else r).0 ≡ ok peer
          → (peer ≡ expected) × All (Names n expected) (if b then (ok expected, []) else r).1
      known true expected r f q = (sym (ok_injective q), tt)
      known false expected r f q = f q

      go :
          (r : Result PeerId Text)
          → n.peer_id_of_did provider ≡ r
          → (dial_expected n provider addrs r).0 ≡ ok peer
          → (n.peer_id_of_did provider ≡ ok peer)
            × All (Names n peer) (dial_expected n provider addrs r).1
      go (err e) d q = cc
      go (ok expected) d q =
          let (same, named) =
            known (n.is_connected expected) expected (dial_addrs n provider expected addrs)
              (listed expected addrs) q in
          (
            d ∙ ap ok (sym same),
            subst (λ p. All (Names n p) (dial_expected n provider addrs (ok expected)).1) (sym same)
                named,
          )
