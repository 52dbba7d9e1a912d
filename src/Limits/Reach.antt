-- ===== src/Limits/Reach.antt =====
-- The limiter under any interleaving of its callers: `held` lists the permits that are out.
use galax_ia_sdk.Prelude.{
  ℕ, suc, ◌+◌, ◌≤◌, ◌≡◌, refl, sym, subst, some, List, [], ◌∷◌, ◌++◌, arith, length, if◌then◌else◌,
  ==_iff,
}
use galax_ia_sdk.Prelude.Result.{ok, err}
use galax_ia_sdk.Prelude.Dict.{◌==◌, nat_key, get}
use galax_ia_sdk.Limits.{
  PeerId, Rejected, State, StreamPermit, init, max_inbound_streams, max_inbound_streams_per_peer,
  open_of, try_admit, drop,
}
use galax_ia_sdk.Limits.Admission.{Admitted, try_admit-Admitted, Released, drop-Released}

pub record Node : Type 0 where
  pub state : State
  pub held : List StreamPermit

abbrev pub start : Node
start = record { state = init; held = [] }

-- A caller asks for a place, or gives back a permit that it holds.
pub data Step : Node → Node → Type 0 where
  admit :
      (n : Node) (peer : PeerId) (s' : State) (permit : StreamPermit)
      → try_admit n.state peer ≡ (s', ok permit)
      → Step n (record { state = s'; held = permit ∷ n.held })
  reject :
      (n : Node) (peer : PeerId) (s' : State) (why : Rejected)
      → try_admit n.state peer ≡ (s', err why)
      → Step n (record { state = s'; held = n.held })
  release :
      (s s' : State) (before : List StreamPermit) (permit : StreamPermit)
      (after : List StreamPermit)
      → drop s permit ≡ some s'
      → Step
          (record { state = s; held = before ++ permit ∷ after })
          (record { state = s'; held = before ++ after })

pub data Reach : Node → Type 0 where
  begin : Reach start
  next : {n m : Node} → Reach n → Step n m → Reach m

-- how many of the permits are of one peer
unfoldable pub count : PeerId → List StreamPermit → ℕ
count q [] = 0
count q (p ∷ ps) = if p.peer == q then suc (count q ps) else count q ps

count-append :
    (q : PeerId) (xs : List StreamPermit) (p : StreamPermit) (ys : List StreamPermit)
    → count q (xs ++ p ∷ ys)
      ≡ (if p.peer == q then suc (count q (xs ++ ys)) else count q (xs ++ ys))
unfolding count
count-append q [] p ys = refl
count-append q (x ∷ xs) p ys = ground (arith, count-append q xs p ys)

length-middle :
    (xs : List StreamPermit) (p : StreamPermit) (ys : List StreamPermit)
    → length (xs ++ p ∷ ys) ≡ suc (length (xs ++ ys))
length-middle [] p ys = refl
length-middle (x ∷ xs) p ys = omega (arith, length-middle xs p ys)

-- The counters are exactly the permits that are out, and both limits hold.
pub record Inv (n : Node) : Type 0 where
  pub total : n.state.total ≡ length n.held
  pub counts : (q : PeerId) → open_of n.state q ≡ count q n.held
  pub node_limit : n.state.total ≤ max_inbound_streams
  pub peer_limit : (q : PeerId) → open_of n.state q ≤ max_inbound_streams_per_peer

start-Inv : Inv start
unfolding open_of get count
start-Inv = record {
  total = refl;
  counts = λ q. refl;
  node_limit = omega arith;
  peer_limit = λ q. omega arith;
}

admit-Inv :
    (n : Node) (s' : State) (permit : StreamPermit)
    → Admitted n.state s' permit.peer
    → Inv n
    → Inv (record { state = s'; held = permit ∷ n.held })
unfolding count
admit-Inv n s' permit a v = record {
  total = omega (arith, a.total, v.total);
  counts = λ q. ground (arith, a.counts q, v.counts q);
  node_limit = omega (arith, a.total, a.node_room);
  peer_limit = λ q. ground (arith, a.counts q, v.peer_limit q, a.peer_room, ==_iff permit.peer q);
}

release-Inv :
    (s s' : State) (xs : List StreamPermit) (p : StreamPermit) (ys : List StreamPermit)
    → Released s s' p.peer
    → Inv (record { state = s; held = xs ++ p ∷ ys })
    → Inv (record { state = s'; held = xs ++ ys })
release-Inv s s' xs p ys r v = record {
  total = omega (arith, r.total, v.total, length-middle xs p ys);
  counts = λ q. ground (arith, r.counts q, v.counts q, count-append q xs p ys);
  node_limit = omega (arith, r.total, v.node_limit);
  peer_limit = λ q. ground (arith, r.counts q, v.peer_limit q);
}

reject-same :
    (s s' : State) (peer : PeerId) (why : Rejected) → try_admit s peer ≡ (s', err why) → s' ≡ s
unfolding try_admit
reject-same s s' peer why h = ground arith

-- A permit that is out holds a place, so its drop does not overflow.
held-Released :
    (s : State) (xs : List StreamPermit) (p : StreamPermit) (ys : List StreamPermit)
    → Inv (record { state = s; held = xs ++ p ∷ ys })
    → (s' : State) × (drop s p ≡ some s') × Released s s' p.peer
held-Released s xs p ys v =
    drop-Released s p (omega (arith, v.total, length-middle xs p ys))
      (ground (arith, v.counts p.peer, count-append p.peer xs p ys, ==_iff p.peer p.peer))

pub Step-Inv : {n m : Node} → Step n m → Inv n → Inv m
Step-Inv (admit n peer s' permit h) v =
    let (a, e) = try_admit-Admitted n.state s' peer permit h in
    admit-Inv n s' permit (subst (λ q. Admitted n.state s' q) (sym e) a) v
Step-Inv (reject n peer s' why h) v =
    subst (λ s. Inv (record { state = s; held = n.held })) (sym (reject-same n.state s' peer why h))
      v
Step-Inv (release s s' xs p ys h) v =
    let (s'', d, r) = held-Released s xs p ys v in
    release-Inv s s' xs p ys (subst (λ t. Released s t p.peer) (cc) r) v

-- In every state that admissions, rejections and drops reach in any order, the total is the
-- number of permits that are out, each peer has as many places as permits, and neither passes
-- its limit.
pub Reach-Inv : {n : Node} → Reach n → Inv n
Reach-Inv begin = start-Inv
Reach-Inv (next r s) = Step-Inv s (Reach-Inv r)

-- In a reachable state the drop of any permit that is out succeeds without an overflow and takes
-- one from the total.
pub Reach-drop :
    (n : Node) (xs : List StreamPermit) (p : StreamPermit) (ys : List StreamPermit)
    → Reach n
    → n.held ≡ xs ++ p ∷ ys
    → (s' : State) × (drop n.state p ≡ some s') × (s'.total + 1 ≡ n.state.total)
Reach-drop n xs p ys r e =
    let v = subst (λ l. Inv (record { state = n.state; held = l })) e (Reach-Inv r) in
    let (s', d, rel) = held-Released n.state xs p ys v in (s', d, rel.total)

-- Once every permit has been given back, the total and the places of every peer are 0, as at the
-- start.
pub Reach-idle :
    (n : Node)
    → Reach n
    → n.held ≡ []
    → (n.state.total ≡ 0) × ((q : PeerId) → open_of n.state q ≡ 0)
unfolding count
Reach-idle n r e =
    let v = subst (λ l. Inv (record { state = n.state; held = l })) e (Reach-Inv r) in
    (v.total, λ q. v.counts q)
