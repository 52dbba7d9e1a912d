-- ===== src/Node/World.antt =====
-- The actor under any order of commands and events: the peers that it counts as connected, and the
-- answers that it owes to its callers.
use galax_ia_sdk.Prelude.{
  ℕ, suc, ◌≡◌, refl, ap, ◌∙◌, sym, Bool, true, false, some, arith, if◌then◌else◌, Bool-cases, inl,
  inr, ◌||◌, ◌&&◌, not, ltb, ==_iff,
}
use galax_ia_sdk.Prelude.Int.{ℤ}
use galax_ia_sdk.Prelude.Dict.{
  Dict, ◌==◌, get, remove, has_key, nat_key, DistinctKeys, insert-DistinctKeys,
}
use galax_ia_sdk.Limits.{PeerId}
use galax_ia_sdk.Node.State.{
  OpenConnection, Actor, SwarmEvent, connection_established, connection_closed, ConnectedPoint,
  member,
}
use galax_ia_sdk.Node.Events.{established, connection_lost}
use galax_ia_sdk.Node.Quiet.{Frame, frame_of}
use galax_ia_sdk.Node.Connections.{
  tally, tally-insert, tally-remove, remove-DistinctKeys, member-add_peer, member-drop_peer,
}

-- how many of the open connections are with a peer
abbrev pub connections_with : PeerId → Dict ℕ OpenConnection → ℕ
connections_with peer = tally (λ c. c.peer == peer)

-- What a swarm promises of the events that it sends: ids of connections are fresh, and a closed
-- one was open and comes with the number of those that are left with the peer.
abbrev pub Possible : Actor → SwarmEvent → Type 0
Possible a (connection_established peer id endpoint) = has_key id a.connections ≡ false
Possible a (connection_closed peer id left) =
    (conn : OpenConnection) × (get id a.connections ≡ some conn)
    × (conn.peer ≡ peer)
    × (left ≡ connections_with peer (remove id a.connections))
Possible a _ = Unit

-- The connections are those of the connected peers, and no id stands twice.
pub record NetInv (f : Frame) : Type 0 where
  pub distinct : DistinctKeys f.0
  pub exact : (peer : PeerId) → member peer f.1 ≡ ltb 0 (connections_with peer f.0)
  pub distinct_dials : DistinctKeys f.2

-- how many pending dials of a caller
abbrev pub waiting : ℕ → Dict ℕ ℕ → ℕ
waiting k = tally (λ reply. reply == k)

grown : (s m : Bool) (n n' : ℕ) → m ≡ ltb 0 n → n' ≡ (if s then suc n else n) → s || m ≡ ltb 0 n'
grown s m n n' h k = ground arith

shrunk_last :
    (s m : Bool) (n n' : ℕ)
    → m ≡ ltb 0 n
    → n ≡ (if s then suc n' else n')
    → (s ≡ true → n' ≡ 0)
    → not s && m ≡ ltb 0 n'
shrunk_last true m n n' h k none_left = ground (arith, none_left refl)
shrunk_last false m n n' h k none_left = ground arith

shrunk :
    (s m : Bool) (n n' : ℕ)
    → m ≡ ltb 0 n
    → n ≡ (if s then suc n' else n')
    → (s ≡ true → (n' == 0) ≡ false)
    → m ≡ ltb 0 n'
shrunk true m n n' h k some_left = ground (arith, some_left refl)
shrunk false m n n' h k some_left = ground arith

pub established-NetInv :
    (now : ℤ) (a : Actor) (peer id : ℕ) (endpoint : ConnectedPoint)
    → has_key id a.connections ≡ false
    → NetInv (frame_of a)
    → NetInv (frame_of (established now a peer id endpoint).0)
unfolding established
established-NetInv now a peer id endpoint fresh v = record {
  distinct = insert-DistinctKeys id _ a.connections v.distinct;
  exact = λ q.
      member-add_peer peer q a.connected
      ∙ grown (peer == q) (member q a.connected) (connections_with q a.connections) _ (v.exact q)
          (tally-insert (λ c. c.peer == q) id _ a.connections fresh);
  distinct_dials = remove-DistinctKeys id a.pending_dials v.distinct_dials;
}

pub closed-NetInv :
    (a : Actor) (conn : OpenConnection) (id left : ℕ)
    → get id a.connections ≡ some conn
    → left ≡ connections_with conn.peer (remove id a.connections)
    → NetInv (frame_of a)
    → NetInv (frame_of (connection_lost a conn.peer id left))
unfolding connection_lost
closed-NetInv a conn id left held count v =
    let rest = remove id a.connections in
    let fewer : (q : PeerId)
        → connections_with q a.connections
          ≡ (if conn.peer == q then suc (connections_with q rest) else connections_with q rest) =
      λ q. tally-remove (λ c. c.peer == q) id conn a.connections v.distinct held in
    let of_peer : (q : PeerId) → (conn.peer == q) ≡ true → connections_with q rest ≡ left =
      λ q e. ap (λ x. connections_with x rest) (sym ((==_iff conn.peer q).0 e)) ∙ sym count in
    record {
      distinct = remove-DistinctKeys id a.connections v.distinct;
      exact = λ q. elim (Bool-cases (left == 0)) [
        | inl last ↦ rw last (
            member-drop_peer conn.peer q a.connected
            ∙ shrunk_last (conn.peer == q) (member q a.connected) (connections_with q a.connections)
                (connections_with q rest) (v.exact q) (fewer q)
                (λ e. of_peer q e ∙ (==_iff left 0).0 last))
        | inr others ↦ rw others (
            shrunk (conn.peer == q) (member q a.connected) (connections_with q a.connections)
              (connections_with q rest) (v.exact q) (fewer q)
              (λ e. ap (λ x. x == 0) (of_peer q e) ∙ others))
      ];
      distinct_dials = v.distinct_dials;
    }
