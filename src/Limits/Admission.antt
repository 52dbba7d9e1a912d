-- ===== src/Limits/Admission.antt =====
-- What one call of the limiter does to the counters that a caller can observe.
use galax_ia_sdk.Prelude.{
  ℕ, ◌+◌, ◌-◌, ◌≤◌, ◌<◌, ◌≡◌, ◌⊎◌, some, arith, if◌then◌else◌, inl, inr, Bool-cases, leb, ==_iff,
}
use galax_ia_sdk.Prelude.Result.{ok, err}
use galax_ia_sdk.Prelude.Dict.{Dict, get, insert, ◌==◌, nat_key, get-insert, get-remove}
use galax_ia_sdk.Limits.{
  PeerId, node_full, peer_full, State, StreamPermit, or_zero, max_inbound_streams,
  max_inbound_streams_per_peer, open_of, try_admit, drop, give_back,
}

-- What an admission promises: there was room, and only the peer's own count goes up.
pub record Admitted (s s' : State) (peer : PeerId) : Type 0 where
  pub node_room : s.total < max_inbound_streams
  pub peer_room : open_of s peer < max_inbound_streams_per_peer
  pub total : s'.total ≡ s.total + 1
  pub counts : (q : PeerId) → open_of s' q ≡ (if peer == q then open_of s q + 1 else open_of s q)

pub try_admit-Admitted :
    (s s' : State) (peer : PeerId) (permit : StreamPermit)
    → try_admit s peer ≡ (s', ok permit)
    → Admitted s s' peer × (permit.peer ≡ peer)
unfolding try_admit open_of
try_admit-Admitted s s' peer permit h = (
  record {
    node_room = ground arith;
    peer_room = ground arith;
    total = ground arith;
    counts = λ q. ground (arith, get-insert peer q (open_of s peer + 1) s.per_peer);
  },
  ground arith,
)

-- A call admits, or it leaves the state as it was and names the limit that is reached, of the
-- node or of the peer.
pub try_admit_verdict :
    (s : State) (peer : PeerId)
    → ((s' : State) × (permit : StreamPermit) × (try_admit s peer ≡ (s', ok permit)))
      ⊎ ((try_admit s peer ≡ (s, err (node_full s.total))) × (max_inbound_streams ≤ s.total))
      ⊎ ((try_admit s peer ≡ (s, err (peer_full (open_of s peer))))
          × (max_inbound_streams_per_peer ≤ open_of s peer))
unfolding try_admit
try_admit_verdict s peer = elim (Bool-cases (leb max_inbound_streams s.total)) [
  | inl full ↦ inr (inl (rw full, ground arith))
  | inr room ↦ elim (Bool-cases (leb max_inbound_streams_per_peer (open_of s peer))) [
    | inl full ↦ inr (inr (rw (room, full), ground arith))
    | inr free ↦ inl (
      record { total = s.total + 1; per_peer = insert peer (open_of s peer + 1) s.per_peer },
      record { peer = peer },
      rw (room, free),
    )
  ]
]

-- What giving a place back promises.
pub record Released (s s' : State) (peer : PeerId) : Type 0 where
  pub total : s'.total + 1 ≡ s.total
  pub counts : (q : PeerId) → open_of s' q ≡ (if peer == q then open_of s q - 1 else open_of s q)

get-give_back :
    (m : Dict PeerId ℕ) (peer q : PeerId) (left : ℕ)
    → or_zero (get q (give_back m peer left)) ≡ (if peer == q then left else or_zero (get q m))
unfolding give_back
get-give_back m peer q left =
    ground (arith, get-remove peer q (insert peer left m), get-insert peer q left m)

after_drop : State → PeerId → State
after_drop s peer = record {
  total = s.total - 1;
  per_peer = give_back s.per_peer peer (open_of s peer - 1);
}

-- A drop of a permit whose peer holds a place does not overflow.
pub drop-Released :
    (s : State) (permit : StreamPermit)
    → 1 ≤ s.total
    → 1 ≤ open_of s permit.peer
    → (s' : State) × (drop s permit ≡ some s') × Released s s' permit.peer
unfolding drop open_of after_drop
drop-Released s permit t o = (
  after_drop s permit.peer,
  ground arith,
  record {
    total = omega arith;
    counts = λ q. ground (
      arith,
      get-give_back s.per_peer permit.peer q (or_zero (get permit.peer s.per_peer) - 1),
      ==_iff permit.peer q,
    );
  },
)

-- The drop of a permit right after its admission succeeds and gives back the total and the
-- places of every peer.
pub drop-try_admit :
    (s s' : State) (peer : PeerId) (permit : StreamPermit)
    → try_admit s peer ≡ (s', ok permit)
    → (s'' : State) × (drop s' permit ≡ some s'')
      × (s''.total ≡ s.total)
      × ((q : PeerId) → open_of s'' q ≡ open_of s q)
drop-try_admit s s' peer permit h =
    let (a, e) = try_admit-Admitted s s' peer permit h in
    let c = a.counts permit.peer in
    let (s'', d, r) =
      drop-Released s' permit (omega (arith, a.total)) (ground (arith, ==_iff peer permit.peer)) in
    (
      s'',
      d,
      omega (arith, a.total, r.total),
      λ q. ground (arith, a.counts q, r.counts q, ==_iff peer permit.peer),
    )
