-- ===== src/Provider/Serving.antt =====
-- `serve` of rust/fhs/src/p2p/provider.rs: the loop over the streams that come in, each of which gets
-- a task with its permit, or is dropped. A task that ends gives its permit back.
use galax_ia_sdk.Prelude.{
  ℕ, zero, suc, ◌≤◌, ◌≡◌, refl, sym, subst, ap, inl, inr, append_assoc, Option, none, some, List,
  [], ◌∷◌, ◌++◌, arith, length,
}
use galax_ia_sdk.Limits.{
  PeerId, State, StreamPermit, max_inbound_streams, max_inbound_streams_per_peer, drop,
}
use galax_ia_sdk.Limits.Admission.{try_admit_verdict}
use galax_ia_sdk.Limits.Reach.{
  Node, start, admit, reject, release, Reach, begin, next, count, Reach-Inv, Reach-drop,
}
use galax_ia_sdk.Node.Handle.{admit_stream, permit_of}

-- A stream comes in, or the task with that number ends, counted from the latest.
pub data Incoming : Type 0 where
  arrives : PeerId → Incoming
  finishes : ℕ → Incoming

-- The tasks are the permits they hold.
abbrev pub Serving : Type 0
Serving = Node

abbrev pub spawned : List StreamPermit → State × Option StreamPermit → Serving
spawned tasks (s, some permit) = record { state = s; held = permit ∷ tasks }
spawned tasks (s, none) = record { state = s; held = tasks }

abbrev pub with_tasks : List StreamPermit → Option State → Option Serving
with_tasks tasks none = none
with_tasks tasks (some s) = some (record { state = s; held = tasks })

-- the end of a task among those that are left to look at, with the ones before it
unfoldable pub end_task : State → List StreamPermit → ℕ → List StreamPermit → Option Serving
end_task s before n [] = some (record { state = s; held = before ++ [] })
end_task s before zero (permit ∷ after) = with_tasks (before ++ after) (drop s permit)
end_task s before (suc n) (permit ∷ after) = end_task s (before ++ permit ∷ []) n after

-- `none` is a subtraction that overflows in the drop of a permit.
unfoldable pub serve_turn : Serving → Incoming → Option Serving
serve_turn v (arrives peer) = some (spawned v.held (admit_stream v.state peer))
serve_turn v (finishes n) = end_task v.state [] n v.held

unfoldable pub serve : List Incoming → Serving → Option Serving
serve [] v = some v
serve (e ∷ es) v = elim (serve_turn v e) [ none ↦ none | some w ↦ serve es w ]

abbrev Goes : Option Serving → Type 0
Goes o = (w : Serving) × (o ≡ some w) × Reach w

arrives-Reach : (v : Serving) (peer : PeerId) → Reach v → Goes (serve_turn v (arrives peer))
unfolding serve_turn admit_stream
arrives-Reach v peer r = elim (try_admit_verdict v.state peer) [
  | inl (s', permit, e) ↦ (
    record { state = s'; held = permit ∷ v.held },
    ap (λ t. some (spawned v.held (t.0, permit_of t.1))) e,
    next r (admit v peer s' permit e),
  )
  | inr (inl (e, full)) ↦ (
    record { state = v.state; held = v.held },
    ap (λ t. some (spawned v.held (t.0, permit_of t.1))) e,
    next r (reject v peer v.state _ e),
  )
  | inr (inr (e, full)) ↦ (
    record { state = v.state; held = v.held },
    ap (λ t. some (spawned v.held (t.0, permit_of t.1))) e,
    next r (reject v peer v.state _ e),
  )
]

end_task-Reach :
    (s : State) (before : List StreamPermit) (n : ℕ) (after : List StreamPermit)
    → Reach (record { state = s; held = before ++ after })
    → Goes (end_task s before n after)
unfolding end_task
end_task-Reach s before n [] r = (_, refl, r)
end_task-Reach s before zero (permit ∷ after) r =
    let (s', d, less) = Reach-drop _ before permit after r refl in
    (
      record { state = s'; held = before ++ after },
      rw d refl,
      next r (release s s' before permit after d),
    )
end_task-Reach s before (suc n) (permit ∷ after) r =
    end_task-Reach s (before ++ permit ∷ []) n after (
      subst (λ l. Reach (record { state = s; held = l }))
        (sym (append_assoc before (permit ∷ []) after)) r)

turn-Reach : (v : Serving) (e : Incoming) → Reach v → Goes (serve_turn v e)
unfolding serve_turn
turn-Reach v (arrives peer) r = arrives-Reach v peer r
turn-Reach v (finishes n) r = end_task-Reach v.state [] n v.held r

serve-Reach : (es : List Incoming) (v : Serving) → Reach v → Goes (serve es v)
unfolding serve
serve-Reach [] v r = (v, refl, r)
serve-Reach (e ∷ es) v r =
    let (w, eq, reached) = turn-Reach v e r in
    let (u, eq', end) = serve-Reach es w reached in (u, rw (eq, serve) eq', end)

-- Whatever streams come in and tasks end, in any order: the loop never stops on an overflow, at
-- most 64 streams have a task, and at most 8 of them are of one peer.
pub serve-limits :
    (es : List Incoming)
    → (w : Serving) × (serve es start ≡ some w)
      × (length w.held ≤ max_inbound_streams)
      × ((q : PeerId) → count q w.held ≤ max_inbound_streams_per_peer)
serve-limits es =
    let (w, eq, r) = serve-Reach es start begin in
    let v = Reach-Inv r in
    (w, eq, omega (arith, v.total, v.node_limit), λ q. omega (arith, v.counts q, v.peer_limit q))
