-- ===== src/Node/Bootstrap.antt =====
-- `bootstrap_loop` of rust/fhs/src/p2p/node.rs: how long the node waits between its attempts to reach
-- a bootstrap, in seconds.
use galax_ia_sdk.Prelude.{
  ℕ, ◌+◌, ◌*◌, ◌≤◌, Bool, true, false, List, [], ◌∷◌, arith, ltb, if◌then◌else◌, All,
}

abbrev pub bootstrap_initial_backoff : ℕ
bootstrap_initial_backoff = 2

abbrev pub bootstrap_max_backoff : ℕ
bootstrap_max_backoff = 30

pub record Retry : Type 0 where
  pub backoff : ℕ
  pub attempt : ℕ
  pub connected_once : Bool

abbrev pub first_try : Retry
first_try = record { backoff = bootstrap_initial_backoff; attempt = 0; connected_once = false }

-- One turn of the loop: connected already, or a dial that succeeds or fails.
pub data Outcome : Type 0 where
  is_connected : Outcome
  dial_ok : Outcome
  dial_failed : Outcome

-- What a turn does outside: it sleeps, or it waits until the connection is lost, after it has told
-- of a connection that was made again.
pub data Turn : Type 0 where
  sleeps : ℕ → Turn
  waits : Bool → Turn

abbrev pub doubled : ℕ → ℕ
doubled backoff =
    if ltb bootstrap_max_backoff (backoff * 2) then bootstrap_max_backoff else backoff * 2

unfoldable pub bootstrap_turn : Retry → Outcome → Retry × Turn
bootstrap_turn r is_connected = (record r { attempt = r.attempt + 1 }, waits false)
bootstrap_turn r dial_ok = (
  record { backoff = bootstrap_initial_backoff; attempt = 0; connected_once = true },
  waits r.connected_once,
)
bootstrap_turn r dial_failed =
    (record r { backoff = doubled r.backoff; attempt = r.attempt + 1 }, sleeps r.backoff)

abbrev pub bootstrap_run : Retry → List Outcome → Retry × List Turn
bootstrap_run r [] = (r, [])
bootstrap_run r (o ∷ os) =
    let t = bootstrap_turn r o in let more = bootstrap_run t.0 os in (more.0, t.1 ∷ more.1)

-- A sleep lasts 2 to 30 seconds.
abbrev pub InBounds : Turn → Type 0
InBounds (sleeps s) = (bootstrap_initial_backoff ≤ s) × (s ≤ bootstrap_max_backoff)
InBounds (waits again) = Unit

run-bounds :
    (os : List Outcome) (r : Retry)
    → bootstrap_initial_backoff ≤ r.backoff
    → r.backoff ≤ bootstrap_max_backoff
    → All InBounds (bootstrap_run r os).1
unfolding bootstrap_turn
run-bounds [] r low high = tt
run-bounds (is_connected ∷ os) r low high = (tt, run-bounds os _ low high)
run-bounds (dial_ok ∷ os) r low high = (tt, run-bounds os _ (omega arith) (omega arith))
run-bounds (dial_failed ∷ os) r low high =
    ((low, high), run-bounds os _ (ground arith) (ground arith))

-- Whatever the dials come to, the loop sleeps at least 2 and at most 30 seconds after each failure.
pub bootstrap_run-bounds : (os : List Outcome) → All InBounds (bootstrap_run first_try os).1
bootstrap_run-bounds os = run-bounds os first_try (omega arith) (omega arith)
