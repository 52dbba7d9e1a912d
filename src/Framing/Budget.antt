-- ===== src/Framing/Budget.antt =====
-- `reserve` of framing.rs: the decode budget, a semaphore of KiB, and the counter of the frames
-- that wait for it. The semaphore is tokio's: a parameter, with the laws that the code relies on.
pub mod Tasks
pub mod Bound
use galax_ia_sdk.Prelude.{
  ℕ, ◌+◌, ◌-◌, ◌*◌, ◌/◌, ◌^◌, ◌≡◌, Option, none, some, Bool, max, ltb, leb, if◌then◌else◌,
}
use galax_ia_sdk.Prelude.Result.{Result, ok, err, ◌>>=◌}
use galax_ia_sdk.Framing.{FrameError, too_large, overloaded}

abbrev pub decode_budget_bytes : ℕ
decode_budget_bytes = 128 * 1024 * 1024

abbrev pub budget_unit : ℕ
budget_unit = 1024

abbrev pub max_budget_waiters : ℕ
max_budget_waiters = 16

-- What `reserve` uses of `tokio::sync::Semaphore`. A permit that is dropped gives its units back.
pub record Semaphore : Type 1 where
  pub State : Type 0
  pub available : State → ℕ
  pub new : ℕ → State
  pub try_acquire_many : State → ℕ → Option State
  pub release : State → ℕ → State
  pub available-new : (n : ℕ) → available (new n) ≡ n
  pub acquire_takes :
      (s s' : State) (n : ℕ) → try_acquire_many s n ≡ some s' → available s' + n ≡ available s
  pub release_gives : (s : State) (n : ℕ) → available (release s n) ≡ available s + n

-- `(2 * len).div_ceil(BUDGET_UNIT).max(1)`, which has to fit a u32
abbrev pub units_of : ℕ → ℕ
units_of len = max ((2 * len + (budget_unit - 1)) / budget_unit) 1

unfoldable pub units : ℕ → Result ℕ FrameError
units len = if ltb (units_of len) (2 ^ 32) then ok (units_of len) else err (too_large len)

-- What the first half of `reserve`, up to the wait, comes to.
pub data Attempt : Type 0 where
  granted : ℕ → Attempt
  refused : FrameError → Attempt
  -- over the limit of waiters: the counter is still one too high
  backing_out : FrameError → Attempt
  waits : ℕ → Attempt

module _ (sem : Semaphore) where
  -- the static `BUDGET` and `WAITERS`
  pub record Shared : Type 0 where
    pub budget : sem.State
    pub waiters : ℕ

  unfoldable pub start : Shared
  start = record { budget = sem.new (decode_budget_bytes / budget_unit); waiters = 0 }

  -- up to `WAITERS.fetch_add(1)`, whose result is the counter before
  unfoldable pub attempt_units : Shared → ℕ → ℕ → Shared × Attempt
  attempt_units s len n = elim (sem.try_acquire_many s.budget n) [
    | some budget ↦ (record { budget = budget; waiters = s.waiters }, granted n)
    | none ↦ (
      record { budget = s.budget; waiters = s.waiters + 1 },
      if leb max_budget_waiters s.waiters then backing_out (overloaded len) else waits n,
    )
  ]

  unfoldable pub attempt : Shared → ℕ → Shared × Attempt
  unfolding units attempt_units
  attempt s len = elim (units len) [ ok n ↦ attempt_units s len n | err e ↦ (s, refused e) ]

  -- `WAITERS.fetch_sub(1)`
  unfoldable pub leave : Shared → Shared
  leave s = record { budget = s.budget; waiters = s.waiters - 1 }

  -- `BUDGET.acquire_many(units).await` that is served in time
  unfoldable pub acquire : Shared → ℕ → Option Shared
  acquire s n = elim (sem.try_acquire_many s.budget n) [
    | some budget ↦ some (record { budget = budget; waiters = s.waiters })
    | none ↦ none
  ]

  -- the permit of a frame goes out of scope
  unfoldable pub give_back : Shared → ℕ → Shared
  give_back s n = record { budget = sem.release s.budget n; waiters = s.waiters }
