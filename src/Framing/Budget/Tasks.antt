-- ===== src/Framing/Budget/Tasks.antt =====
-- The streams that call `reserve`, under any interleaving: each atomic operation on the semaphore and
-- on the counter is a step of its own.
use galax_ia_sdk.Prelude.{ℕ, ◌+◌, ◌*◌, ◌/◌, ◌≤◌, ◌≡◌, some, List, [], ◌∷◌, ◌++◌}
use galax_ia_sdk.Framing.{FrameError}
use galax_ia_sdk.Framing.Budget.{
  Semaphore, Shared, granted, refused, backing_out, waits, units_of, start, attempt, leave, acquire,
  give_back, decode_budget_bytes, budget_unit, max_budget_waiters,
}

-- Where a call of `reserve` for a frame of some length stands.
pub data Task : Type 0 where
  -- counted, about to leave the counter again
  backing : ℕ → Task
  -- in the wait for the semaphore
  waiting : ℕ → Task
  -- has its permit, still counted
  served : ℕ → Task
  -- its time ran out, still counted
  late : ℕ → Task
  -- reads, verifies and decodes its frame
  holding : ℕ → Task

abbrev pub counted : Task → ℕ
counted (holding len) = 0
counted (backing len) = 1
counted (waiting len) = 1
counted (served len) = 1
counted (late len) = 1

abbrev pub pending : Task → ℕ
pending (waiting len) = 1
pending (served len) = 1
pending (late len) = 1
pending (backing len) = 0
pending (holding len) = 0

-- units of the budget that the task has
abbrev pub held : Task → ℕ
held (served len) = units_of len
held (holding len) = units_of len
held (backing len) = 0
held (waiting len) = 0
held (late len) = 0

-- memory of a frame and of its decoded copy
abbrev pub memory : Task → ℕ
memory (served len) = 2 * len
memory (holding len) = 2 * len
memory (backing len) = 0
memory (waiting len) = 0
memory (late len) = 0

unfoldable pub total : (Task → ℕ) → List Task → ℕ
total f [] = 0
total f (t ∷ ts) = f t + total f ts

module _ (sem : Semaphore) where
  pub record Tasks : Type 0 where
    pub shared : Shared sem
    pub tasks : List Task

  pub data TaskStep : Tasks → Tasks → Type 0 where
    enter_granted :
        (s s' : Shared sem) (ts : List Task) (len n : ℕ)
        → attempt sem s len ≡ (s', granted n)
        → TaskStep
            (record { shared = s; tasks = ts })
            (record { shared = s'; tasks = holding len ∷ ts })
    enter_refused :
        (s s' : Shared sem) (ts : List Task) (len : ℕ) (e : FrameError)
        → attempt sem s len ≡ (s', refused e)
        → TaskStep (record { shared = s; tasks = ts }) (record { shared = s'; tasks = ts })
    enter_backing :
        (s s' : Shared sem) (ts : List Task) (len : ℕ) (e : FrameError)
        → attempt sem s len ≡ (s', backing_out e)
        → TaskStep
            (record { shared = s; tasks = ts })
            (record { shared = s'; tasks = backing len ∷ ts })
    enter_waits :
        (s s' : Shared sem) (ts : List Task) (len n : ℕ)
        → attempt sem s len ≡ (s', waits n)
        → TaskStep
            (record { shared = s; tasks = ts })
            (record { shared = s'; tasks = waiting len ∷ ts })
    back_out :
        (s : Shared sem) (xs ys : List Task) (len : ℕ)
        → TaskStep
            (record { shared = s; tasks = xs ++ backing len ∷ ys })
            (record { shared = leave sem s; tasks = xs ++ ys })
    serve :
        (s s' : Shared sem) (xs ys : List Task) (len : ℕ)
        → acquire sem s (units_of len) ≡ some s'
        → TaskStep
            (record { shared = s; tasks = xs ++ waiting len ∷ ys })
            (record { shared = s'; tasks = xs ++ served len ∷ ys })
    time_out :
        (s : Shared sem) (xs ys : List Task) (len : ℕ)
        → TaskStep
            (record { shared = s; tasks = xs ++ waiting len ∷ ys })
            (record { shared = s; tasks = xs ++ late len ∷ ys })
    uncount_served :
        (s : Shared sem) (xs ys : List Task) (len : ℕ)
        → TaskStep
            (record { shared = s; tasks = xs ++ served len ∷ ys })
            (record { shared = leave sem s; tasks = xs ++ holding len ∷ ys })
    uncount_late :
        (s : Shared sem) (xs ys : List Task) (len : ℕ)
        → TaskStep
            (record { shared = s; tasks = xs ++ late len ∷ ys })
            (record { shared = leave sem s; tasks = xs ++ ys })
    finish :
        (s : Shared sem) (xs ys : List Task) (len : ℕ)
        → TaskStep
            (record { shared = s; tasks = xs ++ holding len ∷ ys })
            (record { shared = give_back sem s (units_of len); tasks = xs ++ ys })

  pub data Streams : Tasks → Type 0 where
    begin : Streams (record { shared = start sem; tasks = [] })
    next : {n m : Tasks} → Streams n → TaskStep n m → Streams m

  pub record TaskInv (n : Tasks) : Type 0 where
    pub counter : n.shared.waiters ≡ total counted n.tasks
    pub few : total pending n.tasks ≤ max_budget_waiters
    pub conserved :
        sem.available n.shared.budget + total held n.tasks ≡ decode_budget_bytes / budget_unit
