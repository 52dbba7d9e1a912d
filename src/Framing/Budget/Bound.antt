-- ===== src/Framing/Budget/Bound.antt =====
-- What holds in every state that the streams can reach with the decode budget.
use galax_ia_sdk.Prelude.{
  ℕ, ◌+◌, ◌*◌, ◌/◌, ◌≤◌, ◌<◌, ◌≡◌, refl, ap, some, List, [], ◌∷◌, ◌++◌, arith,
}
use galax_ia_sdk.Prelude.Result.{ok}
use galax_ia_sdk.Framing.{FrameError, max_frame_bytes}
use galax_ia_sdk.Framing.Budget.{
  Semaphore, Shared, granted, refused, backing_out, waits, units_of, units, start, attempt,
  attempt_units, leave, acquire, give_back, decode_budget_bytes, budget_unit, max_budget_waiters,
}
use galax_ia_sdk.Framing.Budget.Tasks.{
  Task, backing, waiting, served, late, holding, counted, pending, held, memory, total, Tasks,
  TaskStep, enter_granted, enter_refused, enter_backing, enter_waits, back_out, serve, time_out,
  uncount_served, uncount_late, finish, Streams, begin, next, TaskInv,
}

total-middle :
    (f : Task → ℕ) (xs : List Task) (t : Task) (ys : List Task)
    → total f (xs ++ t ∷ ys) ≡ f t + total f (xs ++ ys)
unfolding total
total-middle f [] t ys = refl
total-middle f (x ∷ xs) t ys = omega (arith, total-middle f xs t ys)

middles :
    (f : Task → ℕ) (xs : List Task) (t u : Task) (ys : List Task)
    → total f (xs ++ t ∷ ys) + f u ≡ total f (xs ++ u ∷ ys) + f t
middles f xs t u ys = omega (arith, total-middle f xs t ys, total-middle f xs u ys)

pending-le-counted : (ts : List Task) → total pending ts ≤ total counted ts
unfolding total
pending-le-counted [] = omega arith
pending-le-counted (t ∷ ts) = ground (arith, pending-le-counted ts)

memory-le-held : (ts : List Task) → total memory ts ≤ 1024 * total held ts
unfolding total
memory-le-held [] = omega arith
memory-le-held (t ∷ ts) = ground (arith, memory-le-held ts)

module _ (sem : Semaphore) where
  start-TaskInv : TaskInv sem (record { shared = start sem; tasks = [] })
  unfolding start total
  start-TaskInv = record {
    counter = refl;
    few = omega arith;
    conserved = omega (arith, sem.available-new (decode_budget_bytes / budget_unit));
  }

  -- What `attempt` does to the counters, for each verdict.
  module _ (s s' : Shared sem) (len : ℕ) where
    attempt-granted :
        (n : ℕ)
        → attempt sem s len ≡ (s', granted n)
        → (sem.available s'.budget + units_of len ≡ sem.available s.budget)
          × (s'.waiters ≡ s.waiters)
    unfolding attempt units attempt_units
    attempt-granted n h =
        (ground (arith, sem.acquire_takes s.budget s'.budget (units_of len)), ground arith)

    attempt-refused :
        (e : FrameError)
        → attempt sem s len ≡ (s', refused e)
        → (s'.budget ≡ s.budget) × (s'.waiters ≡ s.waiters)
    unfolding attempt units attempt_units
    attempt-refused e h = (ground arith, ground arith)

    attempt-backing_out :
        (e : FrameError)
        → attempt sem s len ≡ (s', backing_out e)
        → (s'.budget ≡ s.budget) × (s'.waiters ≡ s.waiters + 1)
    unfolding attempt units attempt_units
    attempt-backing_out e h = (ground arith, ground arith)

    attempt-waits :
        (n : ℕ)
        → attempt sem s len ≡ (s', waits n)
        → (s'.budget ≡ s.budget) × (s'.waiters ≡ s.waiters + 1) × (s.waiters < max_budget_waiters)
    unfolding attempt units attempt_units
    attempt-waits n h = (ground arith, ground arith, ground arith)

    acquire-takes :
        (n : ℕ)
        → acquire sem s n ≡ some s'
        → (sem.available s'.budget + n ≡ sem.available s.budget) × (s'.waiters ≡ s.waiters)
    unfolding acquire
    acquire-takes n h = (ground (arith, sem.acquire_takes s.budget s'.budget n), ground arith)

  pub TaskStep-TaskInv : {n m : Tasks sem} → TaskStep sem n m → TaskInv sem n → TaskInv sem m
  unfolding total leave give_back
  TaskStep-TaskInv (enter_granted s s' ts len n h) v =
      let (a, w) = attempt-granted s s' len n h in
      record {
        counter = omega (arith, v.counter);
        few = omega (arith, v.few);
        conserved = omega (arith, v.conserved);
      }
  TaskStep-TaskInv (enter_refused s s' ts len e h) v =
      let (a, w) = attempt-refused s s' len e h in
      record {
        counter = omega (arith, v.counter);
        few = omega (arith, v.few);
        conserved = omega (arith, v.conserved, ap sem.available a);
      }
  TaskStep-TaskInv (enter_backing s s' ts len e h) v =
      let (a, w) = attempt-backing_out s s' len e h in
      record {
        counter = omega (arith, v.counter);
        few = omega (arith, v.few);
        conserved = omega (arith, v.conserved, ap sem.available a);
      }
  TaskStep-TaskInv (enter_waits s s' ts len n h) v =
      let (a, w, room) = attempt-waits s s' len n h in
      record {
        counter = omega (arith, v.counter);
        few = omega (arith, v.counter, pending-le-counted ts);
        conserved = omega (arith, v.conserved, ap sem.available a);
      }
  TaskStep-TaskInv (back_out s xs ys len) v = record {
    counter = omega (arith, v.counter, total-middle counted xs (backing len) ys);
    few = omega (arith, v.few, total-middle pending xs (backing len) ys);
    conserved = omega (arith, v.conserved, total-middle held xs (backing len) ys);
  }
  TaskStep-TaskInv (serve s s' xs ys len h) v =
      let (a, w) = acquire-takes s s' len (units_of len) h in
      record {
        counter = omega (arith, v.counter, middles counted xs (waiting len) (served len) ys);
        few = omega (arith, v.few, middles pending xs (waiting len) (served len) ys);
        conserved = omega (arith, v.conserved, middles held xs (waiting len) (served len) ys);
      }
  TaskStep-TaskInv (time_out s xs ys len) v = record {
    counter = omega (arith, v.counter, middles counted xs (waiting len) (late len) ys);
    few = omega (arith, v.few, middles pending xs (waiting len) (late len) ys);
    conserved = omega (arith, v.conserved, middles held xs (waiting len) (late len) ys);
  }
  TaskStep-TaskInv (uncount_served s xs ys len) v = record {
    counter = omega (arith, v.counter, middles counted xs (served len) (holding len) ys);
    few = omega (arith, v.few, middles pending xs (served len) (holding len) ys);
    conserved = omega (arith, v.conserved, middles held xs (served len) (holding len) ys);
  }
  TaskStep-TaskInv (uncount_late s xs ys len) v = record {
    counter = omega (arith, v.counter, total-middle counted xs (late len) ys);
    few = omega (arith, v.few, total-middle pending xs (late len) ys);
    conserved = omega (arith, v.conserved, total-middle held xs (late len) ys);
  }
  TaskStep-TaskInv (finish s xs ys len) v = record {
    counter = omega (arith, v.counter, total-middle counted xs (holding len) ys);
    few = omega (arith, v.few, total-middle pending xs (holding len) ys);
    conserved = omega (
      arith,
      v.conserved,
      total-middle held xs (holding len) ys,
      sem.release_gives s.budget (units_of len),
    );
  }

  -- For a semaphore that keeps its laws and any interleaving of the streams, the waiter counter
  -- is the number of calls between their increment and their decrement, at most 16 calls wait or
  -- are about to leave the wait, and the free units and those that are held make up the whole
  -- budget.
  pub Streams-TaskInv : {n : Tasks sem} → Streams sem n → TaskInv sem n
  Streams-TaskInv begin = start-TaskInv
  Streams-TaskInv (next r s) = TaskStep-TaskInv s (Streams-TaskInv r)

  -- For a semaphore that keeps its laws and any interleaving of the streams, the frames that are
  -- being decoded take with their decoded copies at most 128 MiB together, and at most 16 calls
  -- wait for the budget or are about to leave the wait.
  pub Streams-memory :
      (n : Tasks sem)
      → Streams sem n
      → (total memory n.tasks ≤ decode_budget_bytes) × (total pending n.tasks ≤ max_budget_waiters)
  Streams-memory n r =
      let v = Streams-TaskInv r in (omega (arith, v.conserved, memory-le-held n.tasks), v.few)

-- A frame within 33 MiB asks for a number of units that fits a u32, is at most the whole budget,
-- and covers twice its length.
pub units_enough :
    (len : ℕ)
    → len ≤ max_frame_bytes
    → (units len ≡ ok (units_of len))
      × (units_of len ≤ decode_budget_bytes / budget_unit)
      × (2 * len ≤ budget_unit * units_of len)
unfolding units
units_enough len h = (ground arith, omega arith, omega arith)
