-- ===== src/Tests/Framing.antt =====
-- rust/fhs/src/p2p/framing.rs on concrete inputs, with a budget that always has room and a
-- semaphore that counts.
use galax_ia_sdk.Prelude.{
  ℕ, ◌==◌, ◌+◌, ◌-◌, ◌≤◌, ◌≡◌, refl, Option, none, some, List, [], ◌∷◌, leb, if◌then◌else◌, arith,
}
use galax_ia_sdk.Prelude.Result.{Result, ok, err}
use galax_ia_sdk.Framing.{
  FrameError, too_many_invalid, bad_length, eof, byte, varint_loop, read_varint, read_frame,
  read_verified, max_invalid_frames,
}
use galax_ia_sdk.Framing.Varint.{feed}
use galax_ia_sdk.Framing.Frames.{
  frame, frames, read_frame-frame, Grants, read_verified_skips, read_verified_closes, Verified,
  read_verified_sound,
}
use galax_ia_sdk.Framing.Budget.{
  Semaphore, Shared, start, attempt, attempt_units, units, granted, decode_budget_bytes,
  max_budget_waiters,
}
use galax_ia_sdk.Framing.Budget.Tasks.{
  Tasks, Streams, begin, next, enter_granted, holding, total, memory, pending,
}
use galax_ia_sdk.Framing.Budget.Bound.{Streams-memory}

-- A tenth byte whose bits do not fit a u64 is taken, and its bits are lost.
truncated_run :
    read_varint (feed (128 ∷ 128 ∷ 128 ∷ 128 ∷ 128 ∷ 128 ∷ 128 ∷ 128 ∷ 128 ∷ 2 ∷ []) eof)
    ≡ ok (some 0, eof)
unfolding read_varint varint_loop
truncated_run = refl

eleven_run :
    read_varint (feed (128 ∷ 128 ∷ 128 ∷ 128 ∷ 128 ∷ 128 ∷ 128 ∷ 128 ∷ 128 ∷ 128 ∷ 1 ∷ []) eof)
    ≡ err bad_length
unfolding read_varint varint_loop
eleven_run = refl

abbrev roomy : ℕ → Result ℕ FrameError
roomy len = ok 1

read_frame-frame_example :
    read_frame roomy (feed (frame (8 ∷ 9 ∷ [])) (byte 1 eof))
    ≡ ok (some (8 ∷ 9 ∷ [], 1), byte 1 eof)
read_frame-frame_example = read_frame-frame roomy (8 ∷ 9 ∷ []) 1 (byte 1 eof) (omega arith) refl

-- An Envelope whose bytes begin with 1 has a good signature.
abbrev verify : List ℕ → Result (Option ℕ) ℕ
verify [] = err 3
verify (b ∷ bs) = if b == 1 then ok (some 5) else ok none

abbrev always : ℕ → ℕ → Result ℕ FrameError
always round len = ok 1

always-Grants : Grants always verify
always-Grants round len fits = (1, refl)

abbrev bad : List ℕ
bad = 2 ∷ 7 ∷ []

abbrev good : List ℕ
good = 1 ∷ 7 ∷ []

skips_run :
    read_verified always verify (feed (frames (bad ∷ bad ∷ [])) (feed (frame good) (byte 4 eof)))
    ≡ ok (some 5, byte 4 eof)
skips_run =
    read_verified_skips always verify (bad ∷ bad ∷ []) good 5 (byte 4 eof) always-Grants
      ((omega arith, refl), ((omega arith, refl), tt)) (omega arith) (omega arith) refl

read_verified_closes_example :
    read_verified always verify
      (feed (frames (bad ∷ bad ∷ bad ∷ bad ∷ bad ∷ [])) (feed (frame good) eof))
    ≡ err (too_many_invalid max_invalid_frames)
read_verified_closes_example =
    read_verified_closes always verify (bad ∷ bad ∷ bad ∷ bad ∷ bad ∷ []) (feed (frame good) eof)
      always-Grants
      (
        (omega arith, refl),
        (
          (omega arith, refl),
          ((omega arith, refl), ((omega arith, refl), ((omega arith, refl), tt))),
        ),
      )
      refl

read_verified_sound_example :
    Verified always verify 5 0 5
      (byte 4 eof)
      (feed (frames (bad ∷ bad ∷ [])) (feed (frame good) (byte 4 eof)))
read_verified_sound_example =
    read_verified_sound always verify
      (feed (frames (bad ∷ bad ∷ [])) (feed (frame good) (byte 4 eof))) (byte 4 eof) 5 skips_run

abbrev try_take : ℕ → ℕ → Option ℕ
try_take s n = if leb n s then some (s - n) else none

counting_takes : (s s' n : ℕ) → try_take s n ≡ some s' → s' + n ≡ s
counting_takes s s' n h = ground arith

abbrev counting : Semaphore
counting = record {
  State = ℕ;
  available = λ s. s;
  new = λ n. n;
  try_acquire_many = try_take;
  release = λ s n. s + n;
  available-new = λ n. refl;
  acquire_takes = counting_takes;
  release_gives = λ s n. refl;
}

abbrev after : Shared counting
after = record { budget = 131072 - 2; waiters = 0 }

abbrev one_frame : Tasks counting
one_frame = record { shared = after; tasks = holding 1000 ∷ [] }

attempt_run : attempt counting (start counting) 1000 ≡ (after, granted 2)
unfolding attempt attempt_units units start
attempt_run = refl

one_frame-Streams : Streams counting one_frame
one_frame-Streams = next begin (enter_granted (start counting) after [] 1000 2 attempt_run)

Streams-memory_example :
    (total memory one_frame.tasks ≤ decode_budget_bytes)
    × (total pending one_frame.tasks ≤ max_budget_waiters)
Streams-memory_example = Streams-memory counting one_frame one_frame-Streams
