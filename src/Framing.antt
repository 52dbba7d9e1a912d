-- ===== src/Framing.antt =====
-- rust/fhs/src/p2p/framing.rs: frames of the `/fhs/v1/0.1.0` stream, a varint length and then the
-- bytes of an Envelope. A stream is the bytes that are still to be read, and how it ends. The
-- target has 64-bit `usize`. The decode budget is in Framing/Budget.
pub mod Varint
pub mod Frames
pub mod Budget
use Prim.Native.Nat.{bit_and, bit_or}
use galax_ia_sdk.Prelude.{
  ℕ, zero, suc, ◌+◌, ◌-◌, ◌*◌, ◌/◌, ◌%◌, ◌^◌, Option, none, some, List, [], ◌∷◌, ◌++◌, length, ltb,
  leb, ◌==◌, if◌then◌else◌,
}
use galax_ia_sdk.Prelude.Result.{Result, ok, err, ◌>>=◌}

abbrev pub max_frame_bytes : ℕ
max_frame_bytes = 33 * 1024 * 1024

abbrev pub max_invalid_frames : ℕ
max_invalid_frames = 5

-- The numbers in `io` and `decode` stand for the errors of the stream and of the decoder.
-- `out_of_rounds` is of the model only: the loop of `read_verified` has rounds left whenever it ends.
pub data FrameError : Type 0 where
  io : ℕ → FrameError
  too_large : ℕ → FrameError
  bad_length : FrameError
  decode : ℕ → FrameError
  overloaded : ℕ → FrameError
  too_many_invalid : ℕ → FrameError
  out_of_rounds : FrameError

pub data Stream : Type 0 where
  eof : Stream
  broken : ℕ → Stream
  byte : ℕ → Stream → Stream

-- `read_exact` past the end is an I/O error.
abbrev pub unexpected_eof : ℕ
unexpected_eof = 0

-- One round of the loop for each shift 0, 7, ..., 63; a u64 keeps the low 64 bits of a shift.
unfoldable pub varint_loop : ℕ → ℕ → ℕ → Stream → Result (Option ℕ × Stream) FrameError
varint_loop zero shift value s = err bad_length
varint_loop (suc rounds) shift value eof = if shift == 0 then ok (none, eof) else err bad_length
varint_loop (suc rounds) shift value (broken e) = err (io e)
varint_loop (suc rounds) shift value (byte b rest) =
    let value' = bit_or value (bit_and b 0x7f * 2 ^ shift % 2 ^ 64) in
    let more = varint_loop rounds (shift + 7) value' rest in
    if bit_and b 0x80 == 0 then ok (some value', rest) else more

unfoldable pub read_varint : Stream → Result (Option ℕ × Stream) FrameError
unfolding varint_loop
read_varint s = varint_loop 10 0 0 s

-- the `varint` of the tests: the writer's side, with fuel for the ten bytes of a u64
unfoldable pub varint : ℕ → ℕ → List ℕ
varint zero value = []
varint (suc fuel) value =
    let byte = bit_and value 0x7f in
    let rest = varint fuel (value / 128) in
    if value / 128 == 0 then byte ∷ [] else bit_or byte 0x80 ∷ rest

unfoldable pub read_exact : ℕ → Stream → Result (List ℕ × Stream) FrameError
read_exact zero s = ok ([], s)
read_exact (suc n) eof = err (io unexpected_eof)
read_exact (suc n) (broken e) = err (io e)
read_exact (suc n) (byte b rest) = do (bs, rest') ← read_exact n rest; ok (b ∷ bs, rest')

-- The call of `reserve` is an argument: what the budget answers to a length. The permit that it
-- gives is its number of units.
module _ (reserve : ℕ → Result ℕ FrameError) where
  abbrev pub frame_body : Option ℕ × Stream → Result (Option (List ℕ × ℕ) × Stream) FrameError
  frame_body (none, s) = ok (none, s)
  frame_body (some len, s) =
      if ltb max_frame_bytes len
      then err (too_large len)
      else do permit ← reserve len; (buf, rest) ← read_exact len s; ok (some (buf, permit), rest)

  unfoldable pub read_frame : Stream → Result (Option (List ℕ × ℕ) × Stream) FrameError
  read_frame s = read_varint s >>= frame_body

-- `#[from] prost::DecodeError`
abbrev pub decoded : {A : Type 0} → Result A ℕ → Result A FrameError
decoded (ok a) = ok a
decoded (err e) = err (decode e)

-- `verify` is `signing::verify_envelope_bytes`; the loop of `read_verified` runs at most
-- `max_invalid_frames` rounds, since each round that does not return counts an invalid frame.
module _ {Envelope : Type 0} (reserve : ℕ → ℕ → Result ℕ FrameError)
    (verify : List ℕ → Result (Option Envelope) ℕ) where
  abbrev pub judged :
      ℕ
      → Result (Option Envelope × Stream) FrameError
      → Stream
      → Option Envelope
      → Result (Option Envelope × Stream) FrameError
  judged invalid more s (some envelope) = ok (some envelope, s)
  judged invalid more s none =
      if leb max_invalid_frames (invalid + 1) then err (too_many_invalid (invalid + 1)) else more

  abbrev pub received :
      ℕ
      → (Stream → Result (Option Envelope × Stream) FrameError)
      → Result (Option (List ℕ × ℕ) × Stream) FrameError
      → Result (Option Envelope × Stream) FrameError
  received invalid more (err e) = err e
  received invalid more (ok (none, s)) = ok (none, s)
  received invalid more (ok (some (bytes, permit), s)) = do
    verdict ← decoded (verify bytes)
    judged invalid (more s) s verdict

  unfoldable pub verified_loop : ℕ → ℕ → Stream → Result (Option Envelope × Stream) FrameError
  verified_loop zero invalid s = err out_of_rounds
  verified_loop (suc rounds) invalid s =
      received invalid (verified_loop rounds (invalid + 1)) (read_frame (reserve invalid) s)

  unfoldable pub read_verified : Stream → Result (Option Envelope × Stream) FrameError
  unfolding verified_loop
  read_verified s = verified_loop max_invalid_frames 0 s
