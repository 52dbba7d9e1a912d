-- ===== src/Framing/Varint.antt =====
-- The varint length prefix: what the reader accepts, and the round trip with the writer.
use Prim.Native.Nat.{bit_and, bit_or}
use galax_ia_sdk.Prelude.{
  ℕ, zero, suc, ◌+◌, ◌*◌, ◌/◌, ◌%◌, ◌^◌, ◌≤◌, ◌<◌, ◌≡◌, ap, ◌∙◌, some, List, [], ◌∷◌, arith, length,
  ◌==◌, false, ==_iff, Bool-cases, inl, inr,
}
use galax_ia_sdk.Prelude.Bits.{or-disjoint, pow_add_seven, low_seven_bits, high_bit, set_high_bit}
use galax_ia_sdk.Prelude.Result.{ok}
use galax_ia_sdk.Framing.{Stream, eof, broken, byte, varint_loop, read_varint, varint}

-- a stream that begins with some bytes
abbrev pub feed : List ℕ → Stream → Stream
feed [] s = s
feed (b ∷ bs) s = byte b (feed bs s)

-- The new value of the loop is a sum while the whole number fits a u64.
add_group :
    (shift acc r : ℕ)
    → acc < 2 ^ shift
    → r * 2 ^ shift < 2 ^ 64
    → bit_or acc (r * 2 ^ shift % 2 ^ 64) ≡ acc + r * 2 ^ shift
add_group shift acc r h fits =
    let e : r * 2 ^ shift % 2 ^ 64 ≡ r * 2 ^ shift = omega arith in
    ap (bit_or acc) e ∙ or-disjoint shift acc r h

pow_groups : (n : ℕ) → 2 ^ (7 * suc n) ≡ 128 * 2 ^ (7 * n)
pow_groups n =
    let e : 7 * suc n ≡ 7 * n + 7 = omega arith in ap (λ (k : ℕ). 2 ^ k) e ∙ pow_add_seven (7 * n)

-- The arithmetic of one round: seven bits are added, the rest goes on at the next shift.
module _ (shift acc v : ℕ) (ha : acc < 2 ^ shift) (hs : acc + v * 2 ^ shift < 2 ^ 64) where
  split_value : v ≡ v / 128 * 128 + v % 128
  split_value = omega arith

  split_product : v * 2 ^ shift ≡ v / 128 * 2 ^ (shift + 7) + v % 128 * 2 ^ shift
  split_product = omega (
    arith,
    ap (λ (t : ℕ). t * 2 ^ shift) split_value,
    ap (λ (t : ℕ). v / 128 * t) (pow_add_seven shift),
  )

  group_fits : v % 128 * 2 ^ shift < 2 ^ 64
  group_fits = omega (arith, split_product)

  next_acc : acc + v % 128 * 2 ^ shift < 2 ^ (shift + 7)
  next_acc = grind (arith, pow_add_seven shift)

  next_sum : acc + v % 128 * 2 ^ shift + v / 128 * 2 ^ (shift + 7) ≡ acc + v * 2 ^ shift
  next_sum = omega (arith, split_product)

rounds_left : (n v : ℕ) → v < 2 ^ (7 * suc n) → (v / 128 == 0) ≡ false → 0 < n
rounds_left zero v h more = absurd (ground arith)
rounds_left (suc n) v h more = omega arith

varint_loop-varint :
    (n shift acc v : ℕ) (rest : Stream)
    → v < 2 ^ (7 * n)
    → 0 < n
    → acc < 2 ^ shift
    → acc + v * 2 ^ shift < 2 ^ 64
    → varint_loop n shift acc (feed (varint n v) rest) ≡ ok (some (acc + v * 2 ^ shift), rest)
unfolding varint_loop varint
varint_loop-varint zero shift acc v rest hv hn ha hs = absurd (omega arith)
varint_loop-varint (suc n) shift acc v rest hv hn ha hs = elim (Bool-cases (v / 128 == 0)) [
  | inl last ↦
      let small : v / 128 ≡ 0 = (==_iff (v / 128) 0).0 last in
      let low : bit_and v 0x7f ≡ v = omega (arith, low_seven_bits v) in
      let high : bit_and v 0x80 ≡ 0 = omega (arith, high_bit v (omega arith)) in
      ground (arith, low, high, add_group shift acc v ha (omega arith))
  | inr more ↦
      let low : bit_and v 0x7f ≡ v % 128 = low_seven_bits v in
      let top : bit_or (v % 128) 0x80 ≡ v % 128 + 128 = set_high_bit (v % 128) (omega arith) in
      let group : bit_and (v % 128 + 128) 0x7f ≡ v % 128 =
        omega (arith, low_seven_bits (v % 128 + 128)) in
      let flag : bit_and (v % 128 + 128) 0x80 ≡ 128 =
        omega (arith, high_bit (v % 128 + 128) (omega arith)) in
      rw
        (
          more,
          low,
          top,
          group,
          flag,
          add_group shift acc (v % 128) ha (group_fits shift acc v ha hs),
        )
        (varint_loop-varint n (shift + 7) (acc + v % 128 * 2 ^ shift) (v / 128) rest
            (omega (arith, pow_groups n)) (rounds_left n v hv more) (next_acc shift acc v ha hs)
            (omega (arith, next_sum shift acc v ha hs))
          ∙ ap (λ (t : ℕ). ok (some t, rest)) (next_sum shift acc v ha hs))
]

-- The reader gets back every u64 that the writer sends as a varint, and stops right behind it.
pub read_varint-varint :
    (v : ℕ) (rest : Stream) → v < 2 ^ 64 → read_varint (feed (varint 10 v) rest) ≡ ok (some v, rest)
unfolding read_varint
read_varint-varint v rest h =
    varint_loop-varint 10 0 0 v rest (omega arith) (omega arith) (omega arith) (omega arith)
    ∙ ap (λ (t : ℕ). ok (some t, rest)) (omega arith)

-- What an accepted prefix is: one to ten bytes, and the stream goes on right behind them.
module _ (rest : Stream) (v : ℕ) where
  varint_loop_prefix :
      (n shift acc : ℕ) (s : Stream)
      → varint_loop n shift acc s ≡ ok (some v, rest)
      → (bs : List ℕ) × (s ≡ feed bs rest) × (0 < length bs) × (length bs ≤ n)
  unfolding varint_loop
  varint_loop_prefix zero shift acc s h = cc
  varint_loop_prefix (suc n) shift acc eof h = absurd (ground arith)
  varint_loop_prefix (suc n) shift acc (broken e) h = cc
  varint_loop_prefix (suc n) shift acc (byte b s) h = elim (Bool-cases (bit_and b 0x80 == 0)) [
    | inl last ↦ (b ∷ [], ground arith, omega arith, omega arith)
    | inr more ↦
        let (bs, e, pos, short) =
          varint_loop_prefix n (shift + 7) (bit_or acc (bit_and b 0x7f * 2 ^ shift % 2 ^ 64)) s
            (rw more at h) in
        (b ∷ bs, ap (byte b) e, omega arith, omega arith)
  ]
