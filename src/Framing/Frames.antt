-- ===== src/Framing/Frames.antt =====
-- Frames on a stream: what `read_frame` and `read_verified` get out of what a writer put in.
use galax_ia_sdk.Prelude.{
  ℕ, zero, suc, ◌+◌, ◌^◌, ◌≤◌, ◌<◌, ◌≡◌, refl, ap, ◌∙◌, Option, none, some, List, [], ◌∷◌, ◌++◌,
  arith, length, All, ltb, false, ◌⊎◌, inl, inr,
}
use galax_ia_sdk.Prelude.Result.{Result, ok, err, ◌>>=◌}
use galax_ia_sdk.Framing.{
  FrameError, too_large, too_many_invalid, Stream, byte, varint, read_exact, read_frame, decoded,
  judged, received, verified_loop, read_verified, max_frame_bytes, max_invalid_frames,
}
use galax_ia_sdk.Framing.Varint.{feed, read_varint-varint}

-- `encode_length_delimited_to_vec` around the bytes of an Envelope
abbrev pub frame : List ℕ → List ℕ
frame body = varint 10 (length body) ++ body

feed-append : (xs ys : List ℕ) (s : Stream) → feed (xs ++ ys) s ≡ feed xs (feed ys s)
feed-append [] ys s = refl
feed-append (x ∷ xs) ys s = ap (byte x) (feed-append xs ys s)

read_exact-feed :
    (body : List ℕ) (rest : Stream) → read_exact (length body) (feed body rest) ≡ ok (body, rest)
unfolding read_exact
read_exact-feed [] rest = refl
read_exact-feed (b ∷ bs) rest = rw (read_exact-feed bs rest)

not_too_large : {len : ℕ} → len ≤ max_frame_bytes → ltb max_frame_bytes len ≡ false
not_too_large h = ground arith

module _ (reserve : ℕ → Result ℕ FrameError) where
  -- A frame within 33 MiB that the budget grants comes back whole with its permit, and the
  -- stream goes on right behind it.
  pub read_frame-frame :
      (body : List ℕ) (permit : ℕ) (rest : Stream)
      → length body ≤ max_frame_bytes
      → reserve (length body) ≡ ok permit
      → read_frame reserve (feed (frame body) rest) ≡ ok (some (body, permit), rest)
  unfolding read_frame
  read_frame-frame body permit rest fits granted = rw (
    feed-append (varint 10 (length body)) body rest,
    read_varint-varint (length body) (feed body rest) (omega arith),
    not_too_large fits,
    granted,
    read_exact-feed body rest,
  )

  -- A length over 33 MiB that fits a u64 is refused on the prefix alone, whatever follows it and
  -- whatever the budget would answer.
  pub read_frame_too_large :
      (len : ℕ) (rest : Stream)
      → max_frame_bytes < len
      → len < 2 ^ 64
      → read_frame reserve (feed (varint 10 len) rest) ≡ err (too_large len)
  unfolding read_frame
  read_frame_too_large len rest big fits = rw (read_varint-varint len rest fits) (ground arith)

-- One frame behind another.
abbrev pub frames : List (List ℕ) → List ℕ
frames [] = []
frames (body ∷ more) = frame body ++ frames more

module _ {Envelope : Type 0} (reserve : ℕ → ℕ → Result ℕ FrameError)
    (verify : List ℕ → Result (Option Envelope) ℕ) where
  -- The budget has room for every frame that the protocol allows.
  abbrev pub Grants : Type 0
  Grants = (round len : ℕ) → len ≤ max_frame_bytes → (permit : ℕ) × (reserve round len ≡ ok permit)

  -- A frame that the protocol allows and whose signature is absent or wrong.
  abbrev pub IsForged : List ℕ → Type 0
  IsForged body = (length body ≤ max_frame_bytes) × (verify body ≡ ok none)

  loop_forged :
      (rounds invalid : ℕ) (body : List ℕ) (rest : Stream)
      → Grants
      → IsForged body
      → invalid + 1 < max_invalid_frames
      → verified_loop reserve verify (suc rounds) invalid (feed (frame body) rest)
        ≡ verified_loop reserve verify rounds (invalid + 1) rest
  unfolding verified_loop
  loop_forged rounds invalid body rest room (fits, bad) few =
      let (permit, granted) = room invalid (length body) fits in
      rw (read_frame-frame (reserve invalid) body permit rest fits granted, bad) (ground arith)

  loop_last :
      (rounds invalid : ℕ) (body : List ℕ) (rest : Stream)
      → Grants
      → IsForged body
      → invalid + 1 ≡ max_invalid_frames
      → verified_loop reserve verify (suc rounds) invalid (feed (frame body) rest)
        ≡ err (too_many_invalid max_invalid_frames)
  unfolding verified_loop
  loop_last rounds invalid body rest room (fits, bad) last =
      let (permit, granted) = room invalid (length body) fits in
      rw (read_frame-frame (reserve invalid) body permit rest fits granted, bad) (ground arith)

  loop_valid :
      (rounds invalid : ℕ) (body : List ℕ) (envelope : Envelope) (rest : Stream)
      → Grants
      → length body ≤ max_frame_bytes
      → verify body ≡ ok (some envelope)
      → verified_loop reserve verify (suc rounds) invalid (feed (frame body) rest)
        ≡ ok (some envelope, rest)
  unfolding verified_loop
  loop_valid rounds invalid body envelope rest room fits good =
      let (permit, granted) = room invalid (length body) fits in
      rw (read_frame-frame (reserve invalid) body permit rest fits granted, good)

  loop_skips :
      (rounds invalid : ℕ) (forged : List (List ℕ)) (body : List ℕ) (envelope : Envelope)
      (rest : Stream)
      → Grants
      → All IsForged forged
      → length forged + invalid < max_invalid_frames
      → length forged < rounds
      → length body ≤ max_frame_bytes
      → verify body ≡ ok (some envelope)
      → verified_loop reserve verify rounds invalid (feed (frames forged) (feed (frame body) rest))
        ≡ ok (some envelope, rest)
  loop_skips zero invalid forged body envelope rest room bad few enough fits good =
      absurd (omega arith)
  loop_skips (suc rounds) invalid [] body envelope rest room bad few enough fits good =
      loop_valid rounds invalid body envelope rest room fits good
  loop_skips (suc rounds) invalid (f ∷ fs) body envelope rest room (b, bad) few enough fits good =
      rw (feed-append (frame f) (frames fs) (feed (frame body) rest)) (
        loop_forged rounds invalid f _ room b (omega arith)
        ∙ loop_skips rounds (invalid + 1) fs body envelope rest room bad (omega arith) (omega arith)
            fits good)

  loop_closes :
      (rounds invalid : ℕ) (forged : List (List ℕ)) (rest : Stream)
      → Grants
      → All IsForged forged
      → length forged + invalid ≡ max_invalid_frames
      → 0 < length forged
      → length forged ≤ rounds
      → verified_loop reserve verify rounds invalid (feed (frames forged) rest)
        ≡ err (too_many_invalid max_invalid_frames)
  loop_closes rounds invalid [] rest room bad count pos enough = absurd (omega arith)
  loop_closes zero invalid (f ∷ fs) rest room bad count pos enough = absurd (omega arith)
  loop_closes (suc rounds) invalid (f ∷ []) rest room (b, bad) count pos enough =
      rw (feed-append (frame f) [] rest) (loop_last rounds invalid f rest room b (omega arith))
  loop_closes (suc rounds) invalid (f ∷ g ∷ fs) rest room (b, bad) count pos enough =
      rw (feed-append (frame f) (frames (g ∷ fs)) rest) (
        loop_forged rounds invalid f _ room b (omega arith)
        ∙ loop_closes rounds (invalid + 1) (g ∷ fs) rest room bad (omega arith) (omega arith)
            (omega arith))

  -- Fewer than five forged frames within 33 MiB in a row are skipped and the valid Envelope
  -- within 33 MiB behind them is returned, with the stream right behind it, when the budget
  -- grants every frame.
  pub read_verified_skips :
      (forged : List (List ℕ)) (body : List ℕ) (envelope : Envelope) (rest : Stream)
      → Grants
      → All IsForged forged
      → length forged < max_invalid_frames
      → length body ≤ max_frame_bytes
      → verify body ≡ ok (some envelope)
      → read_verified reserve verify (feed (frames forged) (feed (frame body) rest))
        ≡ ok (some envelope, rest)
  unfolding read_verified
  read_verified_skips forged body envelope rest room bad few fits good =
      loop_skips 5 0 forged body envelope rest room bad (omega arith) few fits good

  -- Five forged frames within 33 MiB in a row end the reader with an error, whatever stands
  -- behind them, when the budget grants every frame.
  pub read_verified_closes :
      (forged : List (List ℕ)) (rest : Stream)
      → Grants
      → All IsForged forged
      → length forged ≡ max_invalid_frames
      → read_verified reserve verify (feed (frames forged) rest)
        ≡ err (too_many_invalid max_invalid_frames)
  unfolding read_verified
  read_verified_closes forged rest room bad count =
      loop_closes 5 0 forged rest room bad (omega arith) (omega arith) (omega arith)

  -- `Verified n i envelope rest s`: of the next `n` frames of the stream `s`, the first that does
  -- not fail the signature check gives the Envelope, and `rest` stands right behind it; the
  -- budget is asked from its `i`-th answer on.
  abbrev pub Verified : ℕ → ℕ → Envelope → Stream → Stream → Type 0
  Verified zero i envelope rest s = ⊥
  Verified (suc n) i envelope rest s =
      (bytes : List ℕ) × (permit : ℕ) × (next : Stream) × (read_frame (reserve i) s
        ≡ ok (some (bytes, permit), next))
      × (((verify bytes ≡ ok (some envelope)) × (next ≡ rest))
          ⊎ ((verify bytes ≡ ok none) × Verified n (i + 1) envelope rest next))

  loop_sound :
      (rounds invalid : ℕ) (s rest : Stream) (envelope : Envelope)
      → verified_loop reserve verify rounds invalid s ≡ ok (some envelope, rest)
      → Verified rounds invalid envelope rest s
  unfolding verified_loop
  loop_sound zero invalid s rest envelope h = cc
  loop_sound (suc rounds) invalid s rest envelope h =
      split (read_frame (reserve invalid) s) refl h (loop_sound rounds (invalid + 1))
    where
      judge :
          (bytes : List ℕ) (permit : ℕ) (t : Stream) (v : Result (Option Envelope) ℕ)
          → read_frame (reserve invalid) s ≡ ok (some (bytes, permit), t)
          → verify bytes ≡ v
          → (decoded v
              >>= judged reserve verify invalid
                  (verified_loop reserve verify rounds (invalid + 1) t)
                  t)
            ≡ ok (some envelope, rest)
          → (verified_loop reserve verify rounds (invalid + 1) t ≡ ok (some envelope, rest)
              → Verified rounds (invalid + 1) envelope rest t)
          → Verified (suc rounds) invalid envelope rest s
      judge bytes permit t (err e) p q k again = cc
      judge bytes permit t (ok (some x)) p q k again =
          (bytes, permit, t, p, inl (ground arith, ground arith))
      judge bytes permit t (ok none) p q k again =
          (bytes, permit, t, p, inr (q, again (ground arith)))

      split :
          (r : Result (Option (List ℕ × ℕ) × Stream) FrameError)
          → read_frame (reserve invalid) s ≡ r
          → received reserve verify invalid (verified_loop reserve verify rounds (invalid + 1)) r
            ≡ ok (some envelope, rest)
          → ((t u : Stream) (x : Envelope)
              → verified_loop reserve verify rounds (invalid + 1) t ≡ ok (some x, u)
              → Verified rounds (invalid + 1) x u t)
          → Verified (suc rounds) invalid envelope rest s
      split (err e) p q again = cc
      split (ok (none, t)) p q again = absurd (ground arith)
      split (ok (some (bytes, permit), t)) p q again =
          judge bytes permit t (verify bytes) p refl q (again t rest envelope)

  -- An Envelope that the verified reader returns from a stream is that of the first of its next
  -- five frames that does not fail the signature check, the frames before it failed the check,
  -- and the stream goes on right behind that frame.
  pub read_verified_sound :
      (s rest : Stream) (envelope : Envelope)
      → read_verified reserve verify s ≡ ok (some envelope, rest)
      → Verified max_invalid_frames 0 envelope rest s
  unfolding read_verified
  read_verified_sound s rest envelope h = loop_sound 5 0 s rest envelope h
