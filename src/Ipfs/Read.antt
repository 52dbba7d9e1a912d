-- ===== src/Ipfs/Read.antt =====
-- What `cat` reads: all of a content within the limit, and never more.
use galax_ia_sdk.Prelude.{
  ℕ, ◌+◌, ◌≤◌, ◌<◌, ◌≡◌, refl, ap, ◌∙◌, sym, false, some, List, [], ◌∷◌, ◌++◌, map, length, arith,
  ltb, if◌then◌else◌, length-append, append_assoc, append-nil, Bool-cases, inl, inr,
}
use galax_ia_sdk.Prelude.Result.{ok, err}
use galax_ia_sdk.Text.{Bytes}
use galax_ia_sdk.Ipfs.{Kubo, too_large, read_chunks}

-- the bytes of the chunks that come in
unfoldable pub content : List Bytes → Bytes
content [] = []
content (chunk ∷ chunks) = chunk ++ content chunks

module _ (k : Kubo) (max_bytes : ℕ) where
  fits :
      (chunks : List Bytes) (out : Bytes)
      → length (out ++ content chunks) ≤ max_bytes
      → read_chunks k max_bytes out (map some chunks) ≡ ok (out ++ content chunks)
  unfolding read_chunks content
  fits [] out h = ap ok (sym (append-nil out))
  fits (chunk ∷ chunks) out h =
      let small : ltb max_bytes (length out + length chunk) ≡ false = ground (
        arith,
        length-append out (chunk ++ content chunks),
        length-append chunk (content chunks),
      ) in
      let same = append_assoc out chunk (content chunks) in
      rw small (fits chunks (out ++ chunk) (omega (arith, h, ap length same)) ∙ ap ok same)

  exceeds :
      (chunks : List Bytes) (out : Bytes)
      → length out ≤ max_bytes
      → max_bytes < length (out ++ content chunks)
      → read_chunks k max_bytes out (map some chunks) ≡ err (too_large max_bytes)
  unfolding read_chunks content
  exceeds [] out low h = absurd (omega (arith, ap length (append-nil out)))
  exceeds (chunk ∷ chunks) out low h =
      elim (Bool-cases (ltb max_bytes (length out + length chunk))) [
        | inl over ↦ rw over refl
        | inr under ↦ rw under (
            exceeds chunks (out ++ chunk) (ground (arith, length-append out chunk))
              (omega (arith, h, ap length (append_assoc out chunk (content chunks)))))
      ]

  -- A content that comes in whole, in whatever chunks, is returned exactly when it is within the
  -- limit; above the limit the read fails as too large.
  pub read_chunks-content :
      (chunks : List Bytes)
      → read_chunks k max_bytes [] (map some chunks) ≡ (
          if ltb max_bytes (length (content chunks))
          then err (too_large max_bytes)
          else ok (content chunks))
  read_chunks-content chunks = elim (Bool-cases (ltb max_bytes (length (content chunks)))) [
    | inl over ↦ rw over (exceeds chunks [] (omega arith) (ground arith))
    | inr under ↦ rw under (fits chunks [] (ground arith))
  ]
