-- ===== src/Text/Utf8.antt =====
-- `str::as_bytes`, its decoder, and that the bytes determine the text.
use galax_ia_sdk.Prelude.{
  ℕ, zero, suc, ◌+◌, ◌*◌, ◌/◌, ◌%◌, ◌<◌, ◌≡◌, refl, ap, ◌∙◌, sym, [], ◌∷◌, ◌++◌, arith, ltb,
  if◌then◌else◌, All,
}
use galax_ia_sdk.Text.{Text, Bytes, IsChar, IsText}

unfoldable pub utf8_char : ℕ → Bytes
utf8_char c =
    if ltb c 0x80
    then c ∷ []
    else if ltb c 0x800
    then (0xc0 + c / 64) ∷ (0x80 + c % 64) ∷ []
    else if ltb c 0x10000
    then (0xe0 + c / 4096) ∷ (0x80 + c / 64 % 64) ∷ (0x80 + c % 64) ∷ []
    else (0xf0 + c / 262144) ∷ (0x80 + c / 4096 % 64) ∷ (0x80 + c / 64 % 64) ∷ (0x80 + c % 64) ∷ []

unfoldable pub as_bytes : Text → Bytes
unfolding utf8_char
as_bytes [] = []
as_bytes (c ∷ cs) = utf8_char c ++ as_bytes cs

-- The bytes still to come of a character, and what its first bytes give.
unfoldable pub decode_utf8 : ℕ → ℕ → Bytes → Text
decode_utf8 pending acc [] = []
decode_utf8 zero acc (b ∷ bs) =
    let plain = b ∷ decode_utf8 0 0 bs in
    let two = decode_utf8 1 (b % 32) bs in
    let three = decode_utf8 2 (b % 16) bs in
    let four = decode_utf8 3 (b % 8) bs in
    if ltb b 0x80 then plain else if ltb b 0xe0 then two else if ltb b 0xf0 then three else four
decode_utf8 (suc zero) acc (b ∷ bs) = (acc * 64 + b % 64) ∷ decode_utf8 0 0 bs
decode_utf8 (suc (suc more)) acc (b ∷ bs) = decode_utf8 (suc more) (acc * 64 + b % 64) bs

decode_utf8-utf8_char :
    (c : ℕ) (rest : Bytes)
    → IsChar c
    → decode_utf8 0 0 (utf8_char c ++ rest) ≡ c ∷ decode_utf8 0 0 rest
unfolding decode_utf8 utf8_char
decode_utf8-utf8_char c rest h = ground arith

-- The decoder gets the text back.
pub decode_utf8-as_bytes : (t : Text) → IsText t → decode_utf8 0 0 (as_bytes t) ≡ t
unfolding as_bytes
decode_utf8-as_bytes [] h = unfold decode_utf8 in refl
decode_utf8-as_bytes (c ∷ cs) (h, hs) =
    decode_utf8-utf8_char c (as_bytes cs) h ∙ ap (◌∷◌ c) (decode_utf8-as_bytes cs hs)

-- Texts with the same bytes are the same.
pub as_bytes_injective : (s t : Text) → IsText s → IsText t → as_bytes s ≡ as_bytes t → s ≡ t
as_bytes_injective s t hs ht e =
    sym (decode_utf8-as_bytes s hs) ∙ ap (decode_utf8 0 0) e ∙ decode_utf8-as_bytes t ht

char_bytes : (c : ℕ) → IsChar c → All (λ b. b < 256) (utf8_char c)
unfolding utf8_char
char_bytes c h = ground arith
