-- ===== src/Text/Trim.antt =====
-- `str::trim` and its halves with a test.
use galax_ia_sdk.Prelude.{ℕ, ◌==◌, leb, Bool, [], ◌∷◌, if◌then◌else◌, ◌&&◌, ◌||◌}
use galax_ia_sdk.Text.{Text}

-- the characters that `str::trim` takes off
abbrev pub is_whitespace : ℕ → Bool
is_whitespace c =
    (leb 9 c && leb c 13)
    || c == 32
    || c == 0x85
    || c == 0xa0
    || c == 0x1680
    || (leb 0x2000 c && leb c 0x200a)
    || c == 0x2028
    || c == 0x2029
    || c == 0x202f
    || c == 0x205f
    || c == 0x3000

unfoldable pub trim_start : (ℕ → Bool) → Text → Text
trim_start p [] = []
trim_start p (c ∷ cs) = if p c then trim_start p cs else c ∷ cs

-- What is left of the characters is kept unless only trimmed ones follow.
abbrev pub keep_unless_blank : (ℕ → Bool) → ℕ → Text → Text
keep_unless_blank p c [] = if p c then [] else c ∷ []
keep_unless_blank p c (d ∷ ds) = c ∷ d ∷ ds

unfoldable pub trim_end : (ℕ → Bool) → Text → Text
trim_end p [] = []
trim_end p (c ∷ cs) = keep_unless_blank p c (trim_end p cs)

unfoldable pub trim : Text → Text
unfolding trim_start trim_end
trim t = trim_end is_whitespace (trim_start is_whitespace t)
