-- ===== src/Text.antt =====
-- Rust's strings: a `str` is the list of its code points, `as_bytes` is its UTF-8, and integers are
-- printed in decimal. (Language and standard library, as the source uses them.)
pub mod Utf8
pub mod Decimal
pub mod Trim
use Prim.Native.Char.{code}
use Prim.Native.String.{String}
use galax_ia_sdk.Prelude.{ℕ, ◌≤◌, ◌<◌, List, [], ◌∷◌, All}

abbrev pub Text : Type 0
Text = List ℕ

abbrev pub Bytes : Type 0
Bytes = List ℕ

-- the code points of a literal
abbrev pub codes : String → Text
codes String.[] = []
codes (String.◌∷◌ c s) = code c ∷ codes s

abbrev pub IsChar : ℕ → Type 0
IsChar c = c < 0x110000

abbrev pub IsText : Text → Type 0
IsText = All IsChar

abbrev pub IsByte : ℕ → Type 0
IsByte b = b < 256
