-- ===== src/Calculator/Lexemes.antt =====
-- The tokenizer and the whole of the calculator in packages/satellite-capabilities-wasm/src/lib.rs:
-- signs and numbers with blanks between them are read as their tokens.
use galax_ia_sdk.Prelude.{
  ℕ, zero, suc, ◌+◌, ◌≤◌, ◌≡◌, refl, sym, subst, append-nil, ap, Bool, true, false, Option, none,
  some, leb, ltb, ◌==◌, ◌&&◌, ◌||◌, ◌<◌, List, [], ◌∷◌, ◌++◌, arith, length, All, length-append,
  append_assoc,
}
use galax_ia_sdk.Prelude.Result.{ok, ◌>>=◌}
use galax_ia_sdk.Text.{Text}
use galax_ia_sdk.Text.Trim.{is_whitespace}
use galax_ia_sdk.Authorization.{is_finite}
use galax_ia_sdk.Calculator.{
  Arithmetic, Token, Tokens, num, plus, minus, star, slash, caret, l_paren, r_paren, dots, blank,
  sign, numeral, is_numeral, kind_of, run_of, after_run, number_of, tokenize_from, tokenize, finite,
  solve_expression,
}
use galax_ia_sdk.Calculator.Syntax.{Expr, show, eval}
use galax_ia_sdk.Calculator.Prints.{parse-show}

-- A sign or a number, with the blanks before it.
pub data Piece : Type 0 where
  symbol : Text → Token → Piece
  number : Text → Text → Option Text → ℕ → Piece

-- the sign that stands for a token
abbrev pub char_of : Token → ℕ
char_of plus = 43
char_of minus = 45
char_of star = 42
char_of slash = 47
char_of caret = 94
char_of l_paren = 40
char_of r_paren = 41
char_of (num v) = 0

abbrev pub IsSign : Token → Type 0
IsSign (num v) = ⊥
IsSign _ = Unit

-- the digits of a number, and those behind its point if it has one
abbrev pub decimal : Text → Option Text → Text
decimal whole none = whole
decimal whole (some fraction) = whole ++ 46 ∷ fraction

abbrev pub token_of : Piece → Token
token_of (symbol blanks t) = t
token_of (number blanks whole fraction v) = num v

abbrev pub text_of : Piece → Text
text_of (symbol blanks t) = blanks ++ char_of t ∷ []
text_of (number blanks whole fraction v) = blanks ++ decimal whole fraction

abbrev pub tokens_of : List Piece → Tokens
tokens_of [] = []
tokens_of (p ∷ ps) = token_of p ∷ tokens_of ps

-- the pieces, and the blanks at the end
abbrev pub render : List Piece → Text → Text
render [] blanks = blanks
render (p ∷ ps) blanks = text_of p ++ render ps blanks

abbrev pub starts_numeral : Text → Bool
starts_numeral [] = false
starts_numeral (c ∷ cs) = (leb 48 c && leb c 57) || c == 46

abbrev pub AllBlank : Text → Type 0
AllBlank = All (λ c. is_whitespace c ≡ true)

abbrev pub AllDigits : Text → Type 0
AllDigits = All (λ c. (48 ≤ c) × (c ≤ 57))

abbrev pub FractionDigits : Option Text → Type 0
FractionDigits none = Unit
FractionDigits (some fraction) = AllDigits fraction

kind_of-blank : (c : ℕ) → is_whitespace c ≡ true → kind_of c ≡ blank
unfolding kind_of
kind_of-blank c h = rw h refl

kind_of-char_of : (t : Token) → IsSign t → kind_of (char_of t) ≡ sign t
unfolding kind_of
kind_of-char_of plus h = refl
kind_of-char_of minus h = refl
kind_of-char_of star h = refl
kind_of-char_of slash h = refl
kind_of-char_of caret h = refl
kind_of-char_of l_paren h = refl
kind_of-char_of r_paren h = refl
kind_of-char_of (num v) h = elim h [ ]

abbrev Numeral : Text → Type 0
Numeral [] = ⊥
Numeral (c ∷ cs) = All (λ d. is_numeral d ≡ true) (c ∷ cs)

digits_numeral : (t : Text) → AllDigits t → All (λ d. is_numeral d ≡ true) t
digits_numeral [] h = tt
digits_numeral (c ∷ cs) ((low, high), h) = (ground arith, digits_numeral cs h)

dots-digits : (t : Text) → AllDigits t → dots t ≡ 0
dots-digits [] h = refl
dots-digits (c ∷ cs) ((low, high), h) = ground (arith, dots-digits cs h)

decimal_numeral :
    (whole fraction : Text)
    → AllDigits whole
    → AllDigits fraction
    → All (λ d. is_numeral d ≡ true) (whole ++ 46 ∷ fraction)
decimal_numeral [] fraction h k = (refl, digits_numeral fraction k)
decimal_numeral (c ∷ cs) fraction ((low, high), h) k =
    (ground arith, decimal_numeral cs fraction h k)

dots-decimal :
    (whole fraction : Text)
    → AllDigits whole
    → AllDigits fraction
    → dots (whole ++ 46 ∷ fraction) ≡ 1
dots-decimal [] fraction h k = ap suc (dots-digits fraction k)
dots-decimal (c ∷ cs) fraction ((low, high), h) k = ground (arith, dots-decimal cs fraction h k)

-- A number has digits and at most one point.
decimal_lem :
    (whole : Text) (fraction : Option Text)
    → AllDigits whole
    → FractionDigits fraction
    → 0 < length (decimal whole fraction)
    → Numeral (decimal whole fraction) × (ltb 1 (dots (decimal whole fraction)) ≡ false)
decimal_lem [] none h k some_digit = absurd (omega arith)
decimal_lem (c ∷ cs) none h k some_digit =
    (digits_numeral (c ∷ cs) h, ap (ltb 1) (dots-digits (c ∷ cs) h))
decimal_lem [] (some fraction) h k some_digit =
    (decimal_numeral [] fraction h k, ap (ltb 1) (dots-decimal [] fraction h k))
decimal_lem (c ∷ cs) (some fraction) h k some_digit =
    (decimal_numeral (c ∷ cs) fraction h k, ap (ltb 1) (dots-decimal (c ∷ cs) fraction h k))

kind_of-numeral : (c : ℕ) → is_numeral c ≡ true → kind_of c ≡ numeral
unfolding kind_of
kind_of-numeral c h = ground arith

run_of-append :
    (raw rest : Text)
    → All (λ d. is_numeral d ≡ true) raw
    → starts_numeral rest ≡ false
    → (run_of (raw ++ rest) ≡ raw) × (after_run (raw ++ rest) ≡ rest)
unfolding run_of after_run
run_of-append [] [] h stop = (refl, refl)
run_of-append [] (c ∷ rest) h stop = (rw stop refl, rw stop refl)
run_of-append (c ∷ raw) rest (h, more) stop =
    let (run, after) = run_of-append raw rest more stop in (rw (h, run), rw (h, after))

module _ (a : Arithmetic) where
  -- Numbers read as their values, and behind a number stands no digit or dot.
  abbrev pub Legible : List Piece → Text → Type 0
  Legible [] end = AllBlank end
  Legible (symbol blanks t ∷ ps) end = AllBlank blanks × IsSign t × Legible ps end
  Legible (number blanks whole fraction v ∷ ps) end =
      AllBlank blanks
      × AllDigits whole
      × FractionDigits fraction
      × (0 < length (decimal whole fraction))
      × (a.parse_f64 (decimal whole fraction) ≡ some v)
      × (is_finite v ≡ true)
      × (starts_numeral (render ps end) ≡ false)
      × Legible ps end

  number_of-decimal :
      (raw : Text) (v : ℕ)
      → ltb 1 (dots raw) ≡ false
      → a.parse_f64 raw ≡ some v
      → is_finite v ≡ true
      → number_of a raw ≡ ok v
  unfolding number_of
  number_of-decimal raw v few value fin = rw (few, value, fin) refl

  abbrev Tokenizes : Text → Tokens → Type 0
  Tokenizes text tokens = (f i : ℕ) → length text ≤ f → tokenize_from a f i text ≡ ok tokens

  skip_blanks :
      (blanks text : Text) (tokens : Tokens)
      → AllBlank blanks
      → Tokenizes text tokens
      → Tokenizes (blanks ++ text) tokens
  unfolding tokenize_from
  skip_blanks [] text tokens h next f i enough = next f i enough
  skip_blanks (c ∷ blanks) text tokens (h, more) next zero i enough = absurd (omega arith)
  skip_blanks (c ∷ blanks) text tokens (h, more) next (suc f) i enough =
      rw (kind_of-blank c h, tokenize_from)
        (skip_blanks blanks text tokens more next f (suc i) (omega arith))

  take_symbol :
      (c : ℕ) (t : Token) (text : Text) (tokens : Tokens)
      → kind_of c ≡ sign t
      → Tokenizes text tokens
      → Tokenizes (c ∷ text) (t ∷ tokens)
  unfolding tokenize_from
  take_symbol c t text tokens h next zero i enough = absurd (omega arith)
  take_symbol c t text tokens h next (suc f) i enough =
      rw (h, tokenize_from, next f (suc i) (omega arith)) refl

  take_number :
      (raw : Text) (v : ℕ) (text : Text) (tokens : Tokens)
      → Numeral raw
      → number_of a raw ≡ ok v
      → starts_numeral text ≡ false
      → Tokenizes text tokens
      → Tokenizes (raw ++ text) (num v ∷ tokens)
  unfolding tokenize_from
  take_number [] v text tokens h value stop next f i enough = elim h [ ]
  take_number (c ∷ raw) v text tokens h value stop next zero i enough = absurd (omega arith)
  take_number (c ∷ raw) v text tokens h value stop next (suc f) i enough =
      let (run, after) = run_of-append (c ∷ raw) text h stop in
      rw
        (
          kind_of-numeral c h.0,
          tokenize_from,
          run,
          after,
          value,
          next f (i + length (c ∷ raw)) (omega (arith, length-append raw text)),
        )
        refl

  end_blanks : Tokenizes [] []
  unfolding tokenize_from
  end_blanks zero i enough = refl
  end_blanks (suc f) i enough = refl

  tokenize_from-render :
      (ps : List Piece) (end : Text) → Legible ps end → Tokenizes (render ps end) (tokens_of ps)
  tokenize_from-render [] end h =
      subst (λ t. Tokenizes t []) (append-nil end) (skip_blanks end [] [] h end_blanks)
  tokenize_from-render (symbol blanks t ∷ ps) end (h, is_sign, more) =
      subst (λ text. Tokenizes text (t ∷ tokens_of ps))
        (sym (append_assoc blanks (char_of t ∷ []) (render ps end)))
        (skip_blanks blanks (char_of t ∷ render ps end) (t ∷ tokens_of ps) h (
          take_symbol (char_of t) t (render ps end) (tokens_of ps) (kind_of-char_of t is_sign)
            (tokenize_from-render ps end more)))
  tokenize_from-render (number blanks whole fraction v ∷ ps) end
        (h, digits, behind, some_digit, value, fin, stop, more) =
      let raw = decimal whole fraction in
      let (numeral_raw, few) = decimal_lem whole fraction digits behind some_digit in
      subst (λ text. Tokenizes text (num v ∷ tokens_of ps))
        (sym (append_assoc blanks raw (render ps end)))
        (skip_blanks blanks (raw ++ render ps end) (num v ∷ tokens_of ps) h (
          take_number raw v (render ps end) (tokens_of ps) numeral_raw
            (number_of-decimal raw v few value fin) stop (tokenize_from-render ps end more)))

  -- A text that writes an expression out, with any blanks between its signs and numbers, where
  -- numbers are digits with at most one point that the parser of doubles reads as a finite
  -- value, and no digit or dot stands behind one, gives the value of the expression if that is
  -- finite, and otherwise the fault.
  pub solve_expression-render :
      (e : Expr) (ps : List Piece) (end : Text)
      → Legible ps end
      → tokens_of ps ≡ show 0 e
      → solve_expression a (render ps end) ≡ (eval a e >>= finite)
  unfolding solve_expression tokenize
  solve_expression-render e ps end h same =
      rw
        (
          tokenize_from-render ps end h (length (render ps end)) 0 (omega arith),
          same,
          parse-show a e,
        )
        refl
