-- ===== src/Calculator.antt =====
-- packages/satellite-capabilities-wasm/src/lib.rs: the expression calculator, from the text to the
-- value. A double is its bit pattern; the sums, products and powers of doubles and the reading of a
-- decimal are the record `Arithmetic`. An answer that the source writes as text after `OK:` or
-- `ERR:` is a result with the values that the text shows.
pub mod Syntax
pub mod Fuel
pub mod Reads
pub mod Rounds
pub mod Prints
pub mod Accepts
pub mod Lexemes
use galax_ia_sdk.Prelude.{
  ℕ, zero, suc, ◌+◌, ◌*◌, ◌%◌, ◌^◌, Bool, true, false, Option, none, some, List, [], ◌∷◌, length,
  leb, ltb, ◌==◌, if◌then◌else◌, ◌&&◌, ◌||◌,
}
use galax_ia_sdk.Prelude.Result.{Result, ok, err, ok_or, ◌>>=◌}
use galax_ia_sdk.Text.{Text}
use galax_ia_sdk.Text.Trim.{is_whitespace}
use galax_ia_sdk.Authorization.{is_finite}
use galax_ia_sdk.Curp.{is_ascii_digit}

pub record Arithmetic : Type 0 where
  pub add : ℕ → ℕ → ℕ
  pub sub : ℕ → ℕ → ℕ
  pub mul : ℕ → ℕ → ℕ
  pub div : ℕ → ℕ → ℕ
  pub powf : ℕ → ℕ → ℕ
  pub parse_f64 : Text → Option ℕ

pub data Token : Type 0 where
  num : ℕ → Token
  plus minus star slash caret l_paren r_paren : Token

abbrev pub Tokens : Type 0
Tokens = List Token

-- `out_of_fuel` is of the model only.
pub data Fault : Type 0 where
  bad_number : Text → Fault
  unexpected_char : ℕ → ℕ → Fault
  empty_expression : Fault
  token_at_end : Fault
  division_by_zero : Fault
  ended : Fault
  no_r_paren : Fault
  no_atom : Fault
  not_finite : Fault
  out_of_fuel : Fault

-- what the tests of the loop of `tokenize` say of a character, in their order
pub data CharKind : Type 0 where
  blank : CharKind
  sign : Token → CharKind
  numeral : CharKind
  unknown : CharKind

abbrev pub is_numeral : ℕ → Bool
is_numeral c = is_ascii_digit c || c == 46

unfoldable pub kind_of : ℕ → CharKind
kind_of c =
    if is_whitespace c
    then blank
    else if c == 43
    then sign plus
    else if c == 45
    then sign minus
    else if c == 42
    then sign star
    else if c == 47
    then sign slash
    else if c == 94
    then sign caret
    else if c == 40
    then sign l_paren
    else if c == 41
    then sign r_paren
    else if is_numeral c
    then numeral
    else unknown

-- the digits and dots that a text starts with, what is behind them, and how many of them are dots
unfoldable pub run_of : Text → Text
run_of [] = []
run_of (c ∷ cs) = if is_numeral c then c ∷ run_of cs else []

unfoldable pub after_run : Text → Text
after_run [] = []
after_run (c ∷ cs) = if is_numeral c then after_run cs else c ∷ cs

abbrev pub dots : Text → ℕ
dots [] = 0
dots (c ∷ cs) = if c == 46 then suc (dots cs) else dots cs

-- `rhs == 0.0`, which holds of both zeros, and the change of the sign
abbrev pub is_zero : ℕ → Bool
is_zero bits = bits % 2 ^ 63 == 0

abbrev pub negated : ℕ → ℕ
negated bits = (bits + 2 ^ 63) % 2 ^ 64

abbrev pub Read : Type 0
Read = Result (ℕ × Tokens) Fault

abbrev pub close : ℕ → Tokens → Read
close value (r_paren ∷ ts) = ok (value, ts)
close value _ = err no_r_paren

abbrev pub at_end : ℕ × Tokens → Result ℕ Fault
at_end (value, []) = ok value
at_end (value, t ∷ ts) = err token_at_end

abbrev pub finite : ℕ → Result ℕ Fault
finite value = if is_finite value then ok value else err not_finite

module _ (a : Arithmetic) where
  unfoldable pub number_of : Text → Result ℕ Fault
  number_of raw =
      if ltb 1 (dots raw)
      then err (bad_number raw)
      else ok_or (a.parse_f64 raw) (bad_number raw)
        >>= (λ value. if is_finite value then ok value else err (bad_number raw))

  -- The loop of `tokenize` from position `i`; each round takes a character at least.
  unfoldable pub tokenize_from : ℕ → ℕ → Text → Result Tokens Fault
  tokenize_from fuel i [] = ok []
  tokenize_from zero i (c ∷ cs) = err out_of_fuel
  tokenize_from (suc fuel) i (c ∷ cs) = elim (kind_of c) [
    | blank ↦ tokenize_from fuel (suc i) cs
    | sign token ↦ do tokens ← tokenize_from fuel (suc i) cs; ok (token ∷ tokens)
    | numeral ↦ do
      value ← number_of (run_of (c ∷ cs))
      tokens ← tokenize_from fuel (i + length (run_of (c ∷ cs))) (after_run (c ∷ cs))
      ok (num value ∷ tokens)
    | unknown ↦ err (unexpected_char c i)
  ]

  unfoldable pub tokenize : Text → Result Tokens Fault
  tokenize expr = tokenize_from (length expr) 0 expr

  unfoldable pub divided : ℕ → ℕ → Result ℕ Fault
  divided value rhs = if is_zero rhs then err division_by_zero else ok (a.div value rhs)

  -- The methods of `Parser`, on the tokens from `pos` on; the loops of `expression` and `term` are
  -- the functions named `_more`.
  unfoldable mutual
    pub expression : ℕ → Tokens → Read
    expression zero ts = err out_of_fuel
    expression (suc f) ts = do r ← term f ts; expression_more f r.0 r.1

    pub expression_more : ℕ → ℕ → Tokens → Read
    expression_more zero value ts = err out_of_fuel
    expression_more (suc f) value (plus ∷ ts) = do
      r ← term f ts
      expression_more f (a.add value r.0) r.1
    expression_more (suc f) value (minus ∷ ts) = do
      r ← term f ts
      expression_more f (a.sub value r.0) r.1
    expression_more (suc f) value ts = ok (value, ts)

    pub term : ℕ → Tokens → Read
    term zero ts = err out_of_fuel
    term (suc f) ts = do r ← unary f ts; term_more f r.0 r.1

    pub term_more : ℕ → ℕ → Tokens → Read
    term_more zero value ts = err out_of_fuel
    term_more (suc f) value (star ∷ ts) = do r ← unary f ts; term_more f (a.mul value r.0) r.1
    term_more (suc f) value (slash ∷ ts) = do
      r ← unary f ts
      q ← divided value r.0
      term_more f q r.1
    term_more (suc f) value ts = ok (value, ts)

    pub unary : ℕ → Tokens → Read
    unary zero ts = err out_of_fuel
    unary (suc f) (minus ∷ ts) = do r ← unary f ts; ok (negated r.0, r.1)
    unary (suc f) ts = power f ts

    pub power : ℕ → Tokens → Read
    power zero ts = err out_of_fuel
    power (suc f) ts = do base ← atom f ts; power_of f base.0 base.1

    pub power_of : ℕ → ℕ → Tokens → Read
    power_of zero base ts = err out_of_fuel
    power_of (suc f) base (caret ∷ ts) = do r ← unary f ts; ok (a.powf base r.0, r.1)
    power_of (suc f) base ts = ok (base, ts)

    pub atom : ℕ → Tokens → Read
    atom zero ts = err out_of_fuel
    atom (suc f) [] = err ended
    atom (suc f) (num value ∷ ts) = ok (value, ts)
    atom (suc f) (l_paren ∷ ts) = do r ← expression f ts; close r.0 r.1
    atom (suc f) (t ∷ ts) = err no_atom

  -- No call takes more than six units of fuel for a token.
  unfoldable pub parse : Tokens → Result ℕ Fault
  parse [] = err empty_expression
  parse (t ∷ ts) = do r ← expression (6 * length (t ∷ ts) + 6) (t ∷ ts); at_end r

  unfoldable pub solve_expression : Text → Result ℕ Fault
  solve_expression expr = do tokens ← tokenize expr; value ← parse tokens; finite value
