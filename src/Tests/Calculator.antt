-- ===== src/Tests/Calculator.antt =====
-- The calculator of packages/satellite-capabilities-wasm/src/lib.rs on concrete inputs, with the
-- natural numbers for doubles.
use galax_ia_sdk.Prelude.{
  none, true, arith, ◌+◌, ◌-◌, ◌*◌, ◌/◌, ◌^◌, ◌≡◌, ◌≢◌, ◌↔◌, refl, some, List, [], ◌∷◌,
}
use galax_ia_sdk.Prelude.Result.{ok, err, ◌>>=◌}
use galax_ia_sdk.Text.{codes}
use galax_ia_sdk.Text.Decimal.{value_from}
use galax_ia_sdk.Authorization.{is_finite}
use galax_ia_sdk.Calculator.{
  Arithmetic, num, plus, star, l_paren, r_paren, out_of_fuel, division_by_zero, finite, parse,
  solve_expression, tokenize, kind_of, tokenize_from, number_of, run_of, after_run, expression,
  divided,
}
use galax_ia_sdk.Text.Trim.{is_whitespace}
use galax_ia_sdk.Calculator.Syntax.{Expr, lit, group, add, mul, div, show, eval, prec, body}
use galax_ia_sdk.Calculator.Prints.{parse-show, parse-eq-ok_iff}
use galax_ia_sdk.Calculator.Lexemes.{Piece, symbol, number, Legible, solve_expression-render}
use galax_ia_sdk.Calculator.Fuel.{solve_expression-ne-out_of_fuel}

abbrev naturals : Arithmetic
naturals = record {
  add = λ x y. x + y;
  sub = λ x y. x - y;
  mul = λ x y. x * y;
  div = λ x y. x / y;
  powf = λ x y. x ^ y;
  parse_f64 = λ t. some (value_from 0 t);
}

-- (1 + 2) * 3
abbrev product : Expr
product = mul (group (add (lit 1) (lit 2))) (lit 3)

abbrev pieces : List Piece
pieces =
    symbol [] l_paren
    ∷ number [] (codes "1") none 1
    ∷ symbol (codes " ") plus
    ∷ number (codes " ") (codes "2") none 2
    ∷ symbol [] r_paren
    ∷ symbol (codes " ") star
    ∷ number (codes " ") (codes "3") none 3
    ∷ []

blank_run : is_whitespace 32 ≡ true
blank_run = refl

pieces-Legible : Legible naturals pieces []
unfolding is_finite value_from
pieces-Legible = (
  tt,
  tt,
  (
    tt,
    (omega arith, tt),
    tt,
    omega arith,
    refl,
    refl,
    refl,
    (
      (blank_run, tt),
      tt,
      (
        (blank_run, tt),
        (omega arith, tt),
        tt,
        omega arith,
        refl,
        refl,
        refl,
        (
          tt,
          tt,
          (
            (blank_run, tt),
            tt,
            ((blank_run, tt), (omega arith, tt), tt, omega arith, refl, refl, refl, tt),
          ),
        ),
      ),
    ),
  ),
)

solve_expression-render_example :
    solve_expression naturals (codes "(1 + 2) * 3") ≡ (eval naturals product >>= finite)
unfolding prec body
solve_expression-render_example =
    solve_expression-render naturals product pieces [] pieces-Legible refl

solve_run : solve_expression naturals (codes "(1 + 2) * 3") ≡ ok 9
unfolding solve_expression tokenize tokenize_from kind_of number_of is_finite value_from run_of
    after_run parse expression
solve_run = refl

-- 6 / (2 * 0)
abbrev quotient : Expr
quotient = div (lit 6) (mul (lit 2) (lit 0))

parse-show_example : parse naturals (show 0 quotient) ≡ eval naturals quotient
parse-show_example = parse-show naturals quotient

quotient_run : eval naturals quotient ≡ err division_by_zero
unfolding eval divided
quotient_run = refl

parse-eq-ok_iff_example :
    (parse naturals (num 4 ∷ plus ∷ num 5 ∷ []) ≡ ok 9)
    ↔ ((e : Expr) × (show 0 e ≡ num 4 ∷ plus ∷ num 5 ∷ []) × (eval naturals e ≡ ok 9))
parse-eq-ok_iff_example = parse-eq-ok_iff naturals (num 4 ∷ plus ∷ num 5 ∷ []) 9

solve_expression-ne-out_of_fuel_example : solve_expression naturals (codes "((1") ≢ err out_of_fuel
solve_expression-ne-out_of_fuel_example = solve_expression-ne-out_of_fuel naturals (codes "((1")
