-- ===== src/Calculator/Syntax.antt =====
-- The expressions that the calculator of packages/satellite-capabilities-wasm/src/lib.rs computes:
-- their precedence, their tokens and their value.
use galax_ia_sdk.Prelude.{
  ℕ, suc, ◌+◌, ◌*◌, ◌≤◌, ◌<◌, ◌≡◌, refl, Bool, true, false, List, [], ◌∷◌, ◌++◌, arith, length,
  length-append, ltb, Bool-cases, inl, inr, tests,
}
use galax_ia_sdk.Prelude.Result.{Result, ok, ◌>>=◌}
use galax_ia_sdk.Calculator.{
  Arithmetic, Tokens, num, plus, minus, star, slash, caret, l_paren, r_paren, Fault, negated,
  divided,
}

pub data Expr : Type 0 where
  lit : ℕ → Expr
  group : Expr → Expr
  add sub mul div pow : Expr → Expr → Expr
  neg : Expr → Expr

-- Sums are 0, products 1, a change of sign 2, powers 3, numbers and parentheses 4.
unfoldable pub prec : Expr → ℕ
prec (lit n) = 4
prec (group e) = 4
prec (add x y) = 0
prec (sub x y) = 0
prec (mul x y) = 1
prec (div x y) = 1
prec (neg x) = 2
prec (pow x y) = 3

abbrev pub in_parens : Tokens → Tokens
in_parens ts = l_paren ∷ (ts ++ r_paren ∷ [])

abbrev pub wrap : Bool → Tokens → Tokens
wrap true ts = in_parens ts
wrap false ts = ts

-- The tokens of an expression, with parentheses where its parts bind less than their place asks:
-- sums and products group to the left, powers to the right, and an exponent may be negative.
unfoldable pub body : Expr → Tokens
body (lit n) = num n ∷ []
body (group e) = in_parens (wrap (ltb (prec e) 0) (body e))
body (add x y) = wrap (ltb (prec x) 0) (body x) ++ plus ∷ wrap (ltb (prec y) 1) (body y)
body (sub x y) = wrap (ltb (prec x) 0) (body x) ++ minus ∷ wrap (ltb (prec y) 1) (body y)
body (mul x y) = wrap (ltb (prec x) 1) (body x) ++ star ∷ wrap (ltb (prec y) 2) (body y)
body (div x y) = wrap (ltb (prec x) 1) (body x) ++ slash ∷ wrap (ltb (prec y) 2) (body y)
body (neg x) = minus ∷ wrap (ltb (prec x) 2) (body x)
body (pow x y) = wrap (ltb (prec x) 4) (body x) ++ caret ∷ wrap (ltb (prec y) 2) (body y)

abbrev pub show : ℕ → Expr → Tokens
show level e = wrap (ltb (prec e) level) (body e)

-- The value, computed from left to right; a division by zero ends it.
module _ (a : Arithmetic) where
  unfoldable pub eval : Expr → Result ℕ Fault
  eval (lit n) = ok n
  eval (group e) = eval e
  eval (add x y) = do u ← eval x; v ← eval y; ok (a.add u v)
  eval (sub x y) = do u ← eval x; v ← eval y; ok (a.sub u v)
  eval (mul x y) = do u ← eval x; v ← eval y; ok (a.mul u v)
  eval (div x y) = do u ← eval x; v ← eval y; divided a u v
  eval (neg x) = do u ← eval x; ok (negated u)
  eval (pow x y) = do u ← eval x; v ← eval y; ok (a.powf u v)

pub length-append_tokens : (xs ys : Tokens) → length (xs ++ ys) ≡ length xs + length ys
length-append_tokens = length-append

-- for `omega`, on token lists
pub ruleset lengths = (arith, length-append_tokens)

length-wrap : (b : Bool) (ts : Tokens) → length ts ≤ length (wrap b ts)
length-wrap true ts = omega lengths
length-wrap false ts = omega arith

pub length-body_pos : (e : Expr) → 0 < length (body e)
unfolding body
length-body_pos (lit n) = omega arith
length-body_pos (group e) = omega arith
length-body_pos (add x y) = omega lengths
length-body_pos (sub x y) = omega lengths
length-body_pos (mul x y) = omega lengths
length-body_pos (div x y) = omega lengths
length-body_pos (neg x) = omega arith
length-body_pos (pow x y) = omega lengths

-- No parentheses where none are needed.
pub show-body : (level : ℕ) (e : Expr) → level ≤ prec e → show level e ≡ body e
show-body level e h = ground arith
