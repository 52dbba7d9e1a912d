-- ===== src/Calculator/Prints.antt =====
-- The parser of the calculator in packages/satellite-capabilities-wasm/src/lib.rs computes the value
-- of every expression from its tokens.
use galax_ia_sdk.Prelude.{
  ℕ, ◌<◌, ◌↔◌, ◌+◌, ◌*◌, ◌≡◌, refl, ap, ◌∙◌, sym, subst, [], ◌∷◌, ◌++◌, arith, length, append_assoc,
  append-nil,
}
use galax_ia_sdk.Prelude.Result.{Result, ok, err, ◌>>=◌}
use galax_ia_sdk.Calculator.{
  Arithmetic, Tokens, plus, minus, star, slash, caret, Fault, divided, expression, atom, at_end,
  parse,
}
use galax_ia_sdk.Calculator.Syntax.{
  Expr, lit, group, add, sub, mul, div, neg, pow, prec, body, in_parens, show, eval,
  length-body_pos, show-body,
}
use galax_ia_sdk.Calculator.Reads.{
  NoMinus, NoMinus-show, ReadsAtom, ReadsPower, ReadsUnary, ReadsTerm, ReadsSum, sum_complete,
}
use galax_ia_sdk.Calculator.Accepts.{parse_sound}
use galax_ia_sdk.Calculator.Rounds.{
  power_atom, unary_power, term_unary, sum_term, parens, sum_round, term_round, neg_unary,
  pow_power, lit_atom,
}

module _ (a : Arithmetic) where
  -- An expression is read at every level.
  record Reads (e : Expr) : Type 0 where
    at_atom : ReadsAtom a e
    at_power : ReadsPower a e
    at_unary : ReadsUnary a e
    at_term : ReadsTerm a e
    at_sum : ReadsSum a e

  from_atom :
      (e : Expr)
      → show 0 e ≡ show 1 e
      → show 1 e ≡ show 2 e
      → show 2 e ≡ show 3 e
      → show 3 e ≡ show 4 e
      → ReadsAtom a e
      → Reads e
  from_atom e s0 s1 s2 s3 reads =
      let powers = power_atom a e s3 reads in
      let unaries =
        unary_power a e s2
          (λ rest. subst (λ ts. NoMinus (ts ++ rest)) (sym s3) (NoMinus-show e rest)) powers in
      let terms = term_unary a e s1 unaries in
      record {
        at_atom = reads;
        at_power = powers;
        at_unary = unaries;
        at_term = terms;
        at_sum = sum_term a e s0 terms;
      }

  above : (e : Expr) → show 2 e ≡ show 3 e → show 3 e ≡ show 4 e → ReadsAtom a e → ReadsUnary a e
  above e s2 s3 reads =
      unary_power a e s2 (λ rest. subst (λ ts. NoMinus (ts ++ rest)) (sym s3) (NoMinus-show e rest))
        (power_atom a e s3 reads)

  parens_atom : (e : Expr) → show 4 e ≡ in_parens (show 0 e) → ReadsSum a e → ReadsAtom a e
  parens_atom e s4 reads f rest enough =
      ap (λ ts. atom a f (ts ++ rest)) s4
      ∙ parens a e reads f rest (omega (arith, ap (λ ts. length (ts ++ rest)) s4))

  from_sum :
      (e : Expr)
      → show 1 e ≡ show 2 e
      → show 2 e ≡ show 3 e
      → show 3 e ≡ show 4 e
      → show 4 e ≡ in_parens (show 0 e)
      → ReadsSum a e
      → Reads e
  from_sum e s1 s2 s3 s4 sums =
      let atoms = parens_atom e s4 sums in
      let unaries = above e s2 s3 atoms in
      record {
        at_atom = atoms;
        at_power = power_atom a e s3 atoms;
        at_unary = unaries;
        at_term = term_unary a e s1 unaries;
        at_sum = sums;
      }

  from_term :
      (e : Expr)
      → show 0 e ≡ show 1 e
      → show 2 e ≡ show 3 e
      → show 3 e ≡ show 4 e
      → show 4 e ≡ in_parens (show 0 e)
      → ReadsTerm a e
      → Reads e
  from_term e s0 s2 s3 s4 terms =
      let sums = sum_term a e s0 terms in
      let atoms = parens_atom e s4 sums in
      record {
        at_atom = atoms;
        at_power = power_atom a e s3 atoms;
        at_unary = above e s2 s3 atoms;
        at_term = terms;
        at_sum = sums;
      }

  from_unary :
      (e : Expr)
      → show 0 e ≡ show 1 e
      → show 1 e ≡ show 2 e
      → show 3 e ≡ show 4 e
      → show 4 e ≡ in_parens (show 0 e)
      → ReadsUnary a e
      → Reads e
  from_unary e s0 s1 s3 s4 unaries =
      let terms = term_unary a e s1 unaries in
      let sums = sum_term a e s0 terms in
      let atoms = parens_atom e s4 sums in
      record {
        at_atom = atoms;
        at_power = power_atom a e s3 atoms;
        at_unary = unaries;
        at_term = terms;
        at_sum = sums;
      }

  from_power :
      (e : Expr)
      → show 0 e ≡ show 1 e
      → show 1 e ≡ show 2 e
      → show 2 e ≡ show 3 e
      → ((rest : Tokens) → NoMinus (show 3 e ++ rest))
      → show 4 e ≡ in_parens (show 0 e)
      → ReadsPower a e
      → Reads e
  from_power e s0 s1 s2 plain s4 powers =
      let unaries = unary_power a e s2 plain powers in
      let terms = term_unary a e s1 unaries in
      let sums = sum_term a e s0 terms in
      record {
        at_atom = parens_atom e s4 sums;
        at_power = powers;
        at_unary = unaries;
        at_term = terms;
        at_sum = sums;
      }

  reads : (e : Expr) → Reads e
  unfolding expression body prec eval
  reads (lit n) = from_atom (lit n) refl refl refl refl (lit_atom a n)
  reads (group e) = from_atom (group e) refl refl refl refl (parens a e (reads e).at_sum)
  reads (add x y) =
      from_sum (add x y) refl refl refl refl
        (sum_round a x y plus a.add (λ g u ts. refl) (λ ts. tt) (reads x).at_sum (reads y).at_term)
  reads (sub x y) =
      from_sum (sub x y) refl refl refl refl
        (sum_round a x y minus a.sub (λ g u ts. refl) (λ ts. tt) (reads x).at_sum (reads y).at_term)
  reads (mul x y) = from_term (mul x y) refl refl refl refl (
      term_round a x y star (λ u v. ok (a.mul u v)) (λ g u ts. refl) (λ ts. tt) (reads x).at_term
        (reads y).at_unary)
  reads (div x y) = from_term (div x y) refl refl refl refl (
      term_round a x y slash (divided a) (λ g u ts. refl) (λ ts. tt) (reads x).at_term
        (reads y).at_unary)
  reads (neg x) = from_unary (neg x) refl refl refl refl (neg_unary a x (reads x).at_unary)
  reads (pow x y) =
      from_power (pow x y) refl refl refl
        (λ rest.
          subst NoMinus (sym (append_assoc (show 4 x) (caret ∷ show 2 y) rest))
            (NoMinus-show x (caret ∷ (show 2 y ++ rest))))
        refl (pow_power a x y (reads x).at_atom (reads y).at_unary)

  parse-expression :
      (ts : Tokens) → 0 < length ts → parse a ts ≡ (expression a (6 * length ts + 6) ts >>= at_end)
  unfolding parse
  parse-expression [] h = absurd (omega arith)
  parse-expression (t ∷ ts) h = refl

  whole-at_end : (r : Result ℕ Fault) → ((r >>= λ v. ok (v, [])) >>= at_end) ≡ r
  whole-at_end (ok v) = refl
  whole-at_end (err e) = refl

  show_pos : (e : Expr) → 0 < length (show 0 e)
  show_pos e = rw (show-body 0 e (omega arith)) (length-body_pos e)

  -- The parser computes from the tokens of an expression its value, or the division by zero that
  -- ends it.
  pub parse-show : (e : Expr) → parse a (show 0 e) ≡ eval a e
  parse-show e =
      let nil = append-nil (show 0 e) in
      let f = 6 * length (show 0 e) + 6 in
      parse-expression (show 0 e) (show_pos e)
      ∙ ap (λ ts. expression a f ts >>= at_end) (sym nil)
      ∙ ap (λ r. r >>= at_end)
          (sum_complete a e (reads e).at_sum f [] tt tt (omega (arith, ap length nil)))
      ∙ whole-at_end (eval a e)

  -- A list of tokens gives a value exactly when it is that of an expression of the grammar with
  -- that value.
  pub parse-eq-ok_iff :
      (ts : Tokens) (v : ℕ)
      → (parse a ts ≡ ok v) ↔ ((e : Expr) × (show 0 e ≡ ts) × (eval a e ≡ ok v))
  parse-eq-ok_iff ts v =
      (parse_sound a ts v, λ (e, eq, value). ap (parse a) (sym eq) ∙ parse-show e ∙ value)
