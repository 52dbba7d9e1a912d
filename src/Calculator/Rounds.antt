-- ===== src/Calculator/Rounds.antt =====
-- The steps of the parser of the calculator in packages/satellite-capabilities-wasm/src/lib.rs: from
-- one level of precedence to the next, the rounds of its loops, and its operators.
use galax_ia_sdk.Prelude.{
  ℕ, zero, suc, ◌+◌, ◌*◌, ◌≤◌, ◌≡◌, refl, ap, ◌∙◌, sym, [], ◌∷◌, ◌++◌, arith, length, append_assoc,
}
use galax_ia_sdk.Prelude.Result.{Result, ok, err, ◌>>=◌}
use galax_ia_sdk.Calculator.{
  Arithmetic, Token, Tokens, caret, l_paren, r_paren, Fault, Read, negated, close, expression,
  expression_more, term, term_more, unary, power_of, atom,
}
use galax_ia_sdk.Calculator.Syntax.{Expr, lit, neg, pow, prec, body, show, eval, lengths}
use galax_ia_sdk.Calculator.Reads.{
  NoCaret, NoFactor, NoMinus, bind_cong, one, two, power_of_stops, unary-power, Whole, ReadsAtom,
  ReadsPower, ReadsUnary, ReadsTerm, ReadsSum, term_complete, sum_complete,
}

module _ (a : Arithmetic) where
  -- A reader of one level reads what is shown alike at the level below it.
  pub power_atom : (e : Expr) → show 3 e ≡ show 4 e → ReadsAtom a e → ReadsPower a e
  unfolding expression
  power_atom e same reads zero rest h enough = absurd (omega arith)
  power_atom e same reads (suc f) rest h enough =
      one (eval a e) (atom a f (show 3 e ++ rest)) rest (power_of a f) (
        ap (λ ts. atom a f (ts ++ rest)) same
        ∙ reads f rest (omega (arith, ap (λ ts. length (ts ++ rest)) same)))
      ∙ bind_cong (eval a e) _ _ (λ v. power_of_stops a f v rest h (omega arith))

  pub unary_power :
      (e : Expr)
      → show 2 e ≡ show 3 e
      → ((rest : Tokens) → NoMinus (show 3 e ++ rest))
      → ReadsPower a e
      → ReadsUnary a e
  unary_power e same plain reads zero rest h enough = absurd (omega arith)
  unary_power e same plain reads (suc f) rest h enough =
      ap (λ ts. unary a (suc f) (ts ++ rest)) same
      ∙ unary-power a f (show 3 e ++ rest) (plain rest)
      ∙ reads f rest h (omega (arith, ap (λ ts. length (ts ++ rest)) same))

  pub term_unary : (e : Expr) → show 1 e ≡ show 2 e → ReadsUnary a e → ReadsTerm a e
  unfolding expression
  term_unary e same reads zero rest h enough = absurd (omega arith)
  term_unary e same reads (suc f) rest h enough = (
    f,
    omega lengths,
    one (eval a e) (unary a f (show 1 e ++ rest)) rest (term_more a f) (
        ap (λ ts. unary a f (ts ++ rest)) same
        ∙ reads f rest h (omega (arith, ap (λ ts. length (ts ++ rest)) same))),
  )

  pub sum_term : (e : Expr) → show 0 e ≡ show 1 e → ReadsTerm a e → ReadsSum a e
  unfolding expression
  sum_term e same reads zero rest h enough = absurd (omega arith)
  sum_term e same reads (suc f) rest h enough = (
    f,
    omega lengths,
    one (eval a e) (term a f (show 0 e ++ rest)) rest (expression_more a f) (
        ap (λ ts. term a f (ts ++ rest)) same
        ∙ term_complete a e reads f rest h (omega (arith, ap (λ ts. length (ts ++ rest)) same))),
  )

  pub parens :
      (e : Expr)
      → ReadsSum a e
      → (f : ℕ) (rest : Tokens)
      → 6 * length (l_paren ∷ ((show 0 e ++ r_paren ∷ []) ++ rest)) + 1 ≤ f
      → atom a f (l_paren ∷ ((show 0 e ++ r_paren ∷ []) ++ rest)) ≡ Whole a e rest
  unfolding expression
  parens e reads zero rest enough = absurd (omega arith)
  parens e reads (suc f) rest enough =
      let same = append_assoc (show 0 e) (r_paren ∷ []) rest in
      one (eval a e) (expression a f ((show 0 e ++ r_paren ∷ []) ++ rest)) (r_paren ∷ rest) close (
        ap (expression a f) same
        ∙ sum_complete a e reads f (r_paren ∷ rest) tt tt (omega (arith, ap length same)))

abbrev signed : Tokens → ℕ → Read
signed rest u = ok (negated u, rest)

signed-eq :
    (r : Result ℕ Fault) (rest : Tokens)
    → ((r >>= λ u. ok (negated u)) >>= λ v. ok (v, rest)) ≡ (r >>= signed rest)
signed-eq (ok u) rest = refl
signed-eq (err e) rest = refl

-- One round of a loop: `t` and the operand behind it, when the fuel is enough for both.
round :
    (reader second : ℕ → Tokens → Read) (more : ℕ → ℕ → Tokens → Read) (t : Token)
    (apply : ℕ → ℕ → Result ℕ Fault) (xs ys rest : Tokens) (r r' : Result ℕ Fault) (f g : ℕ)
    → ((g u : ℕ) (ts : Tokens)
        → more (suc g) u (t ∷ ts) ≡ (second g ts >>= λ q. apply u q.0 >>= λ w. more g w q.1))
    → ((g : ℕ)
        → 6 * length (t ∷ (ys ++ rest)) + 1 ≤ suc g
        → second g (ys ++ rest) ≡ (r' >>= λ v. ok (v, rest)))
    → 6 * length (t ∷ (ys ++ rest)) + 1 ≤ g
    → reader f (xs ++ t ∷ (ys ++ rest)) ≡ (r >>= λ u. more g u (t ∷ (ys ++ rest)))
    → (g' : ℕ) × (6 * length rest + 1 ≤ g')
      × (reader f ((xs ++ t ∷ ys) ++ rest)
          ≡ ((r >>= λ u. r' >>= λ v. apply u v) >>= λ w. more g' w rest))
round reader second more t apply xs ys rest r r' f zero steps reads enough eq = absurd (omega arith)
round reader second more t apply xs ys rest r r' f (suc g) steps reads enough eq = (
  g,
  omega lengths,
  ap (reader f) (append_assoc xs (t ∷ ys) rest)
      ∙ eq
      ∙ bind_cong r _ _ (λ u. steps g u (ys ++ rest))
      ∙ two r r' (second g (ys ++ rest)) rest apply (more g) (reads g enough),
)

module _ (a : Arithmetic) where
  pub sum_round :
      (x y : Expr) (t : Token) (apply : ℕ → ℕ → ℕ)
      → ((g u : ℕ) (ts : Tokens)
          → expression_more a (suc g) u (t ∷ ts)
            ≡ (term a g ts >>= λ q. expression_more a g (apply u q.0) q.1))
      → ((ts : Tokens) → NoFactor (t ∷ ts))
      → ReadsSum a x
      → ReadsTerm a y
      → (f : ℕ) (rest : Tokens) → NoFactor rest
      → 6 * length ((show 0 x ++ t ∷ show 1 y) ++ rest) + 5 ≤ f
      → (g : ℕ) × (6 * length rest + 1 ≤ g)
        × (expression a f ((show 0 x ++ t ∷ show 1 y) ++ rest) ≡ (
            (eval a x >>= λ u. eval a y >>= λ v. ok (apply u v)) >>= λ w.
            expression_more a g w rest))
  sum_round x y t apply steps ends reads_x reads_y f rest h enough =
      let same = append_assoc (show 0 x) (t ∷ show 1 y) rest in
      let (g, left, eq) =
        reads_x f (t ∷ (show 1 y ++ rest)) (ends _) (omega (arith, ap length same)) in
      round (expression a) (term a) (expression_more a) t (λ u v. ok (apply u v)) (show 0 x)
        (show 1 y) rest (eval a x) (eval a y) f g steps
        (λ g' more. term_complete a y reads_y g' rest h (omega arith)) left eq

  pub term_round :
      (x y : Expr) (t : Token) (apply : ℕ → ℕ → Result ℕ Fault)
      → ((g u : ℕ) (ts : Tokens)
          → term_more a (suc g) u (t ∷ ts)
            ≡ (unary a g ts >>= λ q. apply u q.0 >>= λ w. term_more a g w q.1))
      → ((ts : Tokens) → NoCaret (t ∷ ts))
      → ReadsTerm a x
      → ReadsUnary a y
      → (f : ℕ) (rest : Tokens) → NoCaret rest
      → 6 * length ((show 1 x ++ t ∷ show 2 y) ++ rest) + 4 ≤ f
      → (g : ℕ) × (6 * length rest + 1 ≤ g)
        × (term a f ((show 1 x ++ t ∷ show 2 y) ++ rest)
            ≡ ((eval a x >>= λ u. eval a y >>= λ v. apply u v) >>= λ w. term_more a g w rest))
  term_round x y t apply steps ends reads_x reads_y f rest h enough =
      let same = append_assoc (show 1 x) (t ∷ show 2 y) rest in
      let (g, left, eq) =
        reads_x f (t ∷ (show 2 y ++ rest)) (ends _) (omega (arith, ap length same)) in
      round (term a) (unary a) (term_more a) t apply (show 1 x) (show 2 y) rest (eval a x)
        (eval a y) f g steps (λ g' more. reads_y g' rest h (omega arith)) left eq

  pub neg_unary : (x : Expr) → ReadsUnary a x → ReadsUnary a (neg x)
  unfolding expression body prec eval
  neg_unary x reads zero rest h enough = absurd (omega arith)
  neg_unary x reads (suc f) rest h enough =
      one (eval a x) (unary a f (show 2 x ++ rest)) rest (λ v ts. signed ts v)
        (reads f rest h (omega arith))
      ∙ sym (signed-eq (eval a x) rest)

  pub pow_power : (x y : Expr) → ReadsAtom a x → ReadsUnary a y → ReadsPower a (pow x y)
  unfolding expression body prec eval
  pow_power x y reads_x reads_y zero rest h enough = absurd (omega arith)
  pow_power x y reads_x reads_y (suc zero) rest h enough = absurd (omega arith)
  pow_power x y reads_x reads_y (suc (suc f)) rest h enough =
      let same = append_assoc (show 4 x) (caret ∷ show 2 y) rest in
      one (eval a x) (atom a (suc f) ((show 4 x ++ caret ∷ show 2 y) ++ rest))
        (caret ∷ (show 2 y ++ rest)) (power_of a (suc f))
        (ap (atom a (suc f)) same
          ∙ reads_x (suc f) (caret ∷ (show 2 y ++ rest)) (omega (arith, ap length same)))
      ∙ two (eval a x) (eval a y) (unary a f (show 2 y ++ rest)) rest (λ u v. ok (a.powf u v))
          (λ w ts. ok (w, ts)) (reads_y f rest h (omega (lengths, ap length same)))

  pub lit_atom : (n : ℕ) → ReadsAtom a (lit n)
  unfolding expression body prec eval
  lit_atom n zero rest enough = absurd (omega arith)
  lit_atom n (suc f) rest enough = refl
