-- ===== src/Calculator/Accepts.antt =====
-- What the parser of the calculator in packages/satellite-capabilities-wasm/src/lib.rs accepts, and
-- that its fuel is enough: one induction on the fuel.
use galax_ia_sdk.Prelude.{
  ℕ, zero, suc, ◌+◌, ◌*◌, ◌≤◌, ◌≡◌, ◌≢◌, refl, ap, ◌∙◌, sym, subst, [], ◌∷◌, ◌++◌, arith, length,
  append_assoc, append-nil,
}
use galax_ia_sdk.Prelude.Result.{Result, ok, err, ◌>>=◌, ok_injective}
use galax_ia_sdk.Calculator.{
  Arithmetic, Token, Tokens, num, plus, minus, star, slash, caret, l_paren, r_paren, Fault,
  out_of_fuel, Read, divided, close, expression, expression_more, term, term_more, unary, power,
  power_of, atom, at_end, parse,
}
use galax_ia_sdk.Calculator.Syntax.{
  Expr, lit, group, add, sub, mul, div, neg, pow, prec, body, show, eval, show-body,
  length-body_pos, lengths,
}

abbrev pub Fails : Fault → Type 0
Fails out_of_fuel = ⊥
Fails _ = Unit

module _ {A : Type 0} where
  -- The fuel is enough, and a result has the property.
  abbrev pub Ensures : (A → Type 0) → Result A Fault → Type 0
  Ensures P (ok x) = P x
  Ensures P (err e) = Fails e

module _ {A B : Type 0} (P : A → Type 0) (Q : B → Type 0) where
  pub Ensures-bind :
      (r : Result A Fault) (k : A → Result B Fault)
      → Ensures P r
      → ((x : A) → P x → Ensures Q (k x))
      → Ensures Q (r >>= k)
  Ensures-bind (ok x) k h next = next x h
  Ensures-bind (err e) k h next = h

pub Ensures-ne :
    {A : Type 0} (P : A → Type 0) (r : Result A Fault) → Ensures P r → r ≢ err out_of_fuel
Ensures-ne P (ok x) h = λ e. cc
Ensures-ne P (err fault) h = λ e. fails fault h (cc)
  where
    fails : (fault : Fault) → Fails fault → fault ≢ out_of_fuel
    fails fault h e = subst Fails e h

Ensures-eq-ok :
    {A : Type 0} (P : A → Type 0) (r : Result A Fault) (x : A) → Ensures P r → r ≡ ok x → P x
Ensures-eq-ok P (ok y) x h e = subst P (ok_injective e) h
Ensures-eq-ok P (err fault) x h e = cc

module _ (a : Arithmetic) where
  -- The tokens that were read are those of an expression of the level, with its value.
  abbrev Parsed : ℕ → Tokens → ℕ × Tokens → Type 0
  Parsed level ts (v, rest) =
      (e : Expr) × (level ≤ prec e) × (body e ++ rest ≡ ts) × (eval a e ≡ ok v)

  divided-Ensures : (v w : ℕ) → Ensures (λ q. divided a v w ≡ ok q) (divided a v w)
  unfolding divided
  divided-Ensures v w = ground arith

  infix-eq :
      (op : Token) (x y : Expr) (k l : ℕ) (ts rest : Tokens)
      → k ≤ prec x
      → l ≤ prec y
      → body y ++ rest ≡ ts
      → (show k x ++ op ∷ show l y) ++ rest ≡ body x ++ op ∷ ts
  infix-eq op x y k l ts rest h h' eq =
      rw (show-body k x h, show-body l y h', append_assoc (body x) (op ∷ body y) rest, eq)

  close-Ensures :
      (e : Expr) (v : ℕ) (ts rest : Tokens)
      → body e ++ rest ≡ ts
      → eval a e ≡ ok v
      → Ensures (Parsed 4 (l_paren ∷ ts)) (close v rest)
  unfolding prec body eval
  close-Ensures e v ts (r_paren ∷ rest) eq value =
      let inside =
        append_assoc (show 0 e) (r_paren ∷ []) rest
        ∙ ap (λ ts. ts ++ r_paren ∷ rest) (show-body 0 e (omega arith)) in
      (group e, omega arith, ap (◌∷◌ l_paren) (inside ∙ eq), value)
  close-Ensures e v ts _ eq value = tt

  widen : (ts : Tokens) (r : Read) → Ensures (Parsed 3 ts) r → Ensures (Parsed 2 ts) r
  widen ts (ok (v, rest)) (e, level, eq, value) = (e, omega arith, eq, value)
  widen ts (err fault) h = h

  mutual
    unfolding expression prec body eval

    expression-Ensures :
        (f : ℕ) (ts : Tokens) → 6 * length ts + 5 ≤ f → Ensures (Parsed 0 ts) (expression a f ts)
    expression-Ensures zero ts h = absurd (omega arith)
    expression-Ensures (suc f) ts h =
        Ensures-bind (Parsed 1 ts) (Parsed 0 ts) (term a f ts) _ (term-Ensures f ts (omega arith))
          λ (v, rest) (e, level, eq, value).
            subst (λ t. Ensures (Parsed 0 t) (expression_more a f v rest)) eq
              (expression_more-Ensures f v rest e (omega (lengths, ap length eq, length-body_pos e))
                value)

    expression_more-Ensures :
        (f v : ℕ) (ts : Tokens) (e : Expr)
        → 6 * length ts + 1 ≤ f
        → eval a e ≡ ok v
        → Ensures (Parsed 0 (body e ++ ts)) (expression_more a f v ts)
    expression_more-Ensures zero v ts e h value = absurd (omega arith)
    expression_more-Ensures (suc f) v (plus ∷ ts) e h value =
        Ensures-bind (Parsed 1 ts) (Parsed 0 (body e ++ plus ∷ ts)) (term a f ts) _
          (term-Ensures f ts (omega arith))
          λ (w, rest) (e', level, eq, value').
            subst (λ t. Ensures (Parsed 0 t) (expression_more a f (a.add v w) rest))
              (infix-eq plus e e' 0 1 ts rest (omega arith) level eq)
              (expression_more-Ensures f (a.add v w) rest (add e e') (omega (lengths, ap length eq))
                (rw (value, value')))
    expression_more-Ensures (suc f) v (minus ∷ ts) e h value =
        Ensures-bind (Parsed 1 ts) (Parsed 0 (body e ++ minus ∷ ts)) (term a f ts) _
          (term-Ensures f ts (omega arith))
          λ (w, rest) (e', level, eq, value').
            subst (λ t. Ensures (Parsed 0 t) (expression_more a f (a.sub v w) rest))
              (infix-eq minus e e' 0 1 ts rest (omega arith) level eq)
              (expression_more-Ensures f (a.sub v w) rest (sub e e') (omega (lengths, ap length eq))
                (rw (value, value')))
    expression_more-Ensures (suc f) v _ e h value = (e, omega arith, refl, value)

    term-Ensures :
        (f : ℕ) (ts : Tokens) → 6 * length ts + 4 ≤ f → Ensures (Parsed 1 ts) (term a f ts)
    term-Ensures zero ts h = absurd (omega arith)
    term-Ensures (suc f) ts h =
        Ensures-bind (Parsed 2 ts) (Parsed 1 ts) (unary a f ts) _ (unary-Ensures f ts (omega arith))
          λ (v, rest) (e, level, eq, value).
            subst (λ t. Ensures (Parsed 1 t) (term_more a f v rest)) eq
              (term_more-Ensures f v rest e (omega (lengths, ap length eq, length-body_pos e))
                (omega arith) value)

    term_more-Ensures :
        (f v : ℕ) (ts : Tokens) (e : Expr)
        → 6 * length ts + 1 ≤ f
        → 1 ≤ prec e
        → eval a e ≡ ok v
        → Ensures (Parsed 1 (body e ++ ts)) (term_more a f v ts)
    term_more-Ensures zero v ts e h above value = absurd (omega arith)
    term_more-Ensures (suc f) v (star ∷ ts) e h above value =
        Ensures-bind (Parsed 2 ts) (Parsed 1 (body e ++ star ∷ ts)) (unary a f ts) _
          (unary-Ensures f ts (omega arith))
          λ (w, rest) (e', level, eq, value').
            subst (λ t. Ensures (Parsed 1 t) (term_more a f (a.mul v w) rest))
              (infix-eq star e e' 1 2 ts rest above level eq)
              (term_more-Ensures f (a.mul v w) rest (mul e e') (omega (lengths, ap length eq))
                (omega arith) (rw (value, value')))
    term_more-Ensures (suc f) v (slash ∷ ts) e h above value =
        Ensures-bind (Parsed 2 ts) (Parsed 1 (body e ++ slash ∷ ts)) (unary a f ts) _
          (unary-Ensures f ts (omega arith))
          λ (w, rest) (e', level, eq, value').
            Ensures-bind (λ q. divided a v w ≡ ok q) (Parsed 1 (body e ++ slash ∷ ts))
              (divided a v w) _ (divided-Ensures v w)
              λ q quotient.
                subst (λ t. Ensures (Parsed 1 t) (term_more a f q rest))
                  (infix-eq slash e e' 1 2 ts rest above level eq)
                  (term_more-Ensures f q rest (div e e') (omega (lengths, ap length eq))
                    (omega arith) (rw (value, value', quotient)))
    term_more-Ensures (suc f) v _ e h above value = (e, above, refl, value)

    unary-Ensures :
        (f : ℕ) (ts : Tokens) → 6 * length ts + 3 ≤ f → Ensures (Parsed 2 ts) (unary a f ts)
    unary-Ensures zero ts h = absurd (omega arith)
    unary-Ensures (suc f) (minus ∷ ts) h =
        Ensures-bind (Parsed 2 ts) (Parsed 2 (minus ∷ ts)) (unary a f ts) _
          (unary-Ensures f ts (omega arith))
          λ (v, rest) (e, level, eq, value).
            (neg e, omega arith, rw (show-body 2 e level, eq), rw value)
    unary-Ensures (suc f) ts h = widen ts (power a f ts) (power-Ensures f ts (omega arith))

    power-Ensures :
        (f : ℕ) (ts : Tokens) → 6 * length ts + 2 ≤ f → Ensures (Parsed 3 ts) (power a f ts)
    power-Ensures zero ts h = absurd (omega arith)
    power-Ensures (suc f) ts h =
        Ensures-bind (Parsed 4 ts) (Parsed 3 ts) (atom a f ts) _ (atom-Ensures f ts (omega arith))
          λ (v, rest) (e, level, eq, value).
            subst (λ t. Ensures (Parsed 3 t) (power_of a f v rest)) eq
              (power_of-Ensures f v rest e (omega (lengths, ap length eq, length-body_pos e)) level
                value)

    power_of-Ensures :
        (f v : ℕ) (ts : Tokens) (e : Expr)
        → 6 * length ts + 1 ≤ f
        → 4 ≤ prec e
        → eval a e ≡ ok v
        → Ensures (Parsed 3 (body e ++ ts)) (power_of a f v ts)
    power_of-Ensures zero v ts e h above value = absurd (omega arith)
    power_of-Ensures (suc f) v (caret ∷ ts) e h above value =
        Ensures-bind (Parsed 2 ts) (Parsed 3 (body e ++ caret ∷ ts)) (unary a f ts) _
          (unary-Ensures f ts (omega arith))
          λ (w, rest) (e', level, eq, value'). (
            pow e e',
            omega arith,
            infix-eq caret e e' 4 2 ts rest above level eq,
            rw (value, value'),
          )
    power_of-Ensures (suc f) v _ e h above value = (e, omega arith, refl, value)

    atom-Ensures :
        (f : ℕ) (ts : Tokens) → 6 * length ts + 1 ≤ f → Ensures (Parsed 4 ts) (atom a f ts)
    atom-Ensures zero ts h = absurd (omega arith)
    atom-Ensures (suc f) [] h = tt
    atom-Ensures (suc f) (num n ∷ ts) h = (lit n, omega arith, refl, refl)
    atom-Ensures (suc f) (l_paren ∷ ts) h =
        Ensures-bind (Parsed 0 ts) (Parsed 4 (l_paren ∷ ts)) (expression a f ts) _
          (expression-Ensures f ts (omega arith))
          λ (v, rest) (e, level, eq, value). close-Ensures e v ts rest eq value
    atom-Ensures (suc f) (t ∷ ts) h = tt

  at_end-Ensures :
      (ts : Tokens) (r : ℕ × Tokens)
      → Parsed 0 ts r
      → Ensures (λ v. (e : Expr) × (show 0 e ≡ ts) × (eval a e ≡ ok v)) (at_end r)
  at_end-Ensures ts (v, []) (e, level, eq, value) =
      (e, show-body 0 e level ∙ sym (append-nil (body e)) ∙ eq, value)
  at_end-Ensures ts (v, t ∷ rest) h = tt

  pub parse-Ensures :
      (ts : Tokens) → Ensures (λ v. (e : Expr) × (show 0 e ≡ ts) × (eval a e ≡ ok v)) (parse a ts)
  unfolding parse
  parse-Ensures [] = tt
  parse-Ensures (t ∷ ts) =
      Ensures-bind (Parsed 0 (t ∷ ts)) (λ v. (e : Expr) × (show 0 e ≡ t ∷ ts) × (eval a e ≡ ok v))
        (expression a (6 * length (t ∷ ts) + 6) (t ∷ ts)) at_end
        (expression-Ensures (6 * length (t ∷ ts) + 6) (t ∷ ts) (omega arith))
        (at_end-Ensures (t ∷ ts))

  -- The parser ends on every list of tokens: its fuel is enough.
  pub parse-ne-out_of_fuel : (ts : Tokens) → parse a ts ≢ err out_of_fuel
  parse-ne-out_of_fuel ts = Ensures-ne _ (parse a ts) (parse-Ensures ts)

  pub parse_sound :
      (ts : Tokens) (v : ℕ) → parse a ts ≡ ok v → (e : Expr) × (show 0 e ≡ ts) × (eval a e ≡ ok v)
  parse_sound ts v h = Ensures-eq-ok _ (parse a ts) v (parse-Ensures ts) h
