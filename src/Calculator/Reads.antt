-- ===== src/Calculator/Reads.antt =====
-- How the parser of the calculator in packages/satellite-capabilities-wasm/src/lib.rs reads an
-- expression at each level of precedence, and where its loops stop.
use galax_ia_sdk.Prelude.{ℕ, zero, suc, ◌+◌, ◌*◌, ◌≤◌, ◌≡◌, refl, ◌∙◌, ◌∷◌, ◌++◌, arith, length}
use galax_ia_sdk.Prelude.Result.{Result, ok, err, ◌>>=◌}
use galax_ia_sdk.Calculator.{
  Arithmetic, Tokens, plus, minus, star, slash, caret, Fault, Read, expression, expression_more,
  term, term_more, unary, power, power_of, atom,
}
use galax_ia_sdk.Calculator.Syntax.{
  Expr, lit, group, add, sub, mul, div, neg, pow, prec, body, show, eval,
}

-- what stands behind a power, a product and a sum
abbrev pub NoCaret : Tokens → Type 0
NoCaret (caret ∷ ts) = ⊥
NoCaret _ = Unit

abbrev pub NoFactor : Tokens → Type 0
NoFactor (caret ∷ ts) = ⊥
NoFactor (star ∷ ts) = ⊥
NoFactor (slash ∷ ts) = ⊥
NoFactor _ = Unit

abbrev pub NoTerm : Tokens → Type 0
NoTerm (caret ∷ ts) = ⊥
NoTerm (star ∷ ts) = ⊥
NoTerm (slash ∷ ts) = ⊥
NoTerm (plus ∷ ts) = ⊥
NoTerm (minus ∷ ts) = ⊥
NoTerm _ = Unit

abbrev pub NoMinus : Tokens → Type 0
NoMinus (minus ∷ ts) = ⊥
NoMinus _ = Unit

pub factor_caret : (ts : Tokens) → NoFactor ts → NoCaret ts
factor_caret (caret ∷ ts) h = h
factor_caret _ h = tt

-- an atom does not begin with a sign
pub NoMinus-show : (e : Expr) (rest : Tokens) → NoMinus (show 4 e ++ rest)
unfolding body prec
NoMinus-show (lit n) rest = tt
NoMinus-show (group e) rest = tt
NoMinus-show (add x y) rest = tt
NoMinus-show (sub x y) rest = tt
NoMinus-show (mul x y) rest = tt
NoMinus-show (div x y) rest = tt
NoMinus-show (neg x) rest = tt
NoMinus-show (pow x y) rest = tt

pub bind_cong :
    (r : Result ℕ Fault) (k k' : ℕ → Read) → ((v : ℕ) → k v ≡ k' v) → (r >>= k) ≡ (r >>= k')
bind_cong (ok v) k k' h = h v
bind_cong (err e) k k' h = refl

-- One value and its rest, or two, go on alike.
pub one :
    (r : Result ℕ Fault) (s : Read) (rest : Tokens) (k : ℕ → Tokens → Read)
    → s ≡ (r >>= λ v. ok (v, rest))
    → (s >>= λ q. k q.0 q.1) ≡ (r >>= λ v. k v rest)
one (ok v) s rest k e = rw e
one (err fault) s rest k e = rw e

pub two :
    (r r' : Result ℕ Fault) (s : Read) (rest : Tokens) (op : ℕ → ℕ → Result ℕ Fault)
    (k : ℕ → Tokens → Read)
    → s ≡ (r' >>= λ v. ok (v, rest))
    → (r >>= λ u. s >>= λ q. op u q.0 >>= λ w. k w q.1)
      ≡ ((r >>= λ u. r' >>= λ v. op u v) >>= λ w. k w rest)
two (err fault) r' s rest op k e = refl
two (ok u) (ok v) s rest op k e = rw e
two (ok u) (err fault) s rest op k e = rw e

module _ (a : Arithmetic) where
  pub power_of_stops :
      (f v : ℕ) (rest : Tokens) → NoCaret rest → 1 ≤ f → power_of a f v rest ≡ ok (v, rest)
  unfolding expression
  power_of_stops zero v rest h p = absurd (omega arith)
  power_of_stops (suc f) v (caret ∷ rest) h p = elim h [ ]
  power_of_stops (suc f) v _ h p = refl

  pub term_more_stops :
      (f v : ℕ) (rest : Tokens) → NoFactor rest → 1 ≤ f → term_more a f v rest ≡ ok (v, rest)
  unfolding expression
  term_more_stops zero v rest h p = absurd (omega arith)
  term_more_stops (suc f) v (star ∷ rest) h p = elim h [ ]
  term_more_stops (suc f) v (slash ∷ rest) h p = elim h [ ]
  term_more_stops (suc f) v _ h p = refl

  pub expression_more_stops :
      (f v : ℕ) (rest : Tokens) → NoTerm rest → 1 ≤ f → expression_more a f v rest ≡ ok (v, rest)
  unfolding expression
  expression_more_stops zero v rest h p = absurd (omega arith)
  expression_more_stops (suc f) v (plus ∷ rest) h p = elim h [ ]
  expression_more_stops (suc f) v (minus ∷ rest) h p = elim h [ ]
  expression_more_stops (suc f) v _ h p = refl

  pub unary-power : (f : ℕ) (ts : Tokens) → NoMinus ts → unary a (suc f) ts ≡ power a f ts
  unfolding expression
  unary-power f (minus ∷ ts) h = elim h [ ]
  unary-power f _ h = refl

  abbrev pub Whole : Expr → Tokens → Read
  Whole e rest = eval a e >>= λ v. ok (v, rest)

  abbrev pub ReadsAtom : Expr → Type 0
  ReadsAtom e =
      (f : ℕ) (rest : Tokens)
      → 6 * length (show 4 e ++ rest) + 1 ≤ f
      → atom a f (show 4 e ++ rest) ≡ Whole e rest

  abbrev pub ReadsPower : Expr → Type 0
  ReadsPower e =
      (f : ℕ) (rest : Tokens)
      → NoCaret rest
      → 6 * length (show 3 e ++ rest) + 2 ≤ f
      → power a f (show 3 e ++ rest) ≡ Whole e rest

  abbrev pub ReadsUnary : Expr → Type 0
  ReadsUnary e =
      (f : ℕ) (rest : Tokens)
      → NoCaret rest
      → 6 * length (show 2 e ++ rest) + 3 ≤ f
      → unary a f (show 2 e ++ rest) ≡ Whole e rest

  -- A loop goes on behind the first operands with the fuel that is left.
  abbrev pub ReadsTerm : Expr → Type 0
  ReadsTerm e =
      (f : ℕ) (rest : Tokens)
      → NoCaret rest
      → 6 * length (show 1 e ++ rest) + 4 ≤ f
      → (g : ℕ) × (6 * length rest + 1 ≤ g)
        × (term a f (show 1 e ++ rest) ≡ (eval a e >>= λ v. term_more a g v rest))

  abbrev pub ReadsSum : Expr → Type 0
  ReadsSum e =
      (f : ℕ) (rest : Tokens)
      → NoFactor rest
      → 6 * length (show 0 e ++ rest) + 5 ≤ f
      → (g : ℕ) × (6 * length rest + 1 ≤ g)
        × (expression a f (show 0 e ++ rest) ≡ (eval a e >>= λ v. expression_more a g v rest))

  pub term_complete :
      (e : Expr)
      → ReadsTerm e
      → (f : ℕ) (rest : Tokens) → NoFactor rest
      → 6 * length (show 1 e ++ rest) + 4 ≤ f
      → term a f (show 1 e ++ rest) ≡ Whole e rest
  term_complete e reads f rest h enough =
      let (g, left, eq) = reads f rest (factor_caret rest h) enough in
      eq ∙ bind_cong (eval a e) _ _ (λ v. term_more_stops g v rest h (omega arith))

  pub sum_complete :
      (e : Expr)
      → ReadsSum e
      → (f : ℕ) (rest : Tokens) → NoTerm rest
      → NoFactor rest
      → 6 * length (show 0 e ++ rest) + 5 ≤ f
      → expression a f (show 0 e ++ rest) ≡ Whole e rest
  sum_complete e reads f rest h h' enough =
      let (g, left, eq) = reads f rest h' enough in
      eq ∙ bind_cong (eval a e) _ _ (λ v. expression_more_stops g v rest h (omega arith))
