-- ===== src/Calculator/Fuel.antt =====
-- The calculator in packages/satellite-capabilities-wasm/src/lib.rs ends on every text: each round of
-- the tokenizer takes a character, and the fuel of the parser is enough.
use galax_ia_sdk.Prelude.{ℕ, zero, suc, ◌+◌, ◌≤◌, ◌≡◌, ◌≢◌, refl, true, [], ◌∷◌, arith, length}
use galax_ia_sdk.Prelude.Result.{Result, ok, err, ◌>>=◌}
use galax_ia_sdk.Text.{Text}
use galax_ia_sdk.Calculator.{
  Arithmetic, Token, Tokens, num, Fault, out_of_fuel, CharKind, blank, sign, numeral, unknown,
  is_numeral, kind_of, run_of, after_run, number_of, tokenize_from, tokenize, parse, finite,
  solve_expression,
}
use galax_ia_sdk.Calculator.Accepts.{Ensures, Ensures-bind, Ensures-ne, parse-Ensures}

length-after_run : (cs : Text) → length (after_run cs) ≤ length cs
unfolding after_run
length-after_run [] = omega arith
length-after_run (c ∷ cs) = ground (arith, length-after_run cs)

numeral-is_numeral : (c : ℕ) → kind_of c ≡ numeral → is_numeral c ≡ true
unfolding kind_of
numeral-is_numeral c h = ground arith

-- a round that reads a number takes a character at least
after_run_shorter :
    (c : ℕ) (cs : Text) → kind_of c ≡ numeral → length (after_run (c ∷ cs)) ≤ length cs
unfolding after_run
after_run_shorter c cs h = ground (arith, length-after_run cs, numeral-is_numeral c h)

module _ (a : Arithmetic) where
  number_of-Ensures : (raw : Text) → Ensures (λ v. Unit) (number_of a raw)
  unfolding number_of
  number_of-Ensures raw = ground arith

  abbrev Ends : ℕ → ℕ → Text → Type 0
  Ends f i text = Ensures (λ (ts : Tokens). Unit {0}) (tokenize_from a f i text)

  pushed-Ensures :
      (t : Token) (r : Result Tokens Fault)
      → Ensures (λ ts. Unit) r
      → Ensures (λ ts. Unit) (r >>= λ ts. ok (t ∷ ts))
  pushed-Ensures t (ok ts) h = tt
  pushed-Ensures t (err e) h = h

  round-Ensures :
      (f i c : ℕ) (cs : Text) (k : CharKind)
      → kind_of c ≡ k
      → length cs ≤ f
      → ((j : ℕ) (text : Text) → length text ≤ f → Ends f j text)
      → Ends (suc f) i (c ∷ cs)
  unfolding tokenize_from
  round-Ensures f i c cs blank e enough next = rw (e, tokenize_from) (next (suc i) cs enough)
  round-Ensures f i c cs (sign t) e enough next =
      rw (e, tokenize_from)
        (pushed-Ensures t (tokenize_from a f (suc i) cs) (next (suc i) cs enough))
  round-Ensures f i c cs numeral e enough next =
      rw (e, tokenize_from)
        (Ensures-bind (λ v. Unit) (λ ts. Unit) (number_of a (run_of (c ∷ cs))) _
          (number_of-Ensures (run_of (c ∷ cs)))
          λ v h.
            pushed-Ensures (num v)
              (tokenize_from a f (i + length (run_of (c ∷ cs))) (after_run (c ∷ cs)))
              (next (i + length (run_of (c ∷ cs))) (after_run (c ∷ cs))
                (omega (arith, after_run_shorter c cs e))))
  round-Ensures f i c cs unknown e enough next = rw (e, tokenize_from) tt

  tokenize_from-Ensures : (f i : ℕ) (text : Text) → length text ≤ f → Ends f i text
  unfolding tokenize_from
  tokenize_from-Ensures f i [] enough = tt
  tokenize_from-Ensures zero i (c ∷ cs) enough = absurd (omega arith)
  tokenize_from-Ensures (suc f) i (c ∷ cs) enough =
      round-Ensures f i c cs (kind_of c) refl (omega arith)
        (λ j text h. tokenize_from-Ensures f j text h)

  -- The calculator answers every text: each round of the tokenizer takes a character, and the
  -- calls of the parser end.
  pub solve_expression-ne-out_of_fuel : (expr : Text) → solve_expression a expr ≢ err out_of_fuel
  unfolding solve_expression tokenize
  solve_expression-ne-out_of_fuel expr =
      Ensures-ne (λ v. Unit) (solve_expression a expr)
        (Ensures-bind (λ ts. Unit) (λ v. Unit) (tokenize a expr) _
          (tokenize_from-Ensures (length expr) 0 expr (omega arith))
          λ ts h.
            Ensures-bind _ (λ v. Unit) (parse a ts) finite (parse-Ensures a ts)
              λ v h. finite-Ensures v)
    where
      finite-Ensures : (v : ℕ) → Ensures (λ v. Unit) (finite v)
      finite-Ensures v = ground arith
