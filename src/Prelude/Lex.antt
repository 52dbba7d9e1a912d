-- ===== src/Prelude/Lex.antt =====
-- Lists of numbers compared in lexicographic order, as Rust compares byte slices.
use galax_ia_sdk.Prelude.{
  ℕ, ◌≡◌, refl, Bool, true, false, List, [], ◌∷◌, arith, ltb, ◌==◌, if◌then◌else◌, ◌&&◌, ◌↔◌,
}

-- `a < b` on slices
unfoldable pub lex_lt : List ℕ → List ℕ → Bool
lex_lt [] [] = false
lex_lt [] (y ∷ ys) = true
lex_lt (x ∷ xs) [] = false
lex_lt (x ∷ xs) (y ∷ ys) = if ltb x y then true else if x == y then lex_lt xs ys else false

-- `a == b` on slices and on strings
unfoldable pub list_eq : List ℕ → List ℕ → Bool
list_eq [] [] = true
list_eq [] (y ∷ ys) = false
list_eq (x ∷ xs) [] = false
list_eq (x ∷ xs) (y ∷ ys) = x == y && list_eq xs ys

pub list_eq_iff : (xs ys : List ℕ) → (list_eq xs ys ≡ true) ↔ (xs ≡ ys)
unfolding list_eq
list_eq_iff [] [] = ground arith
list_eq_iff [] (y ∷ ys) = ground arith
list_eq_iff (x ∷ xs) [] = ground arith
list_eq_iff (x ∷ xs) (y ∷ ys) = ground (arith, list_eq_iff xs ys)

pub list_eq_self : (xs : List ℕ) → list_eq xs xs ≡ true
list_eq_self xs = (list_eq_iff xs xs).1 refl

pub lex_lt_irrefl : (xs : List ℕ) → lex_lt xs xs ≡ false
unfolding lex_lt
lex_lt_irrefl [] = refl
lex_lt_irrefl (x ∷ xs) = ground (arith, lex_lt_irrefl xs)

pub lex_lt_trans :
    (xs ys zs : List ℕ) → lex_lt xs ys ≡ true → lex_lt ys zs ≡ true → lex_lt xs zs ≡ true
unfolding lex_lt
lex_lt_trans [] [] zs p q = ground arith
lex_lt_trans [] (y ∷ ys) [] p q = ground arith
lex_lt_trans [] (y ∷ ys) (z ∷ zs) p q = refl
lex_lt_trans (x ∷ xs) [] zs p q = ground arith
lex_lt_trans (x ∷ xs) (y ∷ ys) [] p q = ground arith
lex_lt_trans (x ∷ xs) (y ∷ ys) (z ∷ zs) p q = ground (arith, lex_lt_trans xs ys zs)

-- Neither is below the other only when they are equal.
pub lex_lt_total : (xs ys : List ℕ) → lex_lt xs ys ≡ false → lex_lt ys xs ≡ false → xs ≡ ys
unfolding lex_lt
lex_lt_total [] [] p q = refl
lex_lt_total [] (y ∷ ys) p q = ground arith
lex_lt_total (x ∷ xs) [] p q = ground arith
lex_lt_total (x ∷ xs) (y ∷ ys) p q = ground (arith, lex_lt_total xs ys)
