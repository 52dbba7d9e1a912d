-- ===== src/Prelude/Result.antt =====
-- Rust's `Result`, its `?` operator as a bind, and checked arithmetic.
use galax_ia_sdk.Prelude.{
  ℕ, ◌-◌, ◌≡◌, refl, Bool, true, false, Option, none, some, leb, if◌then◌else◌,
}

pub data Result {ℓ} (A E : Type ℓ) : Type ℓ where
  ok : A → Result A E
  err : E → Result A E

module _ {ℓ} {A B E : Type ℓ} where
  infixl 5 ◌>>=◌
  abbrev pub ◌>>=◌ : Result A E → (A → Result B E) → Result B E
  ok a >>= f = f a
  err e >>= f = err e

  -- A chain that succeeds had a first part that did.
  pub >>=-eq-ok :
      {y : B} (r : Result A E) (k : A → Result B E)
      → (r >>= k) ≡ ok y
      → (x : A) × (r ≡ ok x) × (k x ≡ ok y)
  >>=-eq-ok (err why) k p = cc
  >>=-eq-ok (ok x) k p = (x, refl, p)

module _ {ℓ} {A E : Type ℓ} where
  abbrev pub ok_or : Option A → E → Result A E
  ok_or none e = err e
  ok_or (some a) e = ok a

  abbrev pub is_ok : Result A E → Bool
  is_ok (ok a) = true
  is_ok (err e) = false

module _ {ℓ} {A E : Type ℓ} where
  -- A guarded result that is a success passed its guard.
  pub passed :
      (b : Bool) (e : E) (r : Result A E) {y : A}
      → (if b then err e else r) ≡ ok y
      → (b ≡ false) × (r ≡ ok y)
  passed true e r p = cc
  passed false e r p = (refl, p)

  pub ok_injective : {x y : A} → Path (Result A E) (ok x) (ok y) → x ≡ y
  ok_injective p = cc

-- `a - b` on an unsigned integer: the program panics (debug) or wraps (release) at `none`.
abbrev pub checked_sub : ℕ → ℕ → Option ℕ
checked_sub a b = if leb b a then some (a - b) else none
