-- ===== src/Client/Order.antt =====
-- The order in which the addresses of a provider are tried.
use galax_ia_sdk.Prelude.{
  ◌≡◌, refl, ap, ◌∙◌, Bool, true, false, List, [], ◌∷◌, ◌++◌, if◌then◌else◌, Bool-cases, inl, inr,
  All, not,
}
use galax_ia_sdk.Prelude.Lex.{lex_lt}
use galax_ia_sdk.Prelude.Sort.{sort_on, place}
use galax_ia_sdk.Text.{Text}
use galax_ia_sdk.Client.{is_loopback}
use galax_ia_sdk.Client.Dial.{loopback_key, ordered}

-- the addresses that pass a test, in their order
unfoldable pub select : (Text → Bool) → List Text → List Text
select p [] = []
select p (a ∷ addrs) = let rest = select p addrs in if p a then a ∷ rest else rest

abbrev pub far : Text → Bool
far a = not (is_loopback a)

-- an address that is not loopback goes to the front
place-far : (x : Text) (l : List Text) → is_loopback x ≡ false → place loopback_key x l ≡ x ∷ l
unfolding place lex_lt
place-far x [] h = refl
place-far x (y ∷ l) h = rw h (go (is_loopback y))
  where
    go :
        (b : Bool)
        → (if lex_lt (if b then 1 ∷ [] else 0 ∷ []) (0 ∷ [])
            then y ∷ place loopback_key x l
            else x ∷ y ∷ l)
          ≡ x ∷ y ∷ l
    go true = refl
    go false = refl

-- a loopback address goes behind those that are not
place-near :
    (x : Text) (a b : List Text)
    → is_loopback x ≡ true
    → All (λ y. is_loopback y ≡ false) a
    → All (λ y. is_loopback y ≡ true) b
    → place loopback_key x (a ++ b) ≡ a ++ x ∷ b
unfolding place lex_lt
place-near x [] [] h p q = refl
place-near x [] (y ∷ b) h p (q, qs) = rw (h, q) refl
place-near x (y ∷ a) b h (p, ps) q = rw (h, p) (ap (◌∷◌ y) (place-near x a b h ps q))

select-All : (p : Text → Bool) (addrs : List Text) → All (λ y. p y ≡ true) (select p addrs)
unfolding select
select-All p [] = tt
select-All p (a ∷ addrs) = elim (Bool-cases (p a)) [
  | inl holds ↦ rw holds (holds, select-All p addrs)
  | inr fails ↦ rw fails (select-All p addrs)
]

All-not : (l : List Text) → All (λ y. far y ≡ true) l → All (λ y. is_loopback y ≡ false) l
All-not [] h = tt
All-not (y ∷ l) (p, h) = (negated (is_loopback y) p, All-not l h)
  where
    negated : (b : Bool) → not b ≡ true → b ≡ false
    negated true e = cc
    negated false e = refl

-- The addresses that are not loopback are tried first, then those that are, each group in the order
-- in which they were announced.
pub ordered-partition :
    (addrs : List Text) → ordered addrs ≡ select far addrs ++ select is_loopback addrs
unfolding ordered sort_on select
ordered-partition [] = refl
ordered-partition (a ∷ addrs) = elim (Bool-cases (is_loopback a)) [
  | inl near ↦ rw near (
      ap (place loopback_key a) (ordered-partition addrs)
      ∙ place-near a (select far addrs) (select is_loopback addrs) near
          (All-not (select far addrs) (select-All far addrs)) (select-All is_loopback addrs))
  | inr away ↦ rw away (
      ap (place loopback_key a) (ordered-partition addrs)
      ∙ place-far a (select far addrs ++ select is_loopback addrs) away)
]
