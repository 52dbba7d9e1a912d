-- ===== src/Prelude/Sort.antt =====
-- `sort_by` with a comparison of byte strings: a stable insertion sort on a key.
use galax_ia_sdk.Prelude.{
  ℕ, ◌≡◌, ◌≢◌, refl, ap, ◌∙◌, Bool, true, false, List, [], ◌∷◌, map, arith, if◌then◌else◌, All,
  length, suc,
}
use galax_ia_sdk.Prelude.Lex.{lex_lt, lex_lt_irrefl, lex_lt_trans, lex_lt_total}

module _ {ℓ} {A : Type ℓ} (key : A → List ℕ) where
  unfoldable pub place : A → List A → List A
  place x [] = x ∷ []
  place x (y ∷ ys) = if lex_lt (key y) (key x) then y ∷ place x ys else x ∷ y ∷ ys

  unfoldable pub sort_on : List A → List A
  unfolding place
  sort_on [] = []
  sort_on (x ∷ xs) = place x (sort_on xs)

  -- Rearrangements: neighbours with different keys change places.
  pub data Shuffle : List A → List A → Type ℓ where
    nil : Shuffle [] []
    skip : (x : A) {xs ys : List A} → Shuffle xs ys → Shuffle (x ∷ xs) (x ∷ ys)
    swap : (x y : A) (xs : List A) → key x ≢ key y → Shuffle (x ∷ y ∷ xs) (y ∷ x ∷ xs)
    trans : {xs ys zs : List A} → Shuffle xs ys → Shuffle ys zs → Shuffle xs zs

  place_comm : (x y : A) (xs : List A) → key x ≢ key y → place x (place y xs) ≡ place y (place x xs)
  unfolding place
  place_comm x y [] ne = ground (
    arith,
    lex_lt_total (key x) (key y),
    lex_lt_trans (key x) (key y) (key x),
    lex_lt_irrefl (key x),
  )
  place_comm x y (z ∷ zs) ne = ground (
    arith,
    place_comm x y zs ne,
    lex_lt_total (key x) (key y),
    lex_lt_trans (key x) (key y) (key x),
    lex_lt_irrefl (key x),
    lex_lt_trans (key z) (key x) (key y),
    lex_lt_trans (key z) (key y) (key x),
  )

  -- The order of the input does not matter.
  pub sort_on-Shuffle : {xs ys : List A} → Shuffle xs ys → sort_on xs ≡ sort_on ys
  unfolding sort_on
  sort_on-Shuffle nil = refl
  sort_on-Shuffle (skip x s) = ap (place x) (sort_on-Shuffle s)
  sort_on-Shuffle (swap x y xs ne) = place_comm x y (sort_on xs) ne
  sort_on-Shuffle (trans s t) = sort_on-Shuffle s ∙ sort_on-Shuffle t

  module _ {κ} (P : A → Type κ) where
    place-All : (x : A) (xs : List A) → P x → All P xs → All P (place x xs)
    unfolding place
    place-All x [] p h = (p, tt)
    place-All x (y ∷ ys) p (q, h) = go (lex_lt (key y) (key x)) (place-All x ys p h)
      where
        go : (b : Bool) → All P (place x ys) → All P (if b then y ∷ place x ys else x ∷ y ∷ ys)
        go true ih = (q, ih)
        go false ih = (p, (q, h))

    pub sort_on-All : (xs : List A) → All P xs → All P (sort_on xs)
    unfolding sort_on
    sort_on-All [] h = tt
    sort_on-All (x ∷ xs) (p, h) = place-All x (sort_on xs) p (sort_on-All xs h)

  length-place : (x : A) (xs : List A) → length (place x xs) ≡ suc (length xs)
  unfolding place
  length-place x [] = refl
  length-place x (y ∷ ys) = ground (arith, length-place x ys)

  pub length-sort_on : (xs : List A) → length (sort_on xs) ≡ length xs
  unfolding sort_on
  length-sort_on [] = refl
  length-sort_on (x ∷ xs) = length-place x (sort_on xs) ∙ ap suc (length-sort_on xs)

-- Sorting goes through a map that keeps the keys.
module _ {ℓ κ} {A : Type ℓ} {B : Type κ} (key : A → List ℕ) (key' : B → List ℕ) (f : A → B)
    (same : (a : A) → key' (f a) ≡ key a) where
  map-place : (x : A) (xs : List A) → map f (place key x xs) ≡ place key' (f x) (map f xs)
  unfolding place
  map-place x [] = refl
  map-place x (y ∷ ys) = rw (same x, same y) (go (lex_lt (key y) (key x)) (map-place x ys))
    where
      go :
          (b : Bool)
          → map f (place key x ys) ≡ place key' (f x) (map f ys)
          → map f (if b then y ∷ place key x ys else x ∷ y ∷ ys)
            ≡ (if b then f y ∷ place key' (f x) (map f ys) else f x ∷ f y ∷ map f ys)
      go true ih = ap (◌∷◌ (f y)) ih
      go false ih = refl

  pub map-sort_on : (xs : List A) → map f (sort_on key xs) ≡ sort_on key' (map f xs)
  unfolding sort_on
  map-sort_on [] = refl
  map-sort_on (x ∷ xs) = map-place x (sort_on key xs) ∙ ap (place key' (f x)) (map-sort_on xs)

-- Sorting leaves an ascending list as it is.
module _ {ℓ} {A : Type ℓ} (key : A → List ℕ) where
  abbrev pub Ascending : List A → Type 0
  Ascending [] = Unit
  Ascending (x ∷ xs) = All (λ y. lex_lt (key x) (key y) ≡ true) xs × Ascending xs

  place_first :
      (x : A) (xs : List A) → All (λ y. lex_lt (key x) (key y) ≡ true) xs → place key x xs ≡ x ∷ xs
  unfolding place
  place_first x [] h = refl
  place_first x (y ∷ ys) (h, more) =
      ground (arith, lex_lt_trans (key x) (key y) (key x), lex_lt_irrefl (key x))

  pub sort_on-Ascending : (xs : List A) → Ascending xs → sort_on key xs ≡ xs
  unfolding sort_on
  sort_on-Ascending [] h = refl
  sort_on-Ascending (x ∷ xs) (h, more) =
      ap (place key x) (sort_on-Ascending xs more) ∙ place_first x xs h
