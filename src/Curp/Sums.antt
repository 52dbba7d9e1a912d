-- ===== src/Curp/Sums.antt =====
-- The weighted sum of a population key, described by itself.
use galax_ia_sdk.Prelude.{
  ℕ, zero, suc, ◌+◌, ◌-◌, ◌*◌, ◌≤◌, ◌≡◌, ◌⊎◌, inl, inr, refl, ap, sym, ◌∙◌, Option, none, some,
  List, [], ◌∷◌, arith, length, leb, ◌==◌, ◌&&◌, Bool-cases,
}
use galax_ia_sdk.Text.{Text}
use galax_ia_sdk.Curp.{is_ascii_digit, checksum_value, plus_value, weighted}

-- What a character counts: the digits, the letters up to N, the sign for the Spanish letter behind
-- it, and the letters from O on.
abbrev pub Value : ℕ → ℕ → Type 0
Value c v =
    ((48 ≤ c) × (c ≤ 57) × (v + 48 ≡ c))
    ⊎ (((65 ≤ c) × (c ≤ 78) × (v + 55 ≡ c))
        ⊎ (((c ≡ 38) × (v ≡ 24)) ⊎ ((79 ≤ c) × (c ≤ 90) × (v + 54 ≡ c))))

abbrev pub Values : Text → List ℕ → Type 0
Values [] [] = Unit
Values [] (v ∷ vs) = ⊥
Values (c ∷ cs) [] = ⊥
Values (c ∷ cs) (v ∷ vs) = Value c v × Values cs vs

abbrev pub weights : List ℕ
weights = 18 ∷ 17 ∷ 16 ∷ 15 ∷ 14 ∷ 13 ∷ 12 ∷ 11 ∷ 10 ∷ 9 ∷ 8 ∷ 7 ∷ 6 ∷ 5 ∷ 4 ∷ 3 ∷ 2 ∷ []

abbrev pub dot : List ℕ → List ℕ → ℕ
dot [] vs = 0
dot (w ∷ ws) [] = 0
dot (w ∷ ws) (v ∷ vs) = v * w + dot ws vs

some_injective : {x y : ℕ} → Path (Option ℕ) (some x) (some y) → x ≡ y
some_injective p = cc

checksum_value-Value : (c v : ℕ) → checksum_value c ≡ some v → Value c v
unfolding checksum_value
checksum_value-Value c v h = elim (Bool-cases (is_ascii_digit c)) [
  | inl digit ↦
      let same : c - 48 ≡ v = some_injective (rw digit at h) in
      inl (ground arith, ground arith, ground arith)
  | inr n1 ↦ elim (Bool-cases (leb 65 c && leb c 78)) [
    | inl early ↦
        let same : 10 + (c - 65) ≡ v = some_injective (rw (n1, early) at h) in
        inr (inl (ground arith, ground arith, ground arith))
    | inr n2 ↦ elim (Bool-cases (c == 38)) [
      | inl sign ↦
          let same : 24 ≡ v = some_injective (rw (n1, n2, sign) at h) in
          inr (inr (inl (ground arith, ground arith)))
      | inr n3 ↦ elim (Bool-cases (leb 79 c && leb c 90)) [
        | inl late ↦
            let same : 25 + (c - 79) ≡ v = some_injective (rw (n1, n2, n3, late) at h) in
            inr (inr (inr (ground arith, ground arith, ground arith)))
        | inr n4 ↦ absurd (none_some (rw (n1, n2, n3, n4) at h))
      ]
    ]
  ]
]
  where
    none_some : Path (Option ℕ) none (some v) → ⊥
    none_some q = cc

-- weights that go down from `w`
abbrev pub down : ℕ → ℕ → List ℕ
down zero w = []
down (suc n) w = w ∷ down n (w - 1)

pub weighted-dot :
    (t : Text) (w s : ℕ)
    → weighted w t ≡ some s
    → (vs : List ℕ) × Values t vs × (s ≡ dot (down (length t) w) vs)
unfolding weighted
weighted-dot [] w s h = ([], tt, sym (some_injective h))
weighted-dot (c ∷ cs) w s h =
    go (checksum_value c) (weighted (w - 1) cs) refl refl h (weighted-dot cs (w - 1))
  where
    go :
        (o r : Option ℕ)
        → checksum_value c ≡ o
        → weighted (w - 1) cs ≡ r
        → plus_value w o r ≡ some s
        → ((x : ℕ)
            → weighted (w - 1) cs ≡ some x
            → (vs : List ℕ) × Values cs vs × (x ≡ dot (down (length cs) (w - 1)) vs))
        → (vs : List ℕ) × Values (c ∷ cs) vs × (s ≡ dot (down (suc (length cs)) w) vs)
    go none r e f q ih = cc
    go (some v) none e f q ih = cc
    go (some v) (some x) e f q ih =
        let (vs, spelled, same) = ih x f in
        (
          v ∷ vs,
          (checksum_value-Value c v e, spelled),
          sym (some_injective q) ∙ ap (λ y. v * w + y) same,
        )
