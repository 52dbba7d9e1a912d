-- ===== src/Commands/Grammar/Nesting.antt =====
-- The count of open parentheses in a token of commands.rs, against the stretches of the token.
use galax_ia_sdk.Prelude.{
  ℕ, suc, ◌+◌, ◌-◌, ◌≤◌, ◌≡◌, refl, List, [], ◌∷◌, ◌++◌, map, arith, All, max, ◌==◌, if◌then◌else◌,
  Bool-cases, inl, inr,
}
use galax_ia_sdk.Text.{Text}
use galax_ia_sdk.Commands.Grammar.{nesting_from}

unfoldable pub count : ℕ → Text → ℕ
count d [] = 0
count d (c ∷ cs) = let more = count d cs in if c == d then suc more else more

abbrev pub prefixes : Text → List Text
prefixes [] = [] ∷ []
prefixes (c ∷ cs) = [] ∷ map (λ u. c ∷ u) (prefixes cs)

-- every stretch of a text: the starts of each of its tails
abbrev pub stretches : Text → List Text
stretches [] = [] ∷ []
stretches (c ∷ cs) = prefixes (c ∷ cs) ++ stretches cs

-- No stretch opens more than `n` parentheses that it does not close.
abbrev pub NoDeeper : ℕ → Text → Type 0
NoDeeper n t = All (λ u. count 40 u ≤ n + count 41 u) (stretches t)

All-append : (P : Text → Type 0) (xs ys : List Text) → All P xs → All P ys → All P (xs ++ ys)
All-append P [] ys h k = k
All-append P (x ∷ xs) ys (h, hs) k = (h, All-append P xs ys hs k)

All-map_to :
    (P Q : Text → Type 0) (f : Text → Text) (xs : List Text)
    → ((u : Text) → P u → Q (f u))
    → All P xs
    → All Q (map f xs)
All-map_to P Q f [] go h = tt
All-map_to P Q f (x ∷ xs) go (h, hs) = (go x h, All-map_to P Q f xs go hs)

All-weaken : (P Q : Text → Type 0) (xs : List Text) → ((u : Text) → P u → Q u) → All P xs → All Q xs
All-weaken P Q [] go h = tt
All-weaken P Q (x ∷ xs) go (h, hs) = (go x h, All-weaken P Q xs go hs)

above_most : (t : Text) (depth most : ℕ) → most ≤ nesting_from depth most t
unfolding nesting_from
above_most [] depth most = omega arith
above_most (c ∷ cs) depth most = ground (
  arith,
  above_most cs (depth + 1) (max most (depth + 1)),
  above_most cs (depth - 1) most,
  above_most cs depth most,
)

-- the depth and the greatest so far behind a character
abbrev depth_after : ℕ → ℕ → ℕ
depth_after c depth = if c == 40 then depth + 1 else if c == 41 then depth - 1 else depth

abbrev most_after : ℕ → ℕ → ℕ → ℕ
most_after c depth most = if c == 40 then max most (depth + 1) else most

nesting_step :
    (c depth most : ℕ) (cs : Text)
    → nesting_from depth most (c ∷ cs)
      ≡ nesting_from (depth_after c depth) (most_after c depth most) cs
unfolding nesting_from
nesting_step c depth most cs = elim (Bool-cases (c == 40)) [
  | inl opens ↦ rw opens refl
  | inr other ↦ elim (Bool-cases (c == 41)) [
    | inl closes ↦ rw (other, closes) refl
    | inr none ↦ rw (other, none) refl
  ]
]

depth_below : (c depth most : ℕ) → depth ≤ most → depth_after c depth ≤ most_after c depth most
depth_below c depth most h = ground arith

longer :
    (c depth n : ℕ) (u : Text)
    → depth_after c depth + count 40 u ≤ n + count 41 u
    → depth + count 40 (c ∷ u) ≤ n + count 41 (c ∷ u)
unfolding count
longer c depth n u h = ground arith

prefixes_lem :
    (t : Text) (depth most n : ℕ)
    → depth ≤ most
    → nesting_from depth most t ≤ n
    → All (λ u. depth + count 40 u ≤ n + count 41 u) (prefixes t)
unfolding nesting_from count
prefixes_lem [] depth most n h k = (omega arith, tt)
prefixes_lem (c ∷ cs) depth most n h k = (
  omega (arith, above_most (c ∷ cs) depth most),
  All-map_to (λ u. depth_after c depth + count 40 u ≤ n + count 41 u)
      (λ u. depth + count 40 u ≤ n + count 41 u) (λ u. c ∷ u) (prefixes cs)
      (λ u p. longer c depth n u p)
      (prefixes_lem cs (depth_after c depth) (most_after c depth most) n
        (depth_below c depth most h) (omega (arith, nesting_step c depth most cs))),
)

pub stretches_lem :
    (t : Text) (depth most n : ℕ) → depth ≤ most → nesting_from depth most t ≤ n → NoDeeper n t
unfolding count
stretches_lem [] depth most n h k = (omega arith, tt)
stretches_lem (c ∷ cs) depth most n h k =
    All-append (λ u. count 40 u ≤ n + count 41 u) (prefixes (c ∷ cs)) (stretches cs)
      (All-weaken (λ u. depth + count 40 u ≤ n + count 41 u) (λ u. count 40 u ≤ n + count 41 u)
        (prefixes (c ∷ cs)) (λ u p. omega arith) (prefixes_lem (c ∷ cs) depth most n h k))
      (stretches_lem cs (depth_after c depth) (most_after c depth most) n
        (depth_below c depth most h) (omega (arith, nesting_step c depth most cs)))
