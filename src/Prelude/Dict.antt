-- ===== src/Prelude/Dict.antt =====
-- Hash maps as association lists: what the program reads is `get`; keys are compared by an instance.
use galax_ia_sdk.Prelude.{
  ℕ, ◌≡◌, ◌↔◌, refl, Bool, true, false, Option, none, some, List, [], ◌∷◌, arith, ==_iff,
  if◌then◌else◌, All, Bool-cases, inl, inr, subst,
}
use galax_ia_sdk.Prelude.{◌==◌ as nat_beq}
use galax_ia_sdk.Prelude.Lex.{list_eq, list_eq_iff}

pub record KeyEq {ℓ} (A : Type ℓ) : Type ℓ where
  pub same : A → A → Bool
  pub same_iff : (a b : A) → (same a b ≡ true) ↔ (a ≡ b)

instance abbrev pub list_key : KeyEq (List ℕ)
list_key = record { same = list_eq; same_iff = list_eq_iff }

abbrev pub Dict {ℓ κ} : Type ℓ → Type κ → Type (ℓ ⊔ κ)
Dict K V = List (K × V)

infix 50 ◌==◌
abbrev pub ◌==◌ {ℓ} : {A : Type ℓ} ⦃e : KeyEq A⦄ → A → A → Bool
◌==◌ ⦃e⦄ = e.same

instance abbrev pub nat_key : KeyEq ℕ
nat_key = record { same = nat_beq; same_iff = ==_iff }

abbrev pub keep_if {ℓ} : {V : Type ℓ} → (V → Bool) → Option V → Option V
keep_if p none = none
keep_if p (some v) = if p v then some v else none

module _ {ℓ κ} {K : Type ℓ} {V : Type κ} ⦃e : KeyEq K⦄ where
  unfoldable pub get : K → Dict K V → Option V
  get k [] = none
  get k ((j, v) ∷ m) = if j == k then some v else get k m

  unfoldable pub insert : K → V → Dict K V → Dict K V
  insert k v [] = (k, v) ∷ []
  insert k v ((j, w) ∷ m) = if j == k then (k, v) ∷ m else (j, w) ∷ insert k v m

  unfoldable pub remove : K → Dict K V → Dict K V
  remove k [] = []
  remove k ((j, w) ∷ m) = if j == k then remove k m else (j, w) ∷ remove k m

  -- `retain` with a test on the value
  unfoldable pub retain : (V → Bool) → Dict K V → Dict K V
  retain p [] = []
  retain p ((j, w) ∷ m) = if p w then (j, w) ∷ retain p m else retain p m

  unfoldable pub has_key : K → Dict K V → Bool
  has_key k [] = false
  has_key k ((j, w) ∷ m) = if j == k then true else has_key k m

  -- No key stands twice.
  abbrev pub DistinctKeys : Dict K V → Type 0
  DistinctKeys [] = Unit
  DistinctKeys ((j, w) ∷ m) = (has_key j m ≡ false) × DistinctKeys m

  pub get-insert :
      (k j : K) (v : V) (m : Dict K V) → get j (insert k v m) ≡ (if k == j then some v else get j m)
  unfolding get insert
  get-insert k j v [] = ground arith
  get-insert k j v ((i, w) ∷ m) =
      ground (arith, e.same_iff k j, e.same_iff i k, e.same_iff i j, get-insert k j v m)

  pub get-remove :
      (k j : K) (m : Dict K V) → get j (remove k m) ≡ (if k == j then none else get j m)
  unfolding get remove
  get-remove k j [] = ground arith
  get-remove k j ((i, w) ∷ m) =
      ground (arith, e.same_iff k j, e.same_iff i k, e.same_iff i j, get-remove k j m)

  pub has_key-insert :
      (k j : K) (v : V) (m : Dict K V)
      → has_key j (insert k v m) ≡ (if k == j then true else has_key j m)
  unfolding has_key insert
  has_key-insert k j v [] = ground arith
  has_key-insert k j v ((i, w) ∷ m) =
      ground (arith, e.same_iff k j, e.same_iff i k, e.same_iff i j, has_key-insert k j v m)

  pub insert-DistinctKeys :
      (k : K) (v : V) (m : Dict K V) → DistinctKeys m → DistinctKeys (insert k v m)
  unfolding insert has_key
  insert-DistinctKeys k v [] d = ground arith
  insert-DistinctKeys k v ((i, w) ∷ m) d =
      ground
        (arith, e.same_iff i k, e.same_iff k i, has_key-insert k i v m, insert-DistinctKeys k v m)

  pub get_of_no_key : (k : K) (m : Dict K V) → has_key k m ≡ false → get k m ≡ none
  unfolding get has_key
  get_of_no_key k [] h = ground arith
  get_of_no_key k ((i, w) ∷ m) h = ground (arith, get_of_no_key k m)

  has_key-retain :
      (p : V → Bool) (k : K) (m : Dict K V) → has_key k m ≡ false → has_key k (retain p m) ≡ false
  unfolding has_key retain
  has_key-retain p k [] h = ground arith
  has_key-retain p k ((i, w) ∷ m) h = ground (arith, has_key-retain p k m)

  pub retain-DistinctKeys :
      (p : V → Bool) (m : Dict K V) → DistinctKeys m → DistinctKeys (retain p m)
  unfolding retain
  retain-DistinctKeys p [] d = ground arith
  retain-DistinctKeys p ((i, w) ∷ m) d =
      ground (arith, has_key-retain p i m, retain-DistinctKeys p m)

  pub get-retain :
      (p : V → Bool) (k : K) (m : Dict K V)
      → DistinctKeys m
      → get k (retain p m) ≡ keep_if p (get k m)
  unfolding get retain
  get-retain p k [] d = refl
  get-retain p k ((i, w) ∷ m) d = ground (
    arith,
    e.same_iff i k,
    get-retain p k m,
    get_of_no_key i m,
    get_of_no_key i (retain p m),
    has_key-retain p i m,
  )

-- A property of all entries survives the operations.
module _ {ℓ κ μ} {K : Type ℓ} {V : Type κ} ⦃e : KeyEq K⦄ (P : K × V → Type μ) where
  pub All-insert : (k : K) (v : V) (m : Dict K V) → P (k, v) → All P m → All P (insert k v m)
  unfolding insert
  All-insert k v [] p h = (p, tt)
  All-insert k v ((j, w) ∷ m) p (q, h) = elim (Bool-cases (j == k)) [
    | inl same ↦ rw same (p, h)
    | inr other ↦ rw other (q, All-insert k v m p h)
  ]

  pub All-retain : (p : V → Bool) (m : Dict K V) → All P m → All P (retain p m)
  unfolding retain
  All-retain p [] h = tt
  All-retain p ((j, w) ∷ m) (q, h) = elim (Bool-cases (p w)) [
    | inl same ↦ rw same (q, All-retain p m h)
    | inr other ↦ rw other (All-retain p m h)
  ]

  pub All-remove : (k : K) (m : Dict K V) → All P m → All P (remove k m)
  unfolding remove
  All-remove k [] h = tt
  All-remove k ((j, w) ∷ m) (q, h) = elim (Bool-cases (j == k)) [
    | inl same ↦ rw same (All-remove k m h)
    | inr other ↦ rw other (q, All-remove k m h)
  ]

  pub All-get : (k : K) (v : V) (m : Dict K V) → All P m → get k m ≡ some v → P (k, v)
  unfolding get
  All-get k v [] h g = absurd (ground arith)
  All-get k v ((j, w) ∷ m) (q, h) g = elim (Bool-cases (j == k)) [
    | inl same ↦
        let key : j ≡ k = (e.same_iff j k).0 same in
        let entry : some w ≡ some v = rw same at g in
        let value : w ≡ v = cc in subst P (λ i. (key i, value i)) q
    | inr other ↦ All-get k v m h (rw other at g)
  ]
