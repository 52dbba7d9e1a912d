-- ===== src/Node/Connections.antt =====
-- Counting the entries of a map, and the set of the connected peers.
use galax_ia_sdk.Prelude.{
  ℕ, suc, ◌≡◌, refl, ap, ◌∙◌, sym, Bool, false, Option, none, some, List, [], ◌∷◌, arith,
  if◌then◌else◌, Bool-cases, inl, inr, ◌||◌, ◌&&◌, not, ==_iff,
}
use galax_ia_sdk.Prelude.Dict.{Dict, ◌==◌, get, insert, remove, has_key, nat_key, DistinctKeys}
use galax_ia_sdk.Limits.{PeerId}
use galax_ia_sdk.Node.State.{member, add_peer, drop_peer}

module _ {V : Type 0} where
  remove_absent : (k : ℕ) (m : Dict ℕ V) → has_key k m ≡ false → remove k m ≡ m
  unfolding has_key remove
  remove_absent k [] h = refl
  remove_absent k ((j, v) ∷ m) h = elim (Bool-cases (j == k)) [
    | inl same ↦ absurd (cc)
    | inr other ↦ rw other (ap (◌∷◌ (j, v)) (remove_absent k m (rw other at h)))
  ]

  absent_get : (k : ℕ) (m : Dict ℕ V) → get k m ≡ none → has_key k m ≡ false
  unfolding has_key get
  absent_get k [] h = refl
  absent_get k ((j, v) ∷ m) h = ground (arith, absent_get k m)

  pub remove_nothing : (k : ℕ) (m : Dict ℕ V) → get k m ≡ none → remove k m ≡ m
  remove_nothing k m h = remove_absent k m (absent_get k m h)

  has_key-remove : (k j : ℕ) (m : Dict ℕ V) → has_key j m ≡ false → has_key j (remove k m) ≡ false
  unfolding has_key remove
  has_key-remove k j [] h = refl
  has_key-remove k j ((i, v) ∷ m) h = ground (arith, has_key-remove k j m)

  pub remove-DistinctKeys : (k : ℕ) (m : Dict ℕ V) → DistinctKeys m → DistinctKeys (remove k m)
  unfolding remove
  remove-DistinctKeys k [] d = tt
  remove-DistinctKeys k ((i, v) ∷ m) (h, d) = elim (Bool-cases (i == k)) [
    | inl same ↦ rw same (remove-DistinctKeys k m d)
    | inr other ↦ rw other (has_key-remove k i m h, remove-DistinctKeys k m d)
  ]

  -- how many entries pass a test
  module _ (p : V → Bool) where
    unfoldable pub tally : Dict ℕ V → ℕ
    tally [] = 0
    tally ((k, v) ∷ m) = let more = tally m in if p v then suc more else more

    pub tally-insert :
        (k : ℕ) (v : V) (m : Dict ℕ V)
        → has_key k m ≡ false
        → tally (insert k v m) ≡ (if p v then suc (tally m) else tally m)
    unfolding tally insert has_key
    tally-insert k v [] h = refl
    tally-insert k v ((j, w) ∷ m) h = ground (arith, tally-insert k v m)

    pub tally-remove :
        (k : ℕ) (v : V) (m : Dict ℕ V)
        → DistinctKeys m
        → get k m ≡ some v
        → tally m ≡ (if p v then suc (tally (remove k m)) else tally (remove k m))
    unfolding tally remove get
    tally-remove k v [] d h = cc
    tally-remove k v ((j, w) ∷ m) (a, d) h = elim (Bool-cases (j == k)) [
      | inl same ↦
          let value : w ≡ v = some_injective (rw same at h) in
          let gone : remove k m ≡ m =
            remove_absent k m (ap (λ i. has_key i m) (sym ((==_iff j k).0 same)) ∙ a) in
          rw (same, gone, value) refl
      | inr other ↦ rw other (step (p w) (p v) (tally-remove k v m d (rw other at h)))
    ]
      where
        some_injective : {x y : V} → Path (Option V) (some x) (some y) → x ≡ y
        some_injective q = cc

        step :
            (s t : Bool)
            → tally m ≡ (if t then suc (tally (remove k m)) else tally (remove k m))
            → (if s then suc (tally m) else tally m) ≡ (
                if t
                then suc (if s then suc (tally (remove k m)) else tally (remove k m))
                else if s
                then suc (tally (remove k m))
                else tally (remove k m))
        step s t e = ground arith

pub member-add_peer :
    (p q : PeerId) (set : List PeerId) → member q (add_peer p set) ≡ p == q || member q set
unfolding add_peer member
member-add_peer p q set = elim (Bool-cases (member p set)) [
  | inl inside ↦ rw inside (elim (Bool-cases (p == q)) [
    | inl same ↦ rw same (ap (λ x. member x set) (sym ((==_iff p q).0 same)) ∙ inside)
    | inr other ↦ rw other refl
  ])
  | inr outside ↦ rw outside refl
]

pub member-drop_peer :
    (p q : PeerId) (set : List PeerId) → member q (drop_peer p set) ≡ not (p == q) && member q set
unfolding drop_peer member
member-drop_peer p q [] = ground arith
member-drop_peer p q (x ∷ set) = ground (arith, member-drop_peer p q set)
