-- ===== src/Authorization/Batch.antt =====
-- What the digest of a batch covers: eleven of the fields of every item, whatever the order of the
-- items and of their dependencies.
use galax_ia_sdk.Prelude.{
  ℕ, ◌^◌, ◌<◌, ◌≡◌, refl, ap, sym, ◌∙◌, List, [], ◌∷◌, ◌++◌, map, arith, All, length, append_assoc,
}
use galax_ia_sdk.Prelude.Int.{ℤ}
use galax_ia_sdk.Prelude.Sort.{sort_on, sort_on-All, length-sort_on}
use galax_ia_sdk.Text.{Text, Bytes, IsText}
use galax_ia_sdk.Text.Utf8.{as_bytes, as_bytes_injective}
use galax_ia_sdk.Text.Decimal.{print_ℤ, IsI64, print_ℤ_injective, print_ℤ-IsText, length-print_ℤ}
use galax_ia_sdk.Protocol.{AuthorizationItem}
use galax_ia_sdk.Authorization.{
  push_bytes, push_len, push_all, chunks_body, item_bytes, items_bytes,
}
use galax_ia_sdk.Authorization.Decoder.{IsShort, read_bytes, read_be}
use galax_ia_sdk.Authorization.Reads.{read_bytes-push_bytes, read_be-push_len}

-- A byte string with its length in front ends where its length says.
push_bytes_cancel :
    (a b r s : Bytes)
    → IsShort a
    → IsShort b
    → push_bytes a ++ r ≡ push_bytes b ++ s
    → (a ≡ b) × (r ≡ s)
push_bytes_cancel a b r s ha hb e =
    let p = sym (read_bytes-push_bytes a r ha) ∙ ap read_bytes e ∙ read_bytes-push_bytes b s hb in
    (ground (arith, p), ground (arith, p))

pub push_len_cancel :
    (m n : ℕ) (r s : Bytes)
    → m < 2 ^ 32
    → n < 2 ^ 32
    → push_len m ++ r ≡ push_len n ++ s
    → (m ≡ n) × (r ≡ s)
push_len_cancel m n r s hm hn e =
    let p = sym (read_be-push_len m r hm) ∙ ap (read_be 4 0) e ∙ read_be-push_len n s hn in
    (ground (arith, p), ground (arith, p))

abbrev pub IsShortText : Text → Type 0
IsShortText t = IsText t × IsShort (as_bytes t)

pub push_text_cancel :
    (a b : Text) (r s : Bytes)
    → IsShortText a
    → IsShortText b
    → push_bytes (as_bytes a) ++ r ≡ push_bytes (as_bytes b) ++ s
    → (a ≡ b) × (r ≡ s)
push_text_cancel a b r s (ta, sa) (tb, sb) e =
    let (p, q) = push_bytes_cancel (as_bytes a) (as_bytes b) r s sa sb e in
    (as_bytes_injective a b ta tb p, q)

printed_short : (i : ℤ) → IsShortText (print_ℤ i)
printed_short i = (print_ℤ-IsText i, omega (arith, length-print_ℤ i))

pub push_ℤ_cancel :
    (i j : ℤ) (r s : Bytes)
    → IsI64 i
    → IsI64 j
    → push_bytes (as_bytes (print_ℤ i)) ++ r ≡ push_bytes (as_bytes (print_ℤ j)) ++ s
    → (i ≡ j) × (r ≡ s)
push_ℤ_cancel i j r s hi hj e =
    let (p, q) =
      push_text_cancel (print_ℤ i) (print_ℤ j) r s (printed_short i) (printed_short j) e in
    (print_ℤ_injective i j hi hj p, q)

push_all_cancel :
    (xs ys : List Text) (r s : Bytes)
    → length xs ≡ length ys
    → All IsShortText xs
    → All IsShortText ys
    → push_all xs ++ r ≡ push_all ys ++ s
    → (xs ≡ ys) × (r ≡ s)
unfolding push_all
push_all_cancel [] [] r s n hx hy e = (refl, e)
push_all_cancel [] (y ∷ ys) r s n hx hy e = absurd (omega arith)
push_all_cancel (x ∷ xs) [] r s n hx hy e = absurd (omega arith)
push_all_cancel (x ∷ xs) (y ∷ ys) r s n hx hy e =
    let (p, q) = push_text_cancel x y (push_all xs ++ r) (push_all ys ++ s) hx.0 hy.0 (
      sym (append_assoc (push_bytes (as_bytes x)) (push_all xs) r)
      ∙ e
      ∙ append_assoc (push_bytes (as_bytes y)) (push_all ys) s) in
    let (t, u) = push_all_cancel xs ys r s (omega arith) hx.1 hy.1 q in (ground (arith, p, t), u)

-- A set of fragments with its count in front: the fragments, their order and their borders.
pub chunks_body_cancel :
    (xs ys : List Text) (r s : Bytes)
    → length xs < 2 ^ 32
    → length ys < 2 ^ 32
    → All IsShortText xs
    → All IsShortText ys
    → chunks_body xs ++ r ≡ chunks_body ys ++ s
    → (xs ≡ ys) × (r ≡ s)
unfolding chunks_body
chunks_body_cancel xs ys r s nx ny hx hy e =
    let (p, q) =
      push_len_cancel (length xs) (length ys) (push_all xs ++ r) (push_all ys ++ s) nx ny (
        sym (append_assoc (push_len (length xs)) (push_all xs) r)
        ∙ e
        ∙ append_assoc (push_len (length ys)) (push_all ys) s) in
    push_all_cancel xs ys r s p hx hy q

-- The values that the code reads of an item are those of its types.
pub record ItemFits (i : AuthorizationItem) : Type 0 where
  pub item_id : IsShortText i.item_id
  pub capability_id : IsShortText i.capability_id
  pub provider_did : IsShortText i.provider_did
  pub payload_digest : IsShort i.payload_digest
  pub data_class : IsI64 i.data_class
  pub destination : IsI64 i.destination
  pub retention : IsI64 i.retention
  pub few : length i.depends_on < 2 ^ 32
  pub depends_on : All IsShortText i.depends_on
  pub contract_fingerprint : IsShortText i.contract_fingerprint
  pub tool_name : IsShortText i.tool_name
  pub registry_digest : IsShortText i.registry_digest

-- The fields of an item that the digest covers, with the dependencies in order. The other ten
-- fields of the message (the name and the trust level of the provider, the version of the policy,
-- the summary of the data and the six marks) are not hashed.
pub record CoveredItem : Type 0 where
  pub item_id : Text
  pub capability_id : Text
  pub provider_did : Text
  pub payload_digest : Bytes
  pub data_class : ℤ
  pub destination : ℤ
  pub retention : ℤ
  pub depends_on : List Text
  pub contract_fingerprint : Text
  pub tool_name : Text
  pub registry_digest : Text

unfoldable pub covered : AuthorizationItem → CoveredItem
covered i = record {
  item_id = i.item_id;
  capability_id = i.capability_id;
  provider_did = i.provider_did;
  payload_digest = i.payload_digest;
  data_class = i.data_class;
  destination = i.destination;
  retention = i.retention;
  depends_on = sort_on as_bytes i.depends_on;
  contract_fingerprint = i.contract_fingerprint;
  tool_name = i.tool_name;
  registry_digest = i.registry_digest;
}

-- One length-prefixed part in front of the rest.
pub part_cancel :
    {A : Type 0} (write : A → Bytes) (a b : A) (xs ys r s : Bytes)
    → ((r s : Bytes) → write a ++ r ≡ write b ++ s → (a ≡ b) × (r ≡ s))
    → (write a ++ xs) ++ r ≡ (write b ++ ys) ++ s
    → (a ≡ b) × (xs ++ r ≡ ys ++ s)
part_cancel write a b xs ys r s cancel e =
    cancel (xs ++ r) (ys ++ s) (sym (append_assoc (write a) xs r) ∙ e ∙ append_assoc (write b) ys s)

abbrev pub write_text : Text → Bytes
write_text t = push_bytes (as_bytes t)

abbrev pub write_ℤ : ℤ → Bytes
write_ℤ i = push_bytes (as_bytes (print_ℤ i))

deps_cancel :
    (i j : AuthorizationItem) (r s : Bytes)
    → ItemFits i
    → ItemFits j
    → chunks_body (sort_on as_bytes i.depends_on) ++ r
      ≡ chunks_body (sort_on as_bytes j.depends_on) ++ s
    → (sort_on as_bytes i.depends_on ≡ sort_on as_bytes j.depends_on) × (r ≡ s)
deps_cancel i j r s fi fj e =
    chunks_body_cancel (sort_on as_bytes i.depends_on) (sort_on as_bytes j.depends_on) r s
      (rw (length-sort_on as_bytes i.depends_on) fi.few)
      (rw (length-sort_on as_bytes j.depends_on) fj.few)
      (sort_on-All as_bytes IsShortText i.depends_on fi.depends_on)
      (sort_on-All as_bytes IsShortText j.depends_on fj.depends_on) e

-- The bytes of an item determine every field that is covered, and where they end.
pub item_bytes_cancel :
    (i j : AuthorizationItem) (r s : Bytes)
    → ItemFits i
    → ItemFits j
    → item_bytes i ++ r ≡ item_bytes j ++ s
    → (covered i ≡ covered j) × (r ≡ s)
unfolding item_bytes covered
item_bytes_cancel i j r s fi fj e =
    let (e1, k1) =
      part_cancel write_text i.item_id j.item_id _ _ r s
        (λ x y. push_text_cancel _ _ x y fi.item_id fj.item_id) e in
    let (e2, k2) =
      part_cancel push_bytes i.payload_digest j.payload_digest _ _ r s
        (λ x y. push_bytes_cancel _ _ x y fi.payload_digest fj.payload_digest) k1 in
    let (e3, k3) =
      part_cancel write_text i.provider_did j.provider_did _ _ r s
        (λ x y. push_text_cancel _ _ x y fi.provider_did fj.provider_did) k2 in
    let (e4, k4) =
      part_cancel write_text i.capability_id j.capability_id _ _ r s
        (λ x y. push_text_cancel _ _ x y fi.capability_id fj.capability_id) k3 in
    let (e5, k5) =
      part_cancel write_ℤ i.data_class j.data_class _ _ r s
        (λ x y. push_ℤ_cancel _ _ x y fi.data_class fj.data_class) k4 in
    let (e6, k6) =
      part_cancel write_ℤ i.destination j.destination _ _ r s
        (λ x y. push_ℤ_cancel _ _ x y fi.destination fj.destination) k5 in
    let (e7, k7) =
      part_cancel write_ℤ i.retention j.retention _ _ r s
        (λ x y. push_ℤ_cancel _ _ x y fi.retention fj.retention) k6 in
    let (e8, k8) =
      part_cancel chunks_body (sort_on as_bytes i.depends_on) (sort_on as_bytes j.depends_on) _ _ r
        s (λ x y. deps_cancel i j x y fi fj) k7 in
    let (e9, k9) =
      part_cancel write_text i.contract_fingerprint j.contract_fingerprint _ _ r s
        (λ x y. push_text_cancel _ _ x y fi.contract_fingerprint fj.contract_fingerprint) k8 in
    let (e10, k10) =
      part_cancel write_text i.tool_name j.tool_name _ _ r s
        (λ x y. push_text_cancel _ _ x y fi.tool_name fj.tool_name) k9 in
    let (e11, k11) =
      push_text_cancel i.registry_digest j.registry_digest r s fi.registry_digest fj.registry_digest
        k10 in
    (
      λ t. record {
        item_id = e1 t;
        capability_id = e4 t;
        provider_did = e3 t;
        payload_digest = e2 t;
        data_class = e5 t;
        destination = e6 t;
        retention = e7 t;
        depends_on = e8 t;
        contract_fingerprint = e9 t;
        tool_name = e10 t;
        registry_digest = e11 t;
      },
      k11,
    )

pub items_bytes_cancel :
    (is js : List AuthorizationItem) (r s : Bytes)
    → length is ≡ length js
    → All ItemFits is
    → All ItemFits js
    → items_bytes is ++ r ≡ items_bytes js ++ s
    → (map covered is ≡ map covered js) × (r ≡ s)
unfolding items_bytes
items_bytes_cancel [] [] r s n hi hj e = (refl, e)
items_bytes_cancel [] (j ∷ js) r s n hi hj e = absurd (omega arith)
items_bytes_cancel (i ∷ is) [] r s n hi hj e = absurd (omega arith)
items_bytes_cancel (i ∷ is) (j ∷ js) r s n hi hj e =
    let (p, q) = item_bytes_cancel i j (items_bytes is ++ r) (items_bytes js ++ s) hi.0 hj.0 (
      sym (append_assoc (item_bytes i) (items_bytes is) r)
      ∙ e
      ∙ append_assoc (item_bytes j) (items_bytes js) s) in
    let (t, u) = items_bytes_cancel is js r s (omega arith) hi.1 hj.1 q in ((λ k. p k ∷ t k), u)
