-- ===== src/Authorization/BatchDigest.antt =====
-- `batch_digest`: two batches with one digest agree in every field that it covers.
use galax_ia_sdk.Prelude.{
  ◌^◌, ◌<◌, ◌≡◌, ◌≢◌, ◌⊎◌, inl, inr, sym, ◌∙◌, List, [], ◌++◌, map, arith, All, length, ◌∷◌,
  append-nil,
}
use galax_ia_sdk.Prelude.Int.{ℤ}
use galax_ia_sdk.Prelude.Sort.{sort_on, Shuffle, sort_on-Shuffle, sort_on-All, length-sort_on}
use galax_ia_sdk.Text.{Text, Bytes}
use galax_ia_sdk.Text.Decimal.{IsI64}
use galax_ia_sdk.Protocol.{AuthorizationItem}
use galax_ia_sdk.Authorization.{
  push_len, push_bytes, chunks_body, items_bytes, item_key, batch_body, batch_digest, domain_batch,
}
use galax_ia_sdk.Authorization.Binding.{Collision, framed_binding}
use galax_ia_sdk.Authorization.Batch.{
  IsShortText, ItemFits, CoveredItem, covered, push_text_cancel, push_ℤ_cancel, push_len_cancel,
  items_bytes_cancel, write_text, write_ℤ,
}

pub record Batch : Type 0 where
  pub authorization_id : Text
  pub conversation_id : Text
  pub turn_id : Text
  pub expires_at : ℤ
  pub items : List AuthorizationItem

pub record BatchFits (b : Batch) : Type 0 where
  pub authorization_id : IsShortText b.authorization_id
  pub conversation_id : IsShortText b.conversation_id
  pub turn_id : IsShortText b.turn_id
  pub expires_at : IsI64 b.expires_at
  pub few : length b.items < 2 ^ 32
  pub items : All ItemFits b.items

-- What the digest covers: the items in the order of their ids, each with the fields that are
-- hashed.
pub record CoveredBatch : Type 0 where
  pub authorization_id : Text
  pub conversation_id : Text
  pub turn_id : Text
  pub expires_at : ℤ
  pub items : List CoveredItem

unfoldable pub covered_part : Batch → CoveredBatch
covered_part b = record {
  authorization_id = b.authorization_id;
  conversation_id = b.conversation_id;
  turn_id = b.turn_id;
  expires_at = b.expires_at;
  items = map covered (sort_on item_key b.items);
}

abbrev body : Batch → Bytes
body b = batch_body b.authorization_id b.conversation_id b.turn_id b.expires_at b.items

abbrev pub digest_of : (Bytes → Bytes) → Batch → Bytes
digest_of sha256 b =
    batch_digest sha256 b.authorization_id b.conversation_id b.turn_id b.expires_at b.items

sorted_items : Batch → List AuthorizationItem
sorted_items b = sort_on item_key b.items

items_part :
    (a b : Batch)
    → BatchFits a
    → BatchFits b
    → push_len (length (sorted_items a)) ++ items_bytes (sorted_items a)
      ≡ push_len (length (sorted_items b)) ++ items_bytes (sorted_items b)
    → map covered (sorted_items a) ≡ map covered (sorted_items b)
unfolding sorted_items
items_part a b fa fb e =
    let xs = sort_on item_key a.items in
    let ys = sort_on item_key b.items in
    let (n, k) =
      push_len_cancel (length xs) (length ys) (items_bytes xs) (items_bytes ys)
        (rw (length-sort_on item_key a.items) fa.few) (rw (length-sort_on item_key b.items) fb.few)
        e in
    (items_bytes_cancel xs ys [] [] n (sort_on-All item_key ItemFits a.items fa.items)
      (sort_on-All item_key ItemFits b.items fb.items)
      (append-nil (items_bytes xs) ∙ k ∙ sym (append-nil (items_bytes ys)))).0

-- The hashed bytes determine what is covered.
pub batch_body_injective :
    (a b : Batch) → BatchFits a → BatchFits b → body a ≡ body b → covered_part a ≡ covered_part b
unfolding batch_body covered_part sorted_items
batch_body_injective a b fa fb e =
    let (e1, k1) =
      push_text_cancel a.authorization_id b.authorization_id _ _ fa.authorization_id
        fb.authorization_id e in
    let (e2, k2) =
      push_text_cancel a.conversation_id b.conversation_id _ _ fa.conversation_id fb.conversation_id
        k1 in
    let (e3, k3) = push_text_cancel a.turn_id b.turn_id _ _ fa.turn_id fb.turn_id k2 in
    let (e4, k4) = push_ℤ_cancel a.expires_at b.expires_at _ _ fa.expires_at fb.expires_at k3 in
    let e5 = items_part a b fa fb k4 in
    λ t. record {
      authorization_id = e1 t;
      conversation_id = e2 t;
      turn_id = e3 t;
      expires_at = e4 t;
      items = e5 t;
    }

domain_batch-IsDomain : All (λ b. b ≢ 0) domain_batch
domain_batch-IsDomain = omega arith

-- Two authorization batches of the types of the program, with lengths below 2^32, and with one
-- digest have the same ids, the same expiry and items that agree in the eleven fields that the
-- digest covers, up to the order of items and of dependencies; or they give a collision of
-- SHA-256.
pub batch_digest_binding :
    (sha256 : Bytes → Bytes) (a b : Batch)
    → BatchFits a
    → BatchFits b
    → digest_of sha256 a ≡ digest_of sha256 b
    → (covered_part a ≡ covered_part b) ⊎ Collision sha256
unfolding batch_digest
batch_digest_binding sha256 a b fa fb e =
    elim (framed_binding sha256 domain_batch domain_batch (body a) (body b) domain_batch-IsDomain
      domain_batch-IsDomain e) [
        | inl (d, same) ↦ inl (batch_body_injective a b fa fb same)
        | inr collision ↦ inr collision
      ]

-- The hashed bytes, from what is covered alone.
covered_bytes : CoveredItem → Bytes
covered_bytes i =
    write_text i.item_id
    ++ (push_bytes i.payload_digest
        ++ (write_text i.provider_did
            ++ (write_text i.capability_id
                ++ (write_ℤ i.data_class
                    ++ (write_ℤ i.destination
                        ++ (write_ℤ i.retention
                            ++ (chunks_body i.depends_on
                                ++ (write_text i.contract_fingerprint
                                    ++ (write_text i.tool_name
                                        ++ write_text i.registry_digest)))))))))

covered_items : List CoveredItem → Bytes
covered_items [] = []
covered_items (i ∷ is) = covered_bytes i ++ covered_items is

covered_body : CoveredBatch → Bytes
covered_body b =
    write_text b.authorization_id
    ++ (write_text b.conversation_id
        ++ (write_text b.turn_id
            ++ (write_ℤ b.expires_at ++ (push_len (length b.items) ++ covered_items b.items))))

-- The digest of a batch does not depend on the order of items with different ids.
pub batch_digest_order :
    (sha256 : Bytes → Bytes) (b : Batch) (items : List AuthorizationItem)
    → Shuffle item_key b.items items
    → digest_of sha256 b ≡ digest_of sha256 (record b { items = items })
unfolding batch_digest batch_body
batch_digest_order sha256 b items s = rw (sort_on-Shuffle item_key s)
