-- ===== src/Dynamic/Maps.antt =====
-- The objects of rust/fhs/src/p2p/dynamic.rs: inserting keys in ascending order, and reading back
-- what was put under a key.
use galax_ia_sdk.Prelude.{◌≡◌, refl, ap, ◌∙◌, true, false, none, some, List, [], ◌∷◌, arith, All}
use galax_ia_sdk.Prelude.Lex.{
  lex_lt, lex_lt_trans, lex_lt_irrefl, list_eq, list_eq_iff, list_eq_self,
}
use galax_ia_sdk.Prelude.Sort.{Ascending}
use galax_ia_sdk.Text.{Text}
use galax_ia_sdk.Text.Utf8.{as_bytes}
use galax_ia_sdk.Authorization.{field_key}
use galax_ia_sdk.Dynamic.{
  Json, string, JsonObject, no_entries, entry, insert_entry, insert_all, find, text_of, put,
}

abbrev pub entries : List (Text × Json) → JsonObject
entries [] = no_entries
entries ((k, v) ∷ l) = entry k v (entries l)

abbrev join : JsonObject → JsonObject → JsonObject
join no_entries n = n
join (entry k v m) n = entry k v (join m n)

join_assoc : (l m n : JsonObject) → join (join l m) n ≡ join l (join m n)
join_assoc no_entries m n = refl
join_assoc (entry k v l) m n = ap (entry k v) (join_assoc l m n)

-- Every key of the object comes before `k`.
abbrev Below : Text → JsonObject → Type 0
Below k no_entries = Unit
Below k (entry k' v m) = (lex_lt (as_bytes k') (as_bytes k) ≡ true) × Below k m

lt_differs : (k k' : Text) → lex_lt (as_bytes k) (as_bytes k') ≡ true → list_eq k k' ≡ false
lt_differs k k' h = ground (arith, list_eq_iff k k', lex_lt_irrefl (as_bytes k))

insert_last :
    (k : Text) (v : Json) (m : JsonObject)
    → Below k m
    → insert_entry k v m ≡ join m (entry k v no_entries)
unfolding insert_entry
insert_last k v no_entries h = refl
insert_last k v (entry k' v' m) (h, more) = ground (
  arith,
  insert_last k v m more,
  lt_differs k' k h,
  lex_lt_trans (as_bytes k) (as_bytes k') (as_bytes k),
  lex_lt_irrefl (as_bytes k),
)

Below-join :
    (k k' : Text) (v : Json) (m : JsonObject)
    → Below k m
    → lex_lt (as_bytes k') (as_bytes k) ≡ true
    → Below k (join m (entry k' v no_entries))
Below-join k k' v no_entries h lt = (lt, tt)
Below-join k k' v (entry k'' v' m) (h, more) lt = (h, Below-join k k' v m more lt)

all_after-join :
    (k : Text) (v : Json) (m : JsonObject) (l : List (Text × Json))
    → All (λ e. Below e.0 m) l
    → All (λ e. lex_lt (as_bytes k) (field_key e) ≡ true) l
    → All (λ e. Below e.0 (join m (entry k v no_entries))) l
all_after-join k v m [] h lt = tt
all_after-join k v m ((k', v') ∷ l) (h, more) (lt, lts) =
    (Below-join k' k v m h lt, all_after-join k v m l more lts)

insert_all-join :
    (l : List (Text × Json)) (m : JsonObject)
    → Ascending field_key l
    → All (λ e. Below e.0 m) l
    → insert_all l m ≡ join m (entries l)
unfolding insert_all
insert_all-join [] m up below = join_nil m
  where
    join_nil : (m : JsonObject) → m ≡ join m no_entries
    join_nil no_entries = refl
    join_nil (entry k v m) = ap (entry k v) (join_nil m)
insert_all-join ((k, v) ∷ l) m (lts, up) (below, more) =
    ap (insert_all l) (insert_last k v m below)
    ∙ insert_all-join l (join m (entry k v no_entries)) up (all_after-join k v m l more lts)
    ∙ join_assoc m (entry k v no_entries) (entries l)

Below-no_entries : (l : List (Text × Json)) → All (λ e. Below e.0 no_entries) l
Below-no_entries [] = tt
Below-no_entries (e ∷ l) = (tt, Below-no_entries l)

-- Keys that come in ascending order stand in that order.
pub insert_all-entries :
    (l : List (Text × Json)) → Ascending field_key l → insert_all l no_entries ≡ entries l
insert_all-entries l up = insert_all-join l no_entries up (Below-no_entries l)

pub find-insert_entry :
    (k k' : Text) (v : Json) (m : JsonObject)
    → list_eq k' k ≡ false
    → find k (insert_entry k' v m) ≡ find k m
unfolding insert_entry find
find-insert_entry k k' v no_entries ne = ground arith
find-insert_entry k k' v (entry k'' v' m) ne =
    ground (arith, find-insert_entry k k' v m ne, list_eq_iff k'' k')

pub find-inserted : (k : Text) (v : Json) (m : JsonObject) → find k (insert_entry k v m) ≡ some v
unfolding insert_entry find
find-inserted k v no_entries = ground (arith, list_eq_self k)
find-inserted k v (entry k' v' m) = ground (arith, find-inserted k v m, list_eq_self k)

pub find-put :
    (k k' s : Text) (m : JsonObject) → list_eq k' k ≡ false → find k (put k' s m) ≡ find k m
unfolding put
find-put k k' [] m ne = refl
find-put k k' (c ∷ s) m ne = find-insert_entry k k' (string (c ∷ s)) m ne

-- A text that was put under a new key is read back, the empty text as none at all.
pub text_of-put : (k s : Text) (m : JsonObject) → find k m ≡ none → text_of k (put k s m) ≡ s
unfolding put
text_of-put k [] m h = rw h
text_of-put k (c ∷ s) m h = rw (find-inserted k (string (c ∷ s)) m)
