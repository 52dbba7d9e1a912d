-- ===== src/Dynamic/Nulls.antt =====
-- The errors of `from_json` in rust/fhs/src/p2p/dynamic.rs: which `null` is reported.
use galax_ia_sdk.Prelude.{
  ℕ, suc, ◌≡◌, ◌↔◌, ◌⊎◌, inl, inr, refl, ◌∙◌, subst, Bool, true, false, ◌||◌, Option, none, some,
  ◌++◌,
}
use galax_ia_sdk.Prelude.Result.{Result, ok, err, ◌>>=◌}
use galax_ia_sdk.Text.{Text, Bytes, codes}
use galax_ia_sdk.Text.Decimal.{print_ℕ}
use galax_ia_sdk.Protocol.{ArtifactRef, DynamicValue, DynamicObject, list_value, cons, field}
use galax_ia_sdk.Dynamic.{
  Number, Json, null, boolean, number, string, array, object, JsonList, no_items, item, JsonObject,
  no_entries, entry, NullNotAllowed, null_not_allowed, index_path, key_path, root, artifact_in,
  object_kind, from_json_at, from_items, from_entries, from_json,
}
use galax_ia_sdk.Dynamic.Recognised.{is_read, is_file, is_read-is_file, unread}

module _ (decode : Text → Option Bytes) where
  -- An object that is read as a file is not searched.
  abbrev unless : Bool → Bool → Bool
  unless true b = false
  unless false b = b

  unfoldable mutual
    pub has_null : Json → Bool
    has_null null = true
    has_null (boolean b) = false
    has_null (number n) = false
    has_null (string s) = false
    has_null (array js) = has_null_items js
    has_null (object m) = unless (is_file decode m) (has_null_entries m)

    pub has_null_items : JsonList → Bool
    has_null_items no_items = false
    has_null_items (item j js) = has_null j || has_null_items js

    pub has_null_entries : JsonObject → Bool
    has_null_entries no_entries = false
    has_null_entries (entry k j m) = has_null j || has_null_entries m

  -- `FirstNull j path q`: from `path`, where `j` stands, the first `null` of `j` outside files is
  -- at `q`.
  abbrev mutual
    pub FirstNull : Json → Text → Text → Type 0
    FirstNull null path q = path ≡ q
    FirstNull (boolean b) path q = ⊥
    FirstNull (number n) path q = ⊥
    FirstNull (string s) path q = ⊥
    FirstNull (array js) path q = FirstNullItem js path 0 q
    FirstNull (object m) path q = (is_file decode m ≡ false) × FirstNullEntry m path q

    pub FirstNullItem : JsonList → Text → ℕ → Text → Type 0
    FirstNullItem no_items path i q = ⊥
    FirstNullItem (item j js) path i q =
        FirstNull j (path ++ (codes "[" ++ (print_ℕ i ++ codes "]"))) q
        ⊎ ((has_null j ≡ false) × FirstNullItem js path (suc i) q)

    pub FirstNullEntry : JsonObject → Text → Text → Type 0
    FirstNullEntry no_entries path q = ⊥
    FirstNullEntry (entry k j m) path q =
        FirstNull j (path ++ (codes "." ++ k)) q ⊎ ((has_null j ≡ false) × FirstNullEntry m path q)

module _ {A : Type 0} where
  -- The outcome of a part, together with whether the part holds a `null`.
  abbrev Judges : Bool → (Text → Type 0) → Result A NullNotAllowed → Type 0
  Judges b First (ok v) = b ≡ false
  Judges b First (err (null_not_allowed q)) = (b ≡ true) × First q

module _ {A : Type 0} (b : Bool) (First : Text → Type 0) where
  Judges-ok : (r : Result A NullNotAllowed) → Judges b First r → b ≡ false → (v : A) × (r ≡ ok v)
  Judges-ok (ok v) h e = (v, refl)
  Judges-ok (err (null_not_allowed q)) (e', h) e = cc

  Judges-err :
      (r : Result A NullNotAllowed) (q : Text)
      → Judges b First r
      → r ≡ err (null_not_allowed q)
      → First q
  Judges-err (ok v) q h e = cc
  Judges-err (err (null_not_allowed q')) q (b, h) e = subst First (cc) h

module _ {A B : Type 0} (b : Bool) (First : Text → Type 0) where
  Judges-wrap :
      (f : A → B) (r : Result A NullNotAllowed)
      → Judges b First r
      → Judges b First (do x ← r; ok (f x))
  Judges-wrap f (ok x) h = h
  Judges-wrap f (err (null_not_allowed q)) h = h

  Judges-both :
      {C : Type 0} (b' : Bool) (First' : Text → Type 0) (f : A → B → C)
      (r : Result A NullNotAllowed) (r' : Result B NullNotAllowed)
      → Judges b First r
      → Judges b' First' r'
      → Judges (b || b') (λ q. First q ⊎ ((b ≡ false) × First' q)) (do x ← r; y ← r'; ok (f x y))
  Judges-both b' First' f (ok x) (ok y) h h' = rw (h, h')
  Judges-both b' First' f (ok x) (err (null_not_allowed q)) h (e, h') = (rw (h, e), inr (h, h'))
  Judges-both b' First' f (err (null_not_allowed q)) r' (e, h) h' = (rw e, inl h)

module _ (decode : Text → Option Bytes) (as_f64 : Number → ℕ) where
  Judges-object :
      (b f : Bool) (First : Text → Type 0) (file : Option ArtifactRef)
      (r : Result DynamicObject NullNotAllowed)
      → is_read file ≡ f
      → Judges b First r
      → Judges (unless decode f b) (λ q. (f ≡ false) × First q) (object_kind file r)
  Judges-object b true First (some a) r e h = refl
  Judges-object b false First (some a) r e h = cc
  Judges-object b true First none r e h = cc
  Judges-object b false First none (ok fs) e h = h
  Judges-object b false First none (err (null_not_allowed q)) e (g, h) = (g, (refl, h))

  mutual
    unfolding from_json_at has_null index_path key_path

    judge :
        (j : Json) (path : Text)
        → Judges (has_null decode j) (FirstNull decode j path) (from_json_at decode as_f64 j path)
    judge null path = (refl, refl)
    judge (boolean b) path = refl
    judge (number n) path = refl
    judge (string s) path = refl
    judge (array js) path =
        Judges-wrap (has_null_items decode js) (FirstNullItem decode js path 0) list_value
          (from_items decode as_f64 js path 0) (judge_items js path 0)
    judge (object m) path =
        Judges-object (has_null_entries decode m) (is_file decode m) (FirstNullEntry decode m path)
          (artifact_in decode m) (from_entries decode as_f64 m path) (is_read-is_file decode m)
          (judge_entries m path)

    judge_items :
        (js : JsonList) (path : Text) (i : ℕ)
        → Judges
            (has_null_items decode js)
            (FirstNullItem decode js path i)
            (from_items decode as_f64 js path i)
    judge_items no_items path i = refl
    judge_items (item j js) path i =
        Judges-both (has_null decode j) (FirstNull decode j (index_path path i))
          (has_null_items decode js) (FirstNullItem decode js path (suc i)) cons
          (from_json_at decode as_f64 j (index_path path i))
          (from_items decode as_f64 js path (suc i)) (judge j (index_path path i))
          (judge_items js path (suc i))

    judge_entries :
        (m : JsonObject) (path : Text)
        → Judges
            (has_null_entries decode m)
            (FirstNullEntry decode m path)
            (from_entries decode as_f64 m path)
    judge_entries no_entries path = refl
    judge_entries (entry k j m) path =
        Judges-both (has_null decode j) (FirstNull decode j (key_path path k))
          (has_null_entries decode m) (FirstNullEntry decode m path) (field k)
          (from_json_at decode as_f64 j (key_path path k)) (from_entries decode as_f64 m path)
          (judge j (key_path path k)) (judge_entries m path)

  clean_ok :
      (j : Json) (path : Text)
      → has_null decode j ≡ false
      → (v : DynamicValue) × (from_json_at decode as_f64 j path ≡ ok v)
  clean_ok j path =
      Judges-ok (has_null decode j) (FirstNull decode j path) (from_json_at decode as_f64 j path)
        (judge j path)

  mutual
    unfolding from_json_at index_path key_path

    reported :
        (j : Json) (path q : Text)
        → FirstNull decode j path q
        → from_json_at decode as_f64 j path ≡ err (null_not_allowed q)
    reported null path q h = rw h
    reported (boolean b) path q h = elim h [ ]
    reported (number n) path q h = elim h [ ]
    reported (string s) path q h = elim h [ ]
    reported (array js) path q h = rw (reported_item js path 0 q h)
    reported (object m) path q (plain, h) =
        let closed = unread (artifact_in decode m) (is_read-is_file decode m ∙ plain) in
        rw (closed, reported_entry m path q h)

    reported_item :
        (js : JsonList) (path : Text) (i : ℕ) (q : Text)
        → FirstNullItem decode js path i q
        → from_items decode as_f64 js path i ≡ err (null_not_allowed q)
    reported_item no_items path i q h = elim h [ ]
    reported_item (item j js) path i q (inl h) = rw (reported j (index_path path i) q h)
    reported_item (item j js) path i q (inr (clean, h)) =
        let (v, e) = clean_ok j (index_path path i) clean in
        rw (e, reported_item js path (suc i) q h)

    reported_entry :
        (m : JsonObject) (path q : Text)
        → FirstNullEntry decode m path q
        → from_entries decode as_f64 m path ≡ err (null_not_allowed q)
    reported_entry no_entries path q h = elim h [ ]
    reported_entry (entry k j m) path q (inl h) = rw (reported j (key_path path k) q h)
    reported_entry (entry k j m) path q (inr (clean, h)) =
        let (v, e) = clean_ok j (key_path path k) clean in rw (e, reported_entry m path q h)

  -- The reading of JSON fails with a path exactly when the first null outside files stands at
  -- that path, which is $ with a dot and the key for each entry and the index in brackets for
  -- each item; a file is an object with the transport ipfs, or with the transport inline and a
  -- content that decodes.
  pub from_json-FirstNull :
      (j : Json) (q : Text)
      → (from_json decode as_f64 j ≡ err (null_not_allowed q)) ↔ FirstNull decode j (codes "$") q
  unfolding from_json
  from_json-FirstNull j q = (
    Judges-err (has_null decode j) (FirstNull decode j root) (from_json_at decode as_f64 j root) q
        (judge j root),
    reported j root q,
  )
