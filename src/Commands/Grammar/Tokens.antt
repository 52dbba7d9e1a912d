-- ===== src/Commands/Grammar/Tokens.antt =====
-- The tokens of a line of commands.rs: how `next_token` cuts the cursor.
use galax_ia_sdk.Prelude.{
  ℕ, ◌<◌, ◌≡◌, ◌≢◌, ◌⊎◌, inl, inr, refl, ap, sym, ◌∙◌, Bool, true, false, [], ◌∷◌, ◌++◌, arith,
  length, All, if◌then◌else◌, Bool-cases, append-nil,
}
use galax_ia_sdk.Text.{Text}
use galax_ia_sdk.Text.Trim.{trim_start, trim_end, keep_unless_blank}
use galax_ia_sdk.Protocol.{CommandArg}
use galax_ia_sdk.Commands.Grammar.{is_blank, until, next_token}

abbrev pub IsBlank : ℕ → Type 0
IsBlank c = (c ≡ 32) ⊎ (c ≡ 9)

abbrev pub IsBare : ℕ → Type 0
IsBare c = (c ≢ 32) × (c ≢ 9)

abbrev pub StartsBare : Text → Type 0
StartsBare [] = Unit
StartsBare (c ∷ cs) = IsBare c

abbrev pub EndsBare : Text → Type 0
EndsBare [] = Unit
EndsBare (c ∷ []) = IsBare c
EndsBare (c ∷ d ∷ cs) = EndsBare (d ∷ cs)

-- Where a token ends: the last argument may take the whole line without the blanks at its end,
-- any other token holds no blank and stands before one or before the end.
abbrev pub Ends : Bool → Text → Text → Text → Type 0
Ends true token gap rest = (rest ≡ []) × EndsBare token
Ends false token gap rest = All IsBare token × ((0 < length gap) ⊎ (rest ≡ [])) × StartsBare rest

pub record Cut (whole : Bool) (cursor token rest : Text) : Type 0 where
  pub gap : Text
  pub blanks : All IsBlank gap
  pub parts : cursor ≡ token ++ (gap ++ rest)
  pub ends : Ends whole token gap rest

blank_lem : (c : ℕ) → is_blank c ≡ true → IsBlank c
blank_lem c h = ground arith

bare_lem : (c : ℕ) → is_blank c ≡ false → IsBare c
bare_lem c h = (λ e. ground arith, λ e. ground arith)

-- The blanks that a text starts with.
gap_of : Text → Text
gap_of [] = []
gap_of (c ∷ cs) = let more = gap_of cs in if is_blank c then c ∷ more else []

gap_of-IsBlank : (t : Text) → All IsBlank (gap_of t)
unfolding gap_of
gap_of-IsBlank [] = tt
gap_of-IsBlank (c ∷ cs) = elim (Bool-cases (is_blank c)) [
  | inl blank ↦ rw blank (blank_lem c blank, gap_of-IsBlank cs)
  | inr bare ↦ rw bare tt
]

gap_of-trim_start : (t : Text) → t ≡ gap_of t ++ trim_start is_blank t
unfolding gap_of trim_start
gap_of-trim_start [] = refl
gap_of-trim_start (c ∷ cs) = elim (Bool-cases (is_blank c)) [
  | inl blank ↦ rw blank (ap (◌∷◌ c) (gap_of-trim_start cs))
  | inr bare ↦ rw bare refl
]

trim_start-StartsBare : (t : Text) → StartsBare (trim_start is_blank t)
unfolding trim_start
trim_start-StartsBare [] = tt
trim_start-StartsBare (c ∷ cs) = elim (Bool-cases (is_blank c)) [
  | inl blank ↦ rw blank (trim_start-StartsBare cs)
  | inr bare ↦ rw bare (bare_lem c bare)
]

-- The blanks before the cursor.
pub leading_blanks :
    (t : Text) → (gap : Text) × All IsBlank gap × (t ≡ gap ++ trim_start is_blank t)
leading_blanks t = (gap_of t, gap_of-IsBlank t, gap_of-trim_start t)

-- What `until` leaves is nothing or starts with a blank.
blank_first :
    (t : Text)
    → (0 < length (gap_of (until is_blank t).1)) ⊎ (trim_start is_blank (until is_blank t).1 ≡ [])
unfolding until gap_of trim_start
blank_first [] = inr refl
blank_first (c ∷ cs) = elim (Bool-cases (is_blank c)) [
  | inl blank ↦ rw (blank, blank) (inl (omega arith))
  | inr bare ↦ rw bare (blank_first cs)
]

until_parts : (t : Text) → t ≡ (until is_blank t).0 ++ (until is_blank t).1
unfolding until
until_parts [] = refl
until_parts (c ∷ cs) = elim (Bool-cases (is_blank c)) [
  | inl blank ↦ rw blank refl
  | inr bare ↦ rw bare (ap (◌∷◌ c) (until_parts cs))
]

until-IsBare : (t : Text) → All IsBare (until is_blank t).0
unfolding until
until-IsBare [] = tt
until-IsBare (c ∷ cs) = elim (Bool-cases (is_blank c)) [
  | inl blank ↦ rw blank tt
  | inr bare ↦ rw bare (bare_lem c bare, until-IsBare cs)
]

abbrev Trimmed : Text → Text → Type 0
Trimmed t e = (gap : Text) × All IsBlank gap × (t ≡ e ++ gap) × EndsBare e

kept_or_not :
    (c : ℕ) (cs e : Text) → Trimmed cs e → Trimmed (c ∷ cs) (keep_unless_blank is_blank c e)
kept_or_not c cs [] (gap, blanks, parts, ends) = elim (Bool-cases (is_blank c)) [
  | inl blank ↦ rw blank (c ∷ gap, (blank_lem c blank, blanks), ap (◌∷◌ c) parts, tt)
  | inr bare ↦ rw bare (gap, blanks, ap (◌∷◌ c) parts, bare_lem c bare)
]
kept_or_not c cs (d ∷ ds) (gap, blanks, parts, ends) = (gap, blanks, ap (◌∷◌ c) parts, ends)

trim_end-Trimmed : (t : Text) → Trimmed t (trim_end is_blank t)
unfolding trim_end
trim_end-Trimmed [] = ([], tt, refl, tt)
trim_end-Trimmed (c ∷ cs) = kept_or_not c cs (trim_end is_blank cs) (trim_end-Trimmed cs)

-- A token and what is behind it are a cut of the cursor.
pub next_token-Cut :
    (arg : CommandArg) (cursor : Text)
    → Cut arg.rest cursor (next_token arg cursor).0 (next_token arg cursor).1
unfolding next_token
next_token-Cut arg cursor = go arg.rest
  where
    cut_at : Bool → Text × Text
    cut_at whole =
        if whole
        then (trim_end is_blank cursor, [])
        else ((until is_blank cursor).0, trim_start is_blank (until is_blank cursor).1)

    go : (whole : Bool) → Cut whole cursor (cut_at whole).0 (cut_at whole).1
    go true =
        let (gap, blanks, parts, ends) = trim_end-Trimmed cursor in
        record {
          gap = gap;
          blanks = blanks;
          parts = parts ∙ ap (λ g. trim_end is_blank cursor ++ g) (sym (append-nil gap));
          ends = (refl, ends);
        }
    go false =
        let behind = (until is_blank cursor).1 in
        record {
          gap = gap_of behind;
          blanks = gap_of-IsBlank behind;
          parts =
              until_parts cursor
              ∙ ap (λ r. (until is_blank cursor).0 ++ r) (gap_of-trim_start behind);
          ends = (until-IsBare cursor, blank_first cursor, trim_start-StartsBare behind);
        }
