-- ===== src/Commands/Grammar/Values.antt =====
-- The value of one argument in commands.rs: what a token has to be for the type of the argument.
use galax_ia_sdk.Prelude.{
  ℕ, zero, suc, ◌≤◌, ◌≡◌, ◌⊎◌, inl, inr, refl, sym, Bool, true, false, Option, none, some, List, [],
  ◌∷◌, arith, length, ltb, ◌==◌, ==_iff, ◌&&◌, not, All, Bool-cases, if◌then◌else◌,
}
use galax_ia_sdk.Prelude.Int.{ℤ, pos, negsuc}
use galax_ia_sdk.Prelude.Lex.{list_eq, list_eq_iff}
use galax_ia_sdk.Prelude.Result.{ok, err, passed, ok_injective}
use galax_ia_sdk.Text.{Text, codes}
use galax_ia_sdk.Protocol.{
  CommandArg, CommandArgType, unspecified, string, integer, number, boolean, enum, arg_type_of,
}
use galax_ia_sdk.Commands.{contains, is_empty}
use galax_ia_sdk.Commands.Grammar.{
  too_deep, too_long, bad_boolean, bad_enum, ArgValue, string_arg, boolean_arg, enum_arg,
  parse_string, parse_typed, parse_value, find_char, has_char, first_bad_char, or_bad_char,
  as_usize, is_positive, exceeds, nesting_from,
}
use galax_ia_sdk.Commands.Grammar.Nesting.{NoDeeper, stretches_lem}
use galax_ia_sdk.Commands.Grammar.Numbers.{
  IntegerToken, NumberToken, parse_integer-IntegerToken, parse_number-NumberToken,
}

-- Whether something stands in a list.
abbrev pub In : {A : Type 0} → A → List A → Type 0
In x [] = ⊥
In x (y ∷ ys) = (y ≡ x) ⊎ In x ys

-- The limits of a text; a limit that is not positive on the nesting is none.
abbrev pub Within : ℤ → Text → Type 0
Within (pos n) t = length t ≤ n
Within (negsuc n) t = Unit

abbrev pub Allowed : Text → Text → Type 0
Allowed [] t = Unit
Allowed (a ∷ more) t = All (λ c. In c (a ∷ more)) t

abbrev pub Flat : ℤ → Text → Type 0
Flat (pos zero) t = Unit
Flat (pos (suc n)) t = NoDeeper (suc n) t
Flat (negsuc n) t = Unit

abbrev pub FitsAs : CommandArgType → CommandArg → Text → ArgValue → Type 0
FitsAs string arg token v =
    (v ≡ string_arg token)
    × Within arg.max_length token
    × Allowed arg.allowed_chars token
    × Flat arg.max_nesting token
FitsAs integer arg token v = IntegerToken token v
FitsAs number arg token v = NumberToken token v
FitsAs boolean arg token v =
    ((token ≡ codes "true") × (v ≡ boolean_arg true))
    ⊎ ((token ≡ codes "false") × (v ≡ boolean_arg false))
FitsAs enum arg token v = (v ≡ enum_arg token) × In token arg.enum_values
FitsAs unspecified arg token v = ⊥

has_char-In : (c : ℕ) (t : Text) → has_char t c ≡ true → In c t
has_char-In c [] h = cc
has_char-In c (d ∷ ds) h = elim (Bool-cases (d == c)) [
  | inl same ↦ inl ((==_iff d c).0 same)
  | inr other ↦ inr (has_char-In c ds (rw other at h))
]

find_char-In :
    (allowed token : Text)
    → find_char (λ c. not (has_char allowed c)) token ≡ none
    → All (λ c. In c allowed) token
unfolding find_char
find_char-In allowed [] h = tt
find_char-In allowed (c ∷ cs) h = elim (Bool-cases (has_char allowed c)) [
  | inl here ↦ (has_char-In c allowed here, find_char-In allowed cs (rw here at h))
  | inr absent ↦ absurd (some_none (rw absent at h))
]
  where
    some_none : Path (Option ℕ) (some c) none → ⊥
    some_none q = cc

first_bad_char-Allowed :
    (arg : CommandArg) (allowed token : Text)
    → (if is_empty allowed then none else find_char (λ c. not (has_char allowed c)) token) ≡ none
    → Allowed allowed token
first_bad_char-Allowed arg [] token h = tt
first_bad_char-Allowed arg (a ∷ more) token h = find_char-In (a ∷ more) token h

within_lem : (limit : ℤ) (t : Text) → ltb (as_usize limit) (length t) ≡ false → Within limit t
within_lem (pos n) t h = ground arith
within_lem (negsuc n) t h = tt

flat_lem :
    (limit : ℤ) (t : Text)
    → is_positive limit && exceeds (nesting_from 0 0 t) limit ≡ false
    → Flat limit t
flat_lem (pos zero) t h = tt
flat_lem (pos (suc n)) t h = stretches_lem t 0 0 (suc n) (omega arith) (ground arith)
flat_lem (negsuc n) t h = tt

parse_string-FitsAs :
    (arg : CommandArg) (token : Text) (v : ArgValue)
    → parse_string arg token ≡ ok v
    → FitsAs string arg token v
unfolding parse_string
parse_string-FitsAs arg token v h =
    let (short, later) =
      passed (ltb (as_usize arg.max_length) (length token)) (too_long arg.name arg.max_length) _
        h in
    go (first_bad_char arg token) refl short later
  where
    go :
        (bad : Option ℕ)
        → first_bad_char arg token ≡ bad
        → ltb (as_usize arg.max_length) (length token) ≡ false
        → or_bad_char arg.name bad (
            if is_positive arg.max_nesting && exceeds (nesting_from 0 0 token) arg.max_nesting
            then err (too_deep arg.name arg.max_nesting)
            else ok (string_arg token))
          ≡ ok v
        → FitsAs string arg token v
    go (some c) e short q = cc
    go none e short q =
        let (flat, same) = passed _ (too_deep arg.name arg.max_nesting) (ok (string_arg token)) q in
        (
          sym (ok_injective same),
          within_lem arg.max_length token short,
          first_bad_char-Allowed arg arg.allowed_chars token e,
          flat_lem arg.max_nesting token flat,
        )

contains-In : (l : List Text) (t : Text) → contains l t ≡ true → In t l
contains-In [] t h = cc
contains-In (x ∷ xs) t h = elim (Bool-cases (list_eq x t)) [
  | inl same ↦ inl ((list_eq_iff x t).0 same)
  | inr other ↦ inr (contains-In xs t (rw other at h))
]

boolean_lem :
    (arg : CommandArg) (token : Text) (v : ArgValue) (a b : Bool)
    → list_eq token (codes "true") ≡ a
    → list_eq token (codes "false") ≡ b
    → (if a
        then ok (boolean_arg true)
        else if b
        then ok (boolean_arg false)
        else err (bad_boolean arg.name))
      ≡ ok v
    → FitsAs boolean arg token v
boolean_lem arg token v true b p q h =
    inl ((list_eq_iff token (codes "true")).0 p, sym (ok_injective h))
boolean_lem arg token v false true p q h =
    inr ((list_eq_iff token (codes "false")).0 q, sym (ok_injective h))
boolean_lem arg token v false false p q h = cc

enum_lem :
    (arg : CommandArg) (token : Text) (v : ArgValue) (b : Bool)
    → contains arg.enum_values token ≡ b
    → (if b then ok (enum_arg token) else err (bad_enum arg.name arg.enum_values)) ≡ ok v
    → FitsAs enum arg token v
enum_lem arg token v true p h = (sym (ok_injective h), contains-In arg.enum_values token p)
enum_lem arg token v false p h = cc

parse_typed-FitsAs :
    (t : CommandArgType) (arg : CommandArg) (token : Text) (v : ArgValue)
    → parse_typed t arg token ≡ ok v
    → FitsAs t arg token v
unfolding parse_typed
parse_typed-FitsAs string arg token v h = parse_string-FitsAs arg token v h
parse_typed-FitsAs integer arg token v h = parse_integer-IntegerToken arg.name token v h
parse_typed-FitsAs number arg token v h = parse_number-NumberToken arg.name token v h
parse_typed-FitsAs boolean arg token v h = boolean_lem arg token v _ _ refl refl h
parse_typed-FitsAs enum arg token v h = enum_lem arg token v (contains arg.enum_values token) refl h
parse_typed-FitsAs unspecified arg token v h = cc

-- A value that is accepted is that of a token of the type of the argument, within its limits.
pub parse_value-FitsAs :
    (arg : CommandArg) (token : Text) (v : ArgValue)
    → parse_value arg token ≡ ok v
    → FitsAs (arg_type_of arg.arg_type) arg token v
unfolding parse_value
parse_value-FitsAs arg token v h = parse_typed-FitsAs (arg_type_of arg.arg_type) arg token v h
