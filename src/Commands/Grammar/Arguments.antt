-- ===== src/Commands/Grammar/Arguments.antt =====
-- The arguments that `parse_args` of commands.rs accepts: how the line is cut into tokens and what
-- the value of each token is.
use galax_ia_sdk.Prelude.{
  ◌≤◌, ◌≡◌, refl, subst, Bool, true, false, List, [], ◌∷◌, ◌++◌, arith, length, ltb, All,
  Bool-cases, inl, inr, if◌then◌else◌,
}
use galax_ia_sdk.Prelude.Result.{ok, err, ◌>>=◌, >>=-eq-ok, passed, ok_injective}
use galax_ia_sdk.Text.{Text}
use galax_ia_sdk.Text.Trim.{trim_start}
use galax_ia_sdk.Protocol.{CommandArg, CommandDescriptor, arg_type_of}
use galax_ia_sdk.Commands.{is_empty, max_line_chars}
use galax_ia_sdk.Commands.Grammar.{
  missing, extra, line_too_long, Parsed, parse_value, parse_from, parse_args, next_token, is_blank,
}
use galax_ia_sdk.Commands.Grammar.Tokens.{IsBlank, Cut, leading_blanks, next_token-Cut}
use galax_ia_sdk.Commands.Grammar.Values.{FitsAs, parse_value-FitsAs}

-- `Reads args cursor out`: the values stand for the first arguments, in order and under their
-- names, each for the next token of the line; nothing of the line is left, and the first argument
-- without a value is optional.
abbrev pub Reads : List CommandArg → Text → Parsed → Type 0
Reads [] cursor [] = cursor ≡ []
Reads [] cursor (x ∷ more) = ⊥
Reads (arg ∷ args) cursor [] = (cursor ≡ []) × (arg.required ≡ false)
Reads (arg ∷ args) cursor ((name, value) ∷ more) =
    (token : Text) × (rest : Text) × (name ≡ arg.name)
    × Cut arg.rest cursor token rest
    × FitsAs (arg_type_of arg.arg_type) arg token value
    × Reads args rest more

-- A line of arguments: blanks, and the tokens.
pub record Line (args : List CommandArg) (line : Text) (out : Parsed) : Type 0 where
  pub short : length line ≤ 2048
  pub gap : Text
  pub cursor : Text
  pub blanks : All IsBlank gap
  pub parts : line ≡ gap ++ cursor
  pub reads : Reads args cursor out

empty_lem : (t : Text) → is_empty t ≡ true → t ≡ []
empty_lem [] h = refl
empty_lem (c ∷ cs) h = cc

parsed_lem :
    (arg : CommandArg) (args : List CommandArg) (cursor token rest : Text) (out : Parsed)
    → Cut arg.rest cursor token rest
    → ((more : Parsed) → parse_from args rest ≡ ok more → Reads args rest more)
    → (parse_value arg token >>= λ value.
        parse_from args rest >>= λ more. ok ((arg.name, value) ∷ more))
      ≡ ok out
    → Reads (arg ∷ args) cursor out
parsed_lem arg args cursor token rest out cut again h =
    let (v, p, k) = >>=-eq-ok (parse_value arg token) _ h in
    let (more, q, e) = >>=-eq-ok (parse_from args rest) _ k in
    subst (Reads (arg ∷ args) cursor) (ok_injective e)
      (token, rest, refl, cut, parse_value-FitsAs arg token v p, again more q)

end_lem :
    (arg : CommandArg) (args : List CommandArg) (cursor : Text) (out : Parsed) (b : Bool)
    → cursor ≡ []
    → arg.required ≡ b
    → (if b then err (missing arg.name) else ok []) ≡ ok out
    → Reads (arg ∷ args) cursor out
end_lem arg args cursor out true over p h = cc
end_lem arg args cursor out false over p h =
    subst (Reads (arg ∷ args) cursor) (ok_injective h) (over, p)

last_lem :
    (cursor : Text) (out : Parsed) (b : Bool)
    → is_empty cursor ≡ b
    → (if b then ok [] else err extra) ≡ ok out
    → Reads [] cursor out
last_lem cursor out true e h = subst (Reads [] cursor) (ok_injective h) (empty_lem cursor e)
last_lem cursor out false e h = cc

parse_from-Reads :
    (args : List CommandArg) (cursor : Text) (out : Parsed)
    → parse_from args cursor ≡ ok out
    → Reads args cursor out
unfolding parse_from
parse_from-Reads [] cursor out h = last_lem cursor out (is_empty cursor) refl h
parse_from-Reads (arg ∷ args) cursor out h = elim (Bool-cases (is_empty cursor)) [
  | inl over ↦ end_lem arg args cursor out arg.required (empty_lem cursor over) refl (rw over at h)
  | inr more ↦
      parsed_lem arg args cursor (next_token arg cursor).0 (next_token arg cursor).1 out
        (next_token-Cut arg cursor) (parse_from-Reads args (next_token arg cursor).1) (rw more at h)
]

-- A line whose arguments are accepted has at most 2048 characters and is cut at its blanks into
-- one token for each of the first arguments of the descriptor, an argument marked so taking the
-- rest of the line; each value is that of its token in the type of its argument and within its
-- length, characters, nesting or values, and the first argument without a value is optional.
pub parse_args-Line :
    (d : CommandDescriptor) (rest : Text) (out : Parsed)
    → parse_args d rest ≡ ok out
    → Line d.args rest out
unfolding parse_args
parse_args-Line d rest out h =
    let (short, later) = passed (ltb max_line_chars (length rest)) line_too_long _ h in
    let (gap, blanks, parts) = leading_blanks rest in
    record {
      short = ground arith;
      gap = gap;
      cursor = trim_start is_blank rest;
      blanks = blanks;
      parts = parts;
      reads = parse_from-Reads d.args (trim_start is_blank rest) out later;
    }
