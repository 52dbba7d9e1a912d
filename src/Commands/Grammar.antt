-- ===== src/Commands/Grammar.antt =====
-- The grammar of a line `/name args` of commands.rs.

pub mod Tokens
pub mod Nesting
pub mod Numbers
pub mod Values
pub mod Arguments
use galax_ia_sdk.Prelude.{
  ℕ, zero, suc, ◌+◌, ◌-◌, ◌*◌, ◌^◌, Bool, true, false, Option, none, some, List, [], ◌∷◌, ◌++◌,
  length, ltb, leb, ◌==◌, max, if◌then◌else◌, ◌&&◌, ◌||◌, not, all, any,
}
use galax_ia_sdk.Prelude.Int.{ℤ, pos, negsuc}
use galax_ia_sdk.Prelude.Lex.{list_eq}
use galax_ia_sdk.Prelude.Result.{Result, ok, err, ◌>>=◌}
use galax_ia_sdk.Text.{Text, Bytes, codes}
use galax_ia_sdk.Text.Trim.{is_whitespace, trim_start, trim_end}
use galax_ia_sdk.Text.Decimal.{print_ℤ, value_from}
use galax_ia_sdk.Protocol.{
  CommandArg, CommandResult, CommandDescriptor, CommandArgType, unspecified, string, integer,
  number, boolean, enum, arg_type_of, DynamicValue, boolean_value, integer_value, number_value,
  string_value, object_value, DynamicObject, empty, field,
}
use galax_ia_sdk.Authorization.{DigestError, value_digest, domain_command_args}
use galax_ia_sdk.Commands.{
  is_ascii_digit, is_ascii_uppercase, contains, is_empty, max_line_chars, max_scalar_chars,
}

pub data ArgValue : Type 0 where
  string_arg : Text → ArgValue
  integer_arg : ℤ → ArgValue
  number_arg : Text → ArgValue
  boolean_arg : Bool → ArgValue
  enum_arg : Text → ArgValue

pub data ParseError : Type 0 where
  line_too_long : ParseError
  missing : Text → ParseError
  extra : ParseError
  too_long : Text → ℤ → ParseError
  bad_char : Text → ℕ → ParseError
  too_deep : Text → ℤ → ParseError
  bad_integer : Text → ParseError
  bad_number : Text → ParseError
  bad_boolean : Text → ParseError
  bad_enum : Text → List Text → ParseError

pub data LineKind : Type 0 where
  plain : LineKind
  escaped : Text → LineKind
  command : Text → Text → LineKind

abbrev pub is_blank : ℕ → Bool
is_blank c = c == 32 || c == 9

-- `&s[..end]` and `&s[end..]` at the first character that passes a test, or at the end
unfoldable pub until : (ℕ → Bool) → Text → Text × Text
until p [] = ([], [])
until p (c ∷ cs) = let (token, rest) = until p cs in if p c then ([], c ∷ cs) else (c ∷ token, rest)

abbrev pub to_ascii_lowercase : Text → Text
to_ascii_lowercase [] = []
to_ascii_lowercase (c ∷ cs) = (if is_ascii_uppercase c then c + 32 else c) ∷ to_ascii_lowercase cs

abbrev pub after_slash : Text → LineKind
after_slash [] = command [] []
after_slash (c ∷ cs) =
    let (name, rest) = until is_blank (c ∷ cs) in
    if c == 47 then escaped (c ∷ cs) else command (to_ascii_lowercase name) rest

abbrev pub kind_of : Text → LineKind
kind_of [] = plain
kind_of (c ∷ cs) = if c == 47 then after_slash cs else plain

unfoldable pub classify_line : Text → LineKind
classify_line line = kind_of (trim_end is_whitespace (trim_start is_whitespace line))

-- `strip_prefix('-').unwrap_or(…)`, and whether there was a sign
unfoldable pub strip_minus : Text → Bool × Text
strip_minus [] = (false, [])
strip_minus (c ∷ cs) = if c == 45 then (true, cs) else (false, c ∷ cs)

abbrev pub starts_with : ℕ → Text → Bool
starts_with d [] = false
starts_with d (c ∷ cs) = c == d

-- not empty, only digits, and no leading zero but for 0 itself
unfoldable pub canonical_digits : Text → Bool
canonical_digits digits =
    not (is_empty digits)
    && all is_ascii_digit digits
    && (list_eq digits (48 ∷ []) || not (starts_with 48 digits))

-- `parse::<i64>` on a sign and digits
abbrev pub parse_i64 : Bool → Text → Option ℤ
parse_i64 negative digits =
    let n = value_from 0 digits in
    if negative
    then (if n == 0 then some (pos 0) else if leb n (2 ^ 63) then some (negsuc (n - 1)) else none)
    else if ltb n (2 ^ 63)
    then some (pos n)
    else none

abbrev pub integer_or : Text → Option ℤ → Result ArgValue ParseError
integer_or arg none = err (bad_integer arg)
integer_or arg (some i) = ok (integer_arg i)

unfoldable pub parse_integer : Text → Text → Result ArgValue ParseError
parse_integer arg token =
    let (negative, digits) = strip_minus token in
    if not (canonical_digits digits) || ltb max_scalar_chars (length token)
    then err (bad_integer arg)
    else integer_or arg (parse_i64 negative digits)

-- `split_once('.')`
unfoldable pub split_once : ℕ → Text → Text × Option Text
split_once sep [] = ([], none)
split_once sep (c ∷ cs) =
    let (before, after) = split_once sep cs in
    if c == sep then ([], some cs) else (c ∷ before, after)

abbrev pub fraction_ok : Option Text → Bool
fraction_ok none = true
fraction_ok (some f) = not (is_empty f) && all is_ascii_digit f

unfoldable pub canonical_number : Text → Text
canonical_number text =
    let (negative, rest) = strip_minus text in
    if negative && all (λ c. c == 48 || c == 46) rest then rest else text

unfoldable pub parse_number : Text → Text → Result ArgValue ParseError
parse_number arg token =
    let (whole, fraction) = split_once 46 (strip_minus token).1 in
    if ltb max_scalar_chars (length token)
    then err (bad_number arg)
    else if not (canonical_digits whole) || not (fraction_ok fraction)
    then err (bad_number arg)
    else ok (number_arg (canonical_number token))

-- `chars().find(…)`
unfoldable pub find_char : (ℕ → Bool) → Text → Option ℕ
find_char p [] = none
find_char p (c ∷ cs) = if p c then some c else find_char p cs

abbrev pub has_char : Text → ℕ → Bool
has_char t c = any (λ d. d == c) t

-- The deepest open parenthesis: the depth now and the greatest so far.
unfoldable pub nesting_from : ℕ → ℕ → Text → ℕ
nesting_from depth most [] = most
nesting_from depth most (c ∷ cs) =
    let opened = nesting_from (depth + 1) (max most (depth + 1)) cs in
    let closed = nesting_from (depth - 1) most cs in
    let same = nesting_from depth most cs in
    if c == 40 then opened else if c == 41 then closed else same

-- `max_length as usize`, a number of 64 bits
abbrev pub as_usize : ℤ → ℕ
as_usize (pos n) = n
as_usize (negsuc n) = 2 ^ 64 - 1 - n

abbrev pub exceeds : ℕ → ℤ → Bool
exceeds depth (pos n) = ltb n depth
exceeds depth (negsuc n) = true

abbrev pub is_positive : ℤ → Bool
is_positive (pos n) = ltb 0 n
is_positive (negsuc n) = false

abbrev pub or_bad_char : Text → Option ℕ → Result ArgValue ParseError → Result ArgValue ParseError
or_bad_char arg (some c) next = err (bad_char arg c)
or_bad_char arg none next = next

abbrev pub first_bad_char : CommandArg → Text → Option ℕ
first_bad_char arg token =
    if is_empty arg.allowed_chars
    then none
    else find_char (λ c. not (has_char arg.allowed_chars c)) token

unfoldable pub parse_string : CommandArg → Text → Result ArgValue ParseError
parse_string arg token =
    if ltb (as_usize arg.max_length) (length token)
    then err (too_long arg.name arg.max_length)
    else or_bad_char arg.name (first_bad_char arg token) (
        if is_positive arg.max_nesting && exceeds (nesting_from 0 0 token) arg.max_nesting
        then err (too_deep arg.name arg.max_nesting)
        else ok (string_arg token))

unfoldable pub parse_typed : CommandArgType → CommandArg → Text → Result ArgValue ParseError
parse_typed string arg token = parse_string arg token
parse_typed integer arg token = parse_integer arg.name token
parse_typed number arg token = parse_number arg.name token
parse_typed boolean arg token =
    if list_eq token (codes "true")
    then ok (boolean_arg true)
    else if list_eq token (codes "false")
    then ok (boolean_arg false)
    else err (bad_boolean arg.name)
parse_typed enum arg token =
    if contains arg.enum_values token
    then ok (enum_arg token)
    else err (bad_enum arg.name arg.enum_values)
parse_typed unspecified arg token = err (missing arg.name)

unfoldable pub parse_value : CommandArg → Text → Result ArgValue ParseError
parse_value arg token = parse_typed (arg_type_of arg.arg_type) arg token

-- the token of an argument and the cursor behind it
unfoldable pub next_token : CommandArg → Text → Text × Text
next_token arg cursor =
    let (token, rest) = until is_blank cursor in
    if arg.rest then (trim_end is_blank cursor, []) else (token, trim_start is_blank rest)

abbrev pub Parsed : Type 0
Parsed = List (Text × ArgValue)

-- The loop over the arguments; the check behind it is that nothing is left.
unfoldable pub parse_from : List CommandArg → Text → Result Parsed ParseError
parse_from [] cursor = if is_empty cursor then ok [] else err extra
parse_from (arg ∷ args) cursor =
    let (token, rest) = next_token arg cursor in
    let parsed = parse_value arg token >>= λ value.
    parse_from args rest >>= λ more. ok ((arg.name, value) ∷ more) in
    if is_empty cursor then (if arg.required then err (missing arg.name) else ok []) else parsed

unfoldable pub parse_args : CommandDescriptor → Text → Result Parsed ParseError
parse_args d rest =
    if ltb max_line_chars (length rest)
    then err line_too_long
    else parse_from d.args (trim_start is_blank rest)

abbrev pub usage_arg : CommandArg → Text
usage_arg arg =
    let dots = if arg.rest then codes "..." else [] in
    if arg.required
    then codes " <" ++ (arg.name ++ (dots ++ codes ">"))
    else codes " [" ++ (arg.name ++ (dots ++ codes "]"))

unfoldable pub usage_args : List CommandArg → Text
usage_args [] = []
usage_args (arg ∷ args) = usage_arg arg ++ usage_args args

unfoldable pub usage : CommandDescriptor → Text
usage d = codes "/" ++ (d.name ++ usage_args d.args)
