-- ===== src/Ipfs/Url.antt =====
-- The address that a client of the API calls: which texts are accepted as it, loopback only and with
-- a port, and what they stand for.
use galax_ia_sdk.Prelude.{ℕ, ◌≤◌, ◌<◌, ◌≡◌, ◌⊎◌, [], ◌∷◌, ◌++◌, length, All}
use galax_ia_sdk.Text.{Text, codes}
use galax_ia_sdk.Text.Decimal.{print_ℕ, value_from}

-- A port: an optional plus sign, and digits that give a number from 1 to 65535.
pub record PortOf (port : Text) (n : ℕ) : Type 0 where
  pub digits : Text
  pub spelled : (port ≡ digits) ⊎ (port ≡ 43 ∷ digits)
  pub some_digit : 0 < length digits
  pub all_digits : All (λ c. (48 ≤ c) × (c ≤ 57)) digits
  pub value : value_from 0 digits ≡ n
  pub positive : 1 ≤ n
  pub fits : n < 65536

-- An accepted URL and its base: one of the two loopback addresses, with or without brackets, a
-- colon, a port, and at most one slash behind it.
pub record Accepted (raw base : Text) : Type 0 where
  pub host : Text
  pub port : Text
  pub n : ℕ
  pub slash : Text
  pub at_most_one : (slash ≡ []) ⊎ (slash ≡ codes "/")
  pub spelled :
      (raw ≡ codes "http://" ++ ((host ++ 58 ∷ port) ++ slash))
      ⊎ (raw ≡ codes "http://" ++ ((91 ∷ (host ++ 93 ∷ 58 ∷ port)) ++ slash))
  pub number : PortOf port n
  pub loopback :
      ((host ≡ codes "127.0.0.1") × (base ≡ codes "http://127.0.0.1:" ++ print_ℕ n))
      ⊎ ((host ≡ codes "::1") × (base ≡ codes "http://[::1]:" ++ print_ℕ n))
