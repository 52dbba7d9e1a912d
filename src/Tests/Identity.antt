-- ===== src/Tests/Identity.antt =====
-- rust/fhs/src/p2p/identity.rs on concrete inputs, with small crates: a key pair is its bytes.
use galax_ia_sdk.Prelude.{
  ℕ, ◌+◌, ◌-◌, ◌∙◌, map, arith, ◌≡◌, refl, true, false, Option, none, some, [], ◌∷◌, ap, sym,
}
use galax_ia_sdk.Prelude.Result.{ok}
use galax_ia_sdk.Text.{Text, Bytes}
use galax_ia_sdk.Text.Trim.{trim, trim_start, trim_end, keep_unless_blank, is_whitespace}
use galax_ia_sdk.Identity.{Crates, NodeIdentity, load_or_create, absent, from_keypair, did_of}
use galax_ia_sdk.Identity.Keys.{ReadsBack}

-- a letter far behind the blanks for each byte
abbrev letters : Bytes → Text
letters = map (λ (b : ℕ). b + 100000)

abbrev from_letters : Text → Bytes
from_letters = map (λ (c : ℕ). c - 100000)

letter_lem : (b : ℕ) → is_whitespace (b + 100000) ≡ false
letter_lem b = ground arith

start_lem : (b : Bytes) → trim_start is_whitespace (letters b) ≡ letters b
unfolding trim_start
start_lem [] = refl
start_lem (b ∷ bs) = rw (letter_lem b) refl

kept_lem :
    (b : ℕ) (bs : Bytes)
    → keep_unless_blank is_whitespace (b + 100000) (letters bs) ≡ letters (b ∷ bs)
kept_lem b [] = rw (letter_lem b) refl
kept_lem b (c ∷ bs) = refl

end_lem : (b : Bytes) → trim_end is_whitespace (letters b) ≡ letters b
unfolding trim_end
end_lem [] = refl
end_lem (b ∷ bs) = ap (keep_unless_blank is_whitespace (b + 100000)) (end_lem bs) ∙ kept_lem b bs

back_lem : (b : Bytes) → from_letters (letters b) ≡ b
back_lem [] = refl
back_lem (b ∷ bs) = let same : b + 100000 - 100000 ≡ b = omega arith in λ i. same i ∷ back_lem bs i

hex_lem : (b : Bytes) → Path (Option Bytes) (some (from_letters (trim (letters b)))) (some b)
unfolding trim
hex_lem b =
    ap (λ t. some (from_letters (trim_end is_whitespace t))) (start_lem b)
    ∙ ap (λ t. some (from_letters t)) (end_lem b)
    ∙ ap some (back_lem b)

abbrev crates : Crates
crates = record {
  Keypair = Bytes;
  ed25519_public = λ kp. some kp;
  peer_id = λ kp. 1;
  to_protobuf = λ kp. some kp;
  from_protobuf = λ b. some b;
  base58_encode = λ b. b;
  hex_encode = letters;
  hex_decode = λ t. some (from_letters t);
  base64_decode = λ t. none;
  parse_json = λ t. some (record { private_key_hex = some t; key = none });
  print_json = λ t. t;
  peer_of_public = λ b. some 1;
}

crates-ReadsBack : ReadsBack crates
crates-ReadsBack = record { json = λ hex. refl; hex = hex_lem; protobuf = λ kp b h. sym h }

abbrev pair : Bytes
pair = 7 ∷ 8 ∷ []

abbrev identity : NodeIdentity crates
identity = record { keypair = pair; peer_id = 1; did = did_of crates pair }

created_run : load_or_create crates pair true absent ≡ (ok identity, some (letters pair))
unfolding load_or_create from_keypair
created_run = refl
