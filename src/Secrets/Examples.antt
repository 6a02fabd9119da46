-- ===== src/Secrets/Examples.antt =====
-- A concrete codec and vault: each theorem on apps/shell/src/main/secret-store.ts at it.
use Prim.Native.Nat.{zero, suc}
use deepseek_harness.Common.{
  Text, text_eq, ℕ, ◌+◌, true, Option, none, some, [], ◌∷◌, ◌≡◌, refl, ◌∙◌, arith, every, ◌==◌,
  nat_eq, if◌then◌else◌,
}
use deepseek_harness.Supervisor.Output.{units}
use deepseek_harness.Secrets.Vault.{Codec, read_vault, get_secret, set_secret, secret}
use deepseek_harness.Secrets.Keys.RoundTrip.{is_base64, Laws, get_secret-set_secret}
use deepseek_harness.Secrets.Store.{SecretStore}

-- A unit is written as so many letters A and a B.
abbrev letters : ℕ → Text → Text
letters zero rest = 66 ∷ rest
letters (suc n) rest = 65 ∷ letters n rest

abbrev write_all : Text → Text
write_all [] = []
write_all (c ∷ cs) = letters c (write_all cs)

abbrev read_all : ℕ → Text → Text
read_all n [] = []
read_all n (c ∷ cs) = if c == 65 then read_all (suc n) cs else n ∷ read_all 0 cs

read_letters : (n c : ℕ) (rest : Text) → read_all n (letters c rest) ≡ (n + c) ∷ read_all 0 rest
read_letters n zero rest = ground arith
read_letters n (suc c) rest = read_letters (suc n) c rest ∙ ground arith

read_written : (text : Text) → read_all 0 (write_all text) ≡ text
read_written [] = refl
read_written (c ∷ cs) = read_letters 0 c (write_all cs) ∙ ground (arith, read_written cs)

letters-base64 :
    (c : ℕ) (rest : Text) → every is_base64 rest ≡ true → every is_base64 (letters c rest) ≡ true
letters-base64 zero rest h = h
letters-base64 (suc c) rest h = letters-base64 c rest h

written-base64 : (text : Text) → every is_base64 (write_all text) ≡ true
written-base64 [] = refl
written-base64 (c ∷ cs) = letters-base64 c (write_all cs) (written-base64 cs)

abbrev codec : Codec
codec = record { encode = write_all; decode = read_all 0 }

laws : Laws codec
laws = record { decodes = λ text plain. read_written text; encodes = written-base64 }

abbrev key : Text
key = units "0f"

get_secret-set_secret_example :
    get_secret codec key true (set_secret codec key true none (units "K") (units "v=1")) (units "K")
    ≡ (if units "K" == units "K"
        then secret (units "v=1")
        else get_secret codec key true none (units "K"))
get_secret-set_secret_example =
    get_secret-set_secret codec key laws refl none (units "K") (units "v=1") (units "K")
      (unfold read_vault in tt) (((λ e. absurd (cc e)), refl, refl), refl) refl refl

-- A store of one secret.
abbrev single : SecretStore (Option Text)
single = record { get_secret = λ s k. s; set_secret = λ s k v. some v }
