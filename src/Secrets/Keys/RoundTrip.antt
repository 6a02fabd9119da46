-- ===== src/Secrets/Keys/RoundTrip.antt =====
-- apps/shell/src/main/secret-store.ts: the vault file gives back the secrets that were set.
use Prim.Native.Nat.{bit_xor, zero, suc}
use Prim.Native.Nat.{zero, suc}
use mathlib.Core.List.{append_assoc, append-nil}
use deepseek_harness.Common.{
  Text, text_eq, text_beq_iff, split_at-join_with, join_after, ℕ, ◌+◌, ◌<◌, ◌%◌, Bool, true, false,
  not, ◌&&◌, ◌||◌, Option, none, some, [], ◌∷◌, ◌++◌, map, every, length, ◌≡◌, refl, sym, ap, ◌∙◌,
  arith, All, contains, Bool-cases, inl, inr, ◌==◌, nat_eq, ltb, leb, if◌then◌else◌, not_true,
}
use deepseek_harness.Common.JsMap.{get, set, Uniq, get-set}
use deepseek_harness.Common.JsMap.Entries.{set-All, set-Uniq}
use deepseek_harness.Supervisor.Output.{span}
use deepseek_harness.Secrets.Xor.{bit_xor-bit_xor, bit_xor-high}
use deepseek_harness.Secrets.Vault.{
  Codec, Vault, unit_at, obfuscate_from, read_line, print_line, read_lines, read_vault, write_vault,
  get_secret, set_secret, secret, member,
}
use deepseek_harness.Secrets.Keys.Names.{IsName, read_vault-IsName}

-- No unit is half of a surrogate pair.
abbrev pub is_plain : ℕ → Bool
is_plain c = ltb c 55296 || ltb 57343 c

abbrev pub IsPlain : Text → Type 0
IsPlain text = every is_plain text ≡ true

-- The alphabet of base64, with its padding.
abbrev pub is_base64 : ℕ → Bool
is_base64 c =
    (leb 48 c && leb c 57)
    || (leb 65 c && leb c 90)
    || (leb 97 c && leb c 122)
    || c == 43
    || c == 47
    || c == 61

-- What Node documents of the codec: texts without lone surrogates come back, and base64 is written in
-- its alphabet.
pub record Laws (codec : Codec) : Type 0 where
  pub decodes : (text : Text) → IsPlain text → codec.decode (codec.encode text) ≡ text
  pub encodes : (text : Text) → every is_base64 (codec.encode text) ≡ true

-- A key of ASCII units, such as a hexadecimal hash.
abbrev pub IsKey : Text → Type 0
IsKey key = every (λ c. ltb c 128) key ≡ true

unit_at-lt : (key : Text) (i : ℕ) → IsKey key → unit_at key i < 128
unit_at-lt [] i h = omega arith
unit_at-lt (c ∷ cs) zero h = ground arith
unit_at-lt (c ∷ cs) (suc i) h = unit_at-lt cs i (ground arith)

obfuscate_twice :
    (key : Text) (i : ℕ) (v : Text) → obfuscate_from key i (obfuscate_from key i v) ≡ v
unfolding obfuscate_from
obfuscate_twice key i [] = refl
obfuscate_twice key i (c ∷ cs) =
    cc (bit_xor-bit_xor c (unit_at key (i % length key)), obfuscate_twice key (i + 1) cs)

and_parts : (a b : Bool) → (a && b) ≡ true → (a ≡ true) × (b ≡ true)
and_parts true b h = (refl, h)
and_parts false b h = absurd (cc h)

xor-is_plain : (c k : ℕ) → k < 128 → is_plain c ≡ true → is_plain (bit_xor c k) ≡ true
xor-is_plain c k h p = let high = bit_xor-high c k h in ground (arith, high)

obfuscate-IsPlain :
    (key : Text) (i : ℕ) (v : Text) → IsKey key → IsPlain v → IsPlain (obfuscate_from key i v)
unfolding obfuscate_from
obfuscate-IsPlain key i [] h p = refl
obfuscate-IsPlain key i (c ∷ cs) h p =
    let (first, rest) = and_parts (is_plain c) (every is_plain cs) p in
    rw (xor-is_plain c (unit_at key (i % length key)) (unit_at-lt key (i % length key) h) first)
      (obfuscate-IsPlain key (i + 1) cs h rest)

every-append :
    (p : ℕ → Bool) (xs ys : Text)
    → every p xs ≡ true
    → every p ys ≡ true
    → every p (xs ++ ys) ≡ true
every-append p [] ys h k = k
every-append p (x ∷ xs) ys h k = ground (arith, every-append p xs ys)

base64-IsPlain : (text : Text) → every is_base64 text ≡ true → IsPlain text
base64-IsPlain [] h = refl
base64-IsPlain (c ∷ cs) h = ground (arith, base64-IsPlain cs)

base64_one_line : (text : Text) → every is_base64 text ≡ true → contains text 10 ≡ false
base64_one_line [] h = refl
base64_one_line (c ∷ cs) h = ground (arith, base64_one_line cs)

contains-append :
    (xs ys : Text) (c : ℕ)
    → contains xs c ≡ false
    → contains ys c ≡ false
    → contains (xs ++ ys) c ≡ false
contains-append [] ys c h k = k
contains-append (x ∷ xs) ys c h k = ground (arith, contains-append xs ys c)

span_name :
    (k rest : Text)
    → contains k 61 ≡ false
    → span (λ c. not (c == 61)) (k ++ (61 ∷ rest)) ≡ (k, 61 ∷ rest)
span_name [] rest h = refl
span_name (c ∷ cs) rest h = ground (arith, span_name cs rest)

set_fresh : (k v : Text) (m : Vault) → get k m ≡ none → set k v m ≡ m ++ ((k, v) ∷ [])
set_fresh k v [] h = refl
set_fresh k v ((j, w) ∷ m) h = ground (arith, set_fresh k v m)

get-none-All : (k : Text) (m : Vault) → get k m ≡ none → All (λ e. (k == e.0) ≡ false) m
get-none-All k [] h = tt
get-none-All k ((j, w) ∷ m) h = elim (Bool-cases (j == k)) [
  | inl same ↦ absurd (cc (rw same at h))
  | inr other ↦ (
    not_true (k == j) (λ e. cc (other, (text_beq_iff j k).1 (sym ((text_beq_iff k j).0 e)))),
    get-none-All k m (rw other at h),
  )
]

fresh-set :
    (k v : Text) (out rest : Vault)
    → All (λ e. (k == e.0) ≡ false) rest
    → All (λ e. get e.0 out ≡ none) rest
    → All (λ e. get e.0 (set k v out) ≡ none) rest
fresh-set k v out [] a b = tt
fresh-set k v out ((j, w) ∷ rest) a b =
    (get-set k j v out ∙ rw a.0 b.0, fresh-set k v out rest a.1 b.1)

abbrev no_entries : Vault
no_entries = []

-- An entry that a line can hold.
abbrev pub IsEntry : Text × Text → Type 0
IsEntry e = IsName e.0 × IsPlain e.0 × IsPlain e.1

both_All :
    (m : Vault) → All (λ e. IsName e.0) m → All (λ e. IsPlain e.0 × IsPlain e.1) m → All IsEntry m
both_All [] a b = tt
both_All (e ∷ m) a b = ((a.0, b.0.0, b.0.1), both_All m a.1 b.1)

member-set :
    (k j v : Text) (m : Vault) → member (set k v m) j ≡ (if k == j then secret v else member m j)
unfolding member
member-set k j v m = ground (arith, get-set k j v m)

module _ (codec : Codec) (key : Text) (laws : Laws codec) (is_key : IsKey key) where
  read_line-print_line :
      (e : Text × Text) → IsEntry e → read_line codec key (print_line codec key e) ≡ some e
  unfolding read_line
  read_line-print_line ([], v) g = absurd (g.0.0.0 refl)
  read_line-print_line (c ∷ cs, v) g =
      let shut = obfuscate_from key 0 v in
      let back : obfuscate_from key 0 (codec.decode (codec.encode shut)) ≡ v =
        ap (obfuscate_from key 0) (laws.decodes shut (obfuscate-IsPlain key 0 v is_key g.2))
        ∙ obfuscate_twice key 0 v in
      rw (span_name (c ∷ cs) (codec.encode shut) g.0.0.1) (ap (λ w. some (c ∷ cs, w)) back)

  read_lines-print_line :
      (out m : Vault)
      → All IsEntry m
      → Uniq m
      → All (λ e. get e.0 out ≡ none) m
      → read_lines codec key out (map (print_line codec key) m) ≡ out ++ m
  unfolding read_lines
  read_lines-print_line out [] g u f = sym (append-nil out)
  read_lines-print_line out ((k, v) ∷ m) g u f =
      let rest =
        read_lines-print_line (set k v out) m g.1 u.1
          (fresh-set k v out m (get-none-All k m u.0) f.1) in
      rw (read_line-print_line (k, v) g.0, read_lines, g.0.0.1)
        (rest ∙ ap (λ o. o ++ m) (set_fresh k v out f.0) ∙ append_assoc out ((k, v) ∷ []) m)

  lines_one_line :
      (m : Vault) → All IsEntry m → All (λ l. contains l 10 ≡ false) (map (print_line codec key) m)
  lines_one_line [] g = tt
  lines_one_line ((k, v) ∷ m) g = (
    contains-append k (61 ∷ codec.encode (obfuscate_from key 0 v)) 10 g.0.0.0.2 (
        base64_one_line (codec.encode (obfuscate_from key 0 v))
          (laws.encodes (obfuscate_from key 0 v))),
    lines_one_line m g.1,
  )

  line-IsPlain : (e : Text × Text) → IsEntry e → IsPlain (print_line codec key e)
  line-IsPlain (k, v) g = every-append is_plain k (61 ∷ codec.encode (obfuscate_from key 0 v)) g.1 (
      base64-IsPlain (codec.encode (obfuscate_from key 0 v))
        (laws.encodes (obfuscate_from key 0 v)))

  joined-IsPlain :
      (e : Text × Text) (m : Vault)
      → IsEntry e
      → All IsEntry m
      → IsPlain (join_after 10 (print_line codec key e) (map (print_line codec key) m))
  joined-IsPlain e [] g a = line-IsPlain e g
  joined-IsPlain e (next ∷ m) g a =
      every-append is_plain (print_line codec key e)
        (10 ∷ join_after 10 (print_line codec key next) (map (print_line codec key) m))
        (line-IsPlain e g) (joined-IsPlain next m a.0 a.1)

  fresh_nil : (m : Vault) → All (λ e. get e.0 no_entries ≡ none) m
  fresh_nil [] = tt
  fresh_nil (e ∷ m) = (refl, fresh_nil m)

  -- A vault that was written is read again.
  pub read_vault-write_vault :
      (m : Vault)
      → All IsEntry m
      → Uniq m
      → read_vault codec key true (some (write_vault codec key m)) ≡ m
  unfolding read_vault write_vault
  read_vault-write_vault [] g u = rw (laws.decodes [] refl) refl
  read_vault-write_vault (e ∷ m) g u =
      rw
        (laws.decodes (join_after 10 (print_line codec key e) (map (print_line codec key) m))
          (joined-IsPlain e m g.0 g.1))
        (rw
          (split_at-join_with 10 (print_line codec key e) (map (print_line codec key) m)
            (lines_one_line (e ∷ m) g))
          (read_lines-print_line [] (e ∷ m) g u (fresh_nil (e ∷ m))))

  -- After a secret was set in a vault whose names and values are texts without lone surrogates, it is
  -- found, and every other name gives what it gave before: for a name that is not empty, has neither
  -- an equals sign nor a line break in it, and is not `__proto__`.
  pub get_secret-set_secret :
      (file : Option Text) (k v j : Text)
      → All (λ e. IsPlain e.0 × IsPlain e.1) (read_vault codec key true file)
      → IsName k
      → IsPlain k
      → IsPlain v
      → get_secret codec key true (set_secret codec key true file k v) j
        ≡ (if k == j then secret v else get_secret codec key true file j)
  unfolding get_secret set_secret
  get_secret-set_secret file k v j plain name plain_k plain_v =
      let old = read_vault codec key true file in
      let (names, uniq) = read_vault-IsName codec key true file in
      let back =
        read_vault-write_vault (set k v old)
          (set-All IsEntry k v old (name, plain_k, plain_v) (both_All old names plain))
          (set-Uniq k v old uniq) in
      rw name.1 (ap (λ m. member m j) back ∙ member-set k j v old)
