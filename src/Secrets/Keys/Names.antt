-- ===== src/Secrets/Keys/Names.antt =====
-- apps/shell/src/main/secret-store.ts: the names that are read from a vault file.
use deepseek_harness.Common.{
  Text, text_eq, split_at, put_unit, ℕ, Bool, true, false, not, Option, none, some, List, [], ◌∷◌,
  ◌≡◌, ◌≢◌, refl, arith, All, contains, Bool-cases, Option-cases, inl, inr, ◌==◌, nat_eq, subst,
  if◌then◌else◌,
}
use deepseek_harness.Common.JsMap.{get, Uniq}
use deepseek_harness.Common.JsMap.Entries.{set-All, get-All, set-Uniq}
use deepseek_harness.Supervisor.Output.{span}
use deepseek_harness.Secrets.Vault.{
  Codec, Vault, read_line, after_name, read_lines, read_vault, get_secret, proto, assign,
  inherited_names, null, inherited, secret, member,
}

-- A name that a line can have.
abbrev pub IsLineName : Text → Type 0
IsLineName k = (k ≢ []) × (contains k 61 ≡ false) × (contains k 10 ≡ false)

-- A name that the vault can hold: one of a line, and not that of the prototype.
abbrev pub IsName : Text → Type 0
IsName k = IsLineName k × ((k == proto) ≡ false)

assign-All :
    (k v : Text) (m : Vault)
    → IsLineName k
    → All (λ e. IsName e.0) m
    → All (λ e. IsName e.0) (assign k v m)
assign-All k v m h a = elim (Bool-cases (k == proto)) [
  | inl lost ↦ rw lost a
  | inr kept ↦ rw kept (set-All (λ e. IsName e.0) k v m (h, kept) a)
]

assign-Uniq : (k v : Text) (m : Vault) → Uniq m → Uniq (assign k v m)
assign-Uniq k v m u = elim (Bool-cases (k == proto)) [
  | inl lost ↦ rw lost u
  | inr kept ↦ rw kept (set-Uniq k v m u)
]

put_unit-All :
    (separator c : ℕ) (parts : List Text)
    → All (λ p. contains p separator ≡ false) parts
    → All (λ p. contains p separator ≡ false) (put_unit (c == separator) c parts)
put_unit-All separator c [] a = (refl, tt)
put_unit-All separator c (part ∷ parts) a = elim (Bool-cases (c == separator)) [
  | inl ended ↦ rw ended (refl, a)
  | inr inside ↦ rw inside (rw inside a.0, a.1)
]

split_at-All :
    (separator : ℕ) (text : Text)
    → All (λ p. contains p separator ≡ false) (split_at separator text)
split_at-All separator [] = (refl, tt)
split_at-All separator (c ∷ cs) =
    put_unit-All separator c (split_at separator cs) (split_at-All separator cs)

span-contains :
    (line : Text) (c : ℕ)
    → contains line c ≡ false
    → contains (span (λ u. not (u == 61)) line).0 c ≡ false
span-contains [] c h = refl
span-contains (u ∷ us) c h = ground (arith, span-contains us c)

span_equals : (line : Text) → contains (span (λ u. not (u == 61)) line).0 61 ≡ false
span_equals [] = refl
span_equals (u ∷ us) = ground (arith, span_equals us)

not_secret : (b : Bool) (v : Text) → (if b then inherited else null) ≢ secret v
not_secret true v e = absurd (cc e)
not_secret false v e = absurd (cc e)

module _ (codec : Codec) (key : Text) where
  after_name-IsLineName :
      (name rest : Text) {k v : Text}
      → contains name 61 ≡ false
      → contains name 10 ≡ false
      → after_name codec key name rest ≡ some (k, v)
      → IsLineName k
  after_name-IsLineName [] rest a b h = absurd (cc h)
  after_name-IsLineName (c ∷ cs) [] a b h = absurd (cc h)
  after_name-IsLineName (c ∷ cs) (equals ∷ w) {k} a b h =
      let same : c ∷ cs ≡ k = cc h in subst IsLineName same ((λ e. absurd (cc e)), a, b)

  read_line-IsLineName :
      (line : Text) {k v : Text}
      → contains line 10 ≡ false
      → read_line codec key line ≡ some (k, v)
      → IsLineName k
  unfolding read_line
  read_line-IsLineName line h =
      after_name-IsLineName _ _ (span_equals line) (span-contains line 10 h)

  read_lines-IsName :
      (out : Vault) (lines : List Text)
      → All (λ e. IsName e.0) out
      → All (λ l. contains l 10 ≡ false) lines
      → All (λ e. IsName e.0) (read_lines codec key out lines)
  unfolding read_lines
  read_lines-IsName out [] a h = a
  read_lines-IsName out (line ∷ lines) a h = elim (Option-cases (read_line codec key line)) [
    | inl skipped ↦ rw (skipped, read_lines) (read_lines-IsName out lines a h.1)
    | inr ((k, v), taken) ↦
        rw (taken, read_lines)
          (read_lines-IsName (assign k v out) lines
            (assign-All k v out (read_line-IsLineName line h.0 taken) a) h.1)
  ]

  read_lines-Uniq :
      (out : Vault) (lines : List Text) → Uniq out → Uniq (read_lines codec key out lines)
  unfolding read_lines
  read_lines-Uniq out [] u = u
  read_lines-Uniq out (line ∷ lines) u = elim (Option-cases (read_line codec key line)) [
    | inl skipped ↦ rw (skipped, read_lines) (read_lines-Uniq out lines u)
    | inr ((k, v), taken) ↦
        rw (taken, read_lines) (read_lines-Uniq (assign k v out) lines (assign-Uniq k v out u))
  ]

  pub read_vault-IsName :
      (readable : Bool) (file : Option Text)
      → All (λ e. IsName e.0) (read_vault codec key readable file)
        × Uniq (read_vault codec key readable file)
  unfolding read_vault
  read_vault-IsName readable none = (tt, tt)
  read_vault-IsName false (some raw) = (tt, tt)
  read_vault-IsName true (some raw) =
      let lines = split_at 10 (codec.decode raw) in
      (
        read_lines-IsName [] lines tt (split_at-All 10 (codec.decode raw)),
        read_lines-Uniq [] lines tt,
      )

  -- Whatever the vault file holds, no secret is found in it under an empty name, one with an equals
  -- sign or a line break in it, or `__proto__`: also just after it was set.
  pub bad_names_not_found :
      (readable : Bool) (file : Option Text) (k v : Text)
      → (IsName k → ⊥)
      → get_secret codec key readable file k ≢ secret v
  unfolding get_secret
  bad_names_not_found readable file k v bad found =
      elim (Option-cases (get k (read_vault codec key readable file))) [
        | inl absent ↦ not_secret (contains inherited_names k) v (rw (absent, member) at found)
        | inr (w, here) ↦
            bad (get-All (λ e. IsName e.0) k _ (read_vault-IsName readable file).0 here)
      ]
