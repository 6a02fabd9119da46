-- ===== src/Secrets/Store.antt =====
-- apps/shell/src/main/secret-store.ts: `createSecretStore`, `resolveSecrets` and `ensureSecret`. The
-- latter two use any store: keytar and the Windows credential manager are stores of the system.
use deepseek_harness.Common.{
  Text, text_eq, text_beq_iff, Bool, true, false, Option, none, some, List, [], ◌∷◌, ◌≡◌, refl, ap,
  ◌⊎◌, arith, contains, Option-cases, inl, inr, ◌==◌, if◌then◌else◌,
}
use deepseek_harness.Common.JsMap.{JsMap, get, set, get-set}

-- A store of secrets, as far as it is asked here.
pub record SecretStore (State : Type 0) : Type 0 where
  pub get_secret : State → Text → Option Text
  pub set_secret : State → Text → Text → State

pub data StoreKind : Type 0 where
  keytar powershell vault_file : StoreKind

-- Whether keytar loads, the platform is Windows, and PowerShell answers.
unfoldable pub create_secret_store : Bool → Bool → Bool → StoreKind
create_secret_store loads win32 answers =
    if loads
    then keytar
    else if win32
    then (if answers then powershell else vault_file)
    else vault_file

module _ {State : Type 0} (store : SecretStore State) where
  abbrev pub put_found : Text → Option Text → JsMap Text Text → JsMap Text Text
  put_found name none out = out
  put_found name (some v) out = set name v out

  -- The loop of `resolveSecrets`.
  unfoldable pub resolve_from : State → JsMap Text Text → List Text → JsMap Text Text
  resolve_from s out [] = out
  resolve_from s out (name ∷ names) =
      resolve_from s (put_found name (store.get_secret s name) out) names

  unfoldable pub resolve_secrets : State → List Text → JsMap Text Text
  unfolding resolve_from
  resolve_secrets s names = resolve_from s [] names

  unfoldable pub ensure_secret : State → Text → Text → Bool × State
  ensure_secret s k v = elim (store.get_secret s k) [
    | some old ↦ (false, s)
    | none ↦ (true, store.set_secret s k v)
  ]

  abbrev pub or_none : Bool → Option Text → Option Text → Option Text
  or_none asked found old = if asked then (elim found [ none ↦ old | some v ↦ some v ]) else old

  get-put_found :
      (name k : Text) (found : Option Text) (out : JsMap Text Text)
      → get k (put_found name found out) ≡ or_none (name == k) found (get k out)
  get-put_found name k none out = ground arith
  get-put_found name k (some v) out = get-set name k v out

  get-resolve_from :
      (s : State) (out : JsMap Text Text) (names : List Text) (k : Text)
      → get k (resolve_from s out names)
        ≡ or_none (contains names k) (store.get_secret s k) (get k out)
  unfolding resolve_from
  get-resolve_from s out [] k = refl
  get-resolve_from s out (name ∷ names) k = ground (
    arith,
    get-resolve_from s (put_found name (store.get_secret s name) out) names k,
    get-put_found name k (store.get_secret s name) out,
    λ (same : name ≡ k). ap (store.get_secret s) same,
    text_beq_iff name k,
    Option-cases (store.get_secret s k),
  )

  -- The environment that is resolved has exactly the secrets that were asked for and that the store has,
  -- with their values.
  pub get-resolve_secrets :
      (s : State) (names : List Text) (k : Text)
      → get k (resolve_secrets s names) ≡ (if contains names k then store.get_secret s k else none)
  unfolding resolve_secrets
  get-resolve_secrets s names k =
      ground (arith, get-resolve_from s [] names k, Option-cases (store.get_secret s k))

  -- In a store that gives back what it was given under this name, there is a secret after
  -- `ensureSecret`: the old one, with the store as it was, if there was one, and else the given one; the
  -- result says which.
  pub ensure_secret_lem :
      (s : State) (k v : Text)
      → store.get_secret (store.set_secret s k v) k ≡ some v
      → (((ensure_secret s k v).0 ≡ true)
          × (store.get_secret s k ≡ none)
          × (store.get_secret (ensure_secret s k v).1 k ≡ some v))
        ⊎ (((ensure_secret s k v).0 ≡ false)
            × ((ensure_secret s k v).1 ≡ s)
            × (old : Text) × (store.get_secret s k ≡ some old))
  unfolding ensure_secret
  ensure_secret_lem s k v kept = elim (Option-cases (store.get_secret s k)) [
    | inl absent ↦ rw (absent, ensure_secret) (inl (refl, refl, kept))
    | inr (old, here) ↦ rw (here, ensure_secret) (inr (refl, refl, old, refl))
  ]
