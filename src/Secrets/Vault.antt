-- ===== src/Secrets/Vault.antt =====
-- apps/shell/src/main/secret-store.ts: `fileImpl`. A text is the list of its UTF-16 units. The codec of
-- Node's Buffer and the machine's key are arguments.
use Prim.Native.Nat.{bit_xor}
use deepseek_harness.Common.{
  Text, text_eq, split_at, join_with, ℕ, ◌+◌, ◌%◌, Bool, not, Option, none, some, List, [], ◌∷◌,
  ◌++◌, map, length, contains, get_elem?, ◌==◌, nat_eq, if◌then◌else◌,
}
use deepseek_harness.Common.JsMap.{JsMap, get, set, delete}
use deepseek_harness.Supervisor.Output.{units, span}

-- `Buffer.from(text, 'utf8').toString('base64')`, and the way back.
pub record Codec : Type 0 where
  pub encode : Text → Text
  pub decode : Text → Text

-- The names and values, in the order in which the file has them.
abbrev pub Vault : Type 0
Vault = JsMap Text Text

-- `key.charCodeAt(i)`; an index out of range gives 0 in an exclusive or.
abbrev pub unit_at : Text → ℕ → ℕ
unit_at key i = elim (get_elem? key i) [ none ↦ 0 | some c ↦ c ]

-- The `map` over the units of a value, from the i-th one on.
unfoldable pub obfuscate_from : Text → ℕ → Text → Text
obfuscate_from key i [] = []
obfuscate_from key i (c ∷ cs) =
    bit_xor c (unit_at key (i % length key)) ∷ obfuscate_from key (i + 1) cs

abbrev pub obfuscate : Text → Text → Text
unfolding obfuscate_from
obfuscate key value = obfuscate_from key 0 value

abbrev pub proto : Text
proto = units "__proto__"

-- `vault[k] = v` on an object: what is no object is not taken as the prototype, and is lost.
abbrev pub assign : Text → Text → Vault → Vault
assign k v m = if k == proto then m else set k v m

-- What an object has without an entry of its own: the members of `Object.prototype`.
abbrev pub inherited_names : List Text
inherited_names =
    proto
    ∷ units "constructor"
    ∷ units "hasOwnProperty"
    ∷ units "isPrototypeOf"
    ∷ units "propertyIsEnumerable"
    ∷ units "toLocaleString"
    ∷ units "toString"
    ∷ units "valueOf"
    ∷ units "__defineGetter__"
    ∷ units "__defineSetter__"
    ∷ units "__lookupGetter__"
    ∷ units "__lookupSetter__"
    ∷ []

-- What `getSecret` answers: null, a member of `Object.prototype` in place of a text, or a secret.
pub data Answer : Type 0 where
  null inherited : Answer
  secret : Text → Answer

unfoldable pub member : Vault → Text → Answer
member vault k = elim (get k vault) [
  | some v ↦ secret v
  | none ↦ if contains inherited_names k then inherited else null
]

module _ (codec : Codec) (key : Text) where
  -- The name and the value of a line; `none` for a line that is skipped.
  abbrev pub after_name : Text → Text → Option (Text × Text)
  after_name [] rest = none
  after_name (c ∷ cs) [] = none
  after_name (c ∷ cs) (equals ∷ v) = some (c ∷ cs, obfuscate_from key 0 (codec.decode v))

  unfoldable pub read_line : Text → Option (Text × Text)
  read_line line = after_name (span (λ c. not (c == 61)) line).0 (span (λ c. not (c == 61)) line).1

  unfoldable pub read_lines : Vault → List Text → Vault
  unfolding read_line
  read_lines out [] = out
  read_lines out (line ∷ lines) = elim (read_line line) [
    | none ↦ read_lines out lines
    | some (k, v) ↦ read_lines (assign k v out) lines
  ]

  -- `none`: there is no file. Where the file cannot be read the vault is empty.
  unfoldable pub read_vault : Bool → Option Text → Vault
  unfolding read_lines
  read_vault readable none = []
  read_vault readable (some raw) =
      if readable then read_lines [] (split_at 10 (codec.decode raw)) else []

  abbrev pub print_line : Text × Text → Text
  print_line (k, v) = k ++ (61 ∷ codec.encode (obfuscate_from key 0 v))

  unfoldable pub write_vault : Vault → Text
  write_vault vault = codec.encode (join_with 10 (map print_line vault))

  unfoldable pub set_secret : Bool → Option Text → Text → Text → Option Text
  unfolding read_vault write_vault
  set_secret readable file k v = some (write_vault (assign k v (read_vault readable file)))

  unfoldable pub get_secret : Bool → Option Text → Text → Answer
  unfolding read_vault member
  get_secret readable file k = member (read_vault readable file) k

  unfoldable pub delete_secret : Bool → Option Text → Text → Option Text
  unfolding read_vault write_vault
  delete_secret readable file k = some (write_vault (delete k (read_vault readable file)))
