-- ===== src/Supervisor/Ready.antt =====
-- apps/shell/src/main/harness-supervisor.ts: what the output of the child is read as, and how much
-- of it is kept.
use deepseek_harness.Common.{
  drop, length-drop, Text, ℕ, zero, suc, ◌-◌, ◌≤◌, ◌≡◌, ◌≢◌, refl, Bool, true, Option, none, some,
  [], ◌∷◌, ◌++◌, length, All, arith, Bool-cases, Option-cases, inl, inr, ltb, ◌⊎◌, sym, ◌∙◌, ap,
  subst,
}
use deepseek_harness.Supervisor.Output.{
  host, query, is_digit, is_token, span, strip, non_empty, url_tail, url_port, match_ready,
  buffer_limit, buffer_kept, append_output,
}

-- A launch URL: the loopback host, a port and a token.
abbrev pub IsLaunchUrl : Text → Type 0
IsLaunchUrl url =
    (port token : Text) × (url ≡ host ++ port ++ query ++ token)
    × (port ≢ [])
    × (token ≢ [])
    × All (λ c. is_digit c ≡ true) port
    × All (λ c. is_token c ≡ true) token

span-All : (p : ℕ → Bool) (xs : Text) → All (λ c. p c ≡ true) (span p xs).0
span-All p [] = tt
span-All p (x ∷ xs) = elim (Bool-cases (p x)) [
  | inl hit ↦ rw hit (hit, span-All p xs)
  | inr miss ↦ rw miss tt
]

non_empty-eq : (xs ys : Text) → non_empty xs ≡ some ys → (xs ≡ ys) × (ys ≢ [])
non_empty-eq [] ys h = absurd (cc h)
non_empty-eq (x ∷ xs) ys h = (cc h, λ e. absurd (cc (h, e)))

url_tail-IsLaunchUrl :
    (digits : Text) (o : Option Text) (url : Text)
    → digits ≢ []
    → All (λ c. is_digit c ≡ true) digits
    → url_tail digits o ≡ some url
    → IsLaunchUrl url
url_tail-IsLaunchUrl digits none url ne d h = absurd (cc h)
url_tail-IsLaunchUrl digits (some rest) url ne d h =
    elim (Option-cases (non_empty (span is_token rest).0)) [
      | inl missing ↦ absurd (cc (rw (missing, url_tail) at h))
      | inr (token, found) ↦
          let (same, nt) = non_empty-eq (span is_token rest).0 token found in
          let whole : host ++ digits ++ query ++ token ≡ url = cc (rw (found, url_tail) at h) in
          (
            digits,
            token,
            sym whole,
            ne,
            nt,
            d,
            subst (All (λ c. is_token c ≡ true)) same (span-All is_token rest),
          )
    ]

url_port-IsLaunchUrl : (o : Option Text) (url : Text) → url_port o ≡ some url → IsLaunchUrl url
url_port-IsLaunchUrl none url h = absurd (cc h)
url_port-IsLaunchUrl (some rest) url h = elim (Option-cases (non_empty (span is_digit rest).0)) [
  | inl missing ↦ absurd (cc (rw (missing, url_port) at h))
  | inr (digits, found) ↦
      let (same, nd) = non_empty-eq (span is_digit rest).0 digits found in
      url_tail-IsLaunchUrl digits (strip query (span is_digit rest).1) url nd
        (subst (All (λ c. is_digit c ≡ true)) same (span-All is_digit rest))
        (rw (found, url_port) at h)
]

-- What the supervisor takes for the URL of a ready child is a loopback URL with a port and a token.
pub match_ready-IsLaunchUrl : (text url : Text) → match_ready text ≡ some url → IsLaunchUrl url
unfolding match_ready
match_ready-IsLaunchUrl [] url h = absurd (cc h)
match_ready-IsLaunchUrl (x ∷ xs) url h = elim (Option-cases (url_port (strip host (x ∷ xs)))) [
  | inl missing ↦ match_ready-IsLaunchUrl xs url (rw (missing, match_ready) at h)
  | inr (u, found) ↦
      url_port-IsLaunchUrl (strip host (x ∷ xs)) url (found ∙ rw (found, match_ready) at h)
]

drop-suffix : (n : ℕ) (xs : Text) → (gone : Text) × (xs ≡ gone ++ drop n xs)
drop-suffix zero xs = ([], refl)
drop-suffix (suc n) [] = ([], refl)
drop-suffix (suc n) (x ∷ xs) = let (gone, e) = drop-suffix n xs in (x ∷ gone, ap (λ t. x ∷ t) e)

-- The output buffer never passes 65,536 units, always is the end of what was written, and keeps at
-- least the last 32,768 units of it.
pub append_output_bounds :
    (buffer text : Text)
    → (length (append_output buffer text) ≤ buffer_limit)
      × (gone : Text) × (buffer ++ text ≡ gone ++ append_output buffer text)
      × ((gone ≡ []) ⊎ (length (append_output buffer text) ≡ buffer_kept))
unfolding append_output
append_output_bounds buffer text =
    let all = buffer ++ text in
    elim (Bool-cases (ltb buffer_limit (length all))) [
      | inr fits ↦ rw fits (ground arith, [], refl, inl refl)
      | inl over ↦
          let (gone, e) = drop-suffix (length all - buffer_kept) all in
          let size = length-drop (length all - buffer_kept) all in
          rw over (ground arith, gone, e, inr (ground arith))
    ]
