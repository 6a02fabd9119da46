-- ===== src/Dialog/Guards.antt =====
-- apps/shell/src/main/dialog-bridge.ts: who may open what, and that each request is answered once.
use deepseek_harness.Common.{
  Text, text_eq, Bool, true, false, not, ◌&&◌, ◌||◌, ℕ, suc, Option, none, some, List, [], ◌∷◌, ◌≡◌,
  inl, inr, refl, All, ◌==◌, nat_eq, Bool-cases, if◌then◌else◌,
}
use deepseek_harness.Supervisor.Output.{units}
use deepseek_harness.Dialog.Bridge.{
  Request, Parsed, throws, no_text, path, Answer, fails, answers, Host, Effect, opens, shows_dialog,
  replies, picks, or_empty, is_inside, opened, open_target, open_parsed, picked, serve_body,
  is_route, has_token, handle, dialog_bridge, open_text_file,
}

-- The replies among what is done.
abbrev pub answers_in : List Effect → ℕ
answers_in [] = 0
answers_in (opens p ∷ es) = answers_in es
answers_in (shows_dialog ∷ es) = answers_in es
answers_in (replies status ∷ es) = suc (answers_in es)
answers_in (picks directory ∷ es) = suc (answers_in es)

-- What a handler may do: a path that it opens is inside the root, and it shows a dialog or opens only
-- when it may.
abbrev pub IsAllowed : Host → Text → Bool → Effect → Type 0
IsAllowed h root may (opens p) = (may ≡ true) × (is_inside h root p ≡ true)
IsAllowed h root may shows_dialog = may ≡ true
IsAllowed h root may (replies status) = Unit
IsAllowed h root may (picks directory) = may ≡ true

abbrev pub Serves : Host → Text → Bool → List Effect → Type 0
Serves h root may es = All (IsAllowed h root may) es × (answers_in es ≡ 1)

opened-Serves : (h : Host) (root : Text) (may : Bool) (a : Answer) → Serves h root may (opened a)
opened-Serves h root may (fails message) = ((tt, tt), refl)
opened-Serves h root may (answers none) = ((tt, tt), refl)
opened-Serves h root may (answers (some [])) = ((tt, tt), refl)
opened-Serves h root may (answers (some (c ∷ failure))) = ((tt, tt), refl)

open_target-Serves :
    (h : Host) (root target : Text) → Serves h root true (open_target h root target)
open_target-Serves h root target = elim (Bool-cases (is_inside h root target)) [
  | inl inside ↦
      let (all, one) = opened-Serves h root true (h.open_path target) in
      rw inside (((refl, inside), all), one)
  | inr outside ↦ rw outside ((tt, tt), refl)
]

open_parsed-Serves :
    (h : Host) (root : Text) (p : Parsed) → Serves h root true (open_parsed h root p)
open_parsed-Serves h root throws = ((tt, tt), refl)
open_parsed-Serves h root no_text = ((tt, tt), refl)
open_parsed-Serves h root (path p) = elim (Bool-cases (h.is_absolute p)) [
  | inl absolute ↦ rw absolute (open_target-Serves h root (h.resolve p))
  | inr relative ↦ rw relative ((tt, tt), refl)
]

picked-Serves : (h : Host) (root : Text) (a : Answer) → Serves h root true (picked a)
picked-Serves h root (fails message) = ((tt, tt), refl)
picked-Serves h root (answers directory) = ((refl, tt), refl)

serve_body-Serves :
    (h : Host) (root url : Text) (body : Option Text)
    → Serves h root true (serve_body h root url body)
unfolding serve_body
serve_body-Serves h root url none = ((tt, tt), refl)
serve_body-Serves h root url (some body) = elim (Bool-cases (url == open_text_file)) [
  | inl opening ↦ rw opening (open_parsed-Serves h root (h.parse body))
  | inr picking ↦
      let (all, one) = picked-Serves h root h.show_open_dialog in rw picking ((refl, all), one)
]

-- A request that may be served: a POST to one of the two routes that sends the token.
abbrev pub may_serve : Text → Request → Bool
may_serve token r =
    (r.method == units "POST") && (is_route (or_empty r.url) && has_token token r.token)

guarded-Serves :
    (h : Host) (root : Text) (post route sent : Bool) (es : List Effect)
    → Serves h root true es
    → Serves h root (post && (route && sent)) (
        if not post || not route
        then replies 404 ∷ []
        else if not sent
        then replies 401 ∷ []
        else es)
guarded-Serves h root false route sent es s = ((tt, tt), refl)
guarded-Serves h root true false sent es s = ((tt, tt), refl)
guarded-Serves h root true true false es s = ((tt, tt), refl)
guarded-Serves h root true true true es s = s

-- Each request is answered exactly once. A file is opened and a dialog is shown only for a POST to one of
-- the two routes that sends the token, and an opened file is the root or lies below it.
pub dialog_bridge-Serves :
    (h : Host) (allowed_root token : Text) (r : Request)
    → Serves h (h.resolve allowed_root) (may_serve token r) (dialog_bridge h allowed_root token r)
unfolding dialog_bridge handle
dialog_bridge-Serves h allowed_root token r =
    guarded-Serves h (h.resolve allowed_root) (r.method == units "POST") (is_route (or_empty r.url))
      (has_token token r.token) (serve_body h (h.resolve allowed_root) (or_empty r.url) r.body)
      (serve_body-Serves h (h.resolve allowed_root) (or_empty r.url) r.body)
