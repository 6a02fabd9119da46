-- ===== src/Browser/Invariant.antt =====
-- apps/shell/src/main/embedded-browser.ts: at most twenty tabs, one of them active, with web addresses.
use deepseek_harness.Common.{
  Text, text_eq, ℕ, suc, ◌≤◌, Bool, true, false, Option, none, some, List, [], ◌∷◌, ◌++◌, ◌||◌, ◌≡◌,
  refl, arith, ap, leb, length, All, ◌==◌, nat_eq, nat_beq_iff, if◌then◌else◌,
}
use deepseek_harness.Common.JsMap.{get, set, delete}
use deepseek_harness.Common.JsMap.Entries.{set-All, delete-All, get-All}
use deepseek_harness.Browser.Active.{
  IsThere, length-set, length-set_known, length-delete, set-IsThere, new-IsThere, first-IsThere,
  delete-IsThere,
}
use deepseek_harness.Browser.Address.{
  default_url, allowed_url, safe_url-allowed_url, normalize_address,
}
use deepseek_harness.Browser.Tabs.{
  BrowserTab, Browser, first_id, load_found, navigate, selected, select_tab, opened_tab, new_tab,
  is_active, without, closed, close_tab, in_tab, Event, navigates, selects, opens, closes, locates,
  titles, fails_load, hides, outcome, or_same, run, located, failed, titled, or_active, tab_of,
}

not_leb : (n : ℕ) → leb 20 n ≡ false → suc n ≤ 20
not_leb n h = ground arith

module _ (protocol : Text → Option Text) where
  abbrev pub IsSafe : Text × BrowserTab → Type 0
  IsSafe entry = allowed_url protocol entry.1.url ≡ true

  pub record IsValid (b : Browser) : Type 0 where
    pub few : length b.tabs ≤ 20
    pub safe : All IsSafe b.tabs
    pub there : IsThere b.active_tab_id b.tabs

  put-IsValid :
      (id : Text) (tab new : BrowserTab) (b : Browser)
      → get id b.tabs ≡ some tab
      → allowed_url protocol new.url ≡ true
      → IsValid b
      → IsValid (record b { tabs = set id new b.tabs })
  put-IsValid id tab new b h ok v = record {
    few = omega (arith, length-set_known id new b.tabs h, v.few);
    safe = set-All IsSafe id new b.tabs ok v.safe;
    there = set-IsThere id new b.active_tab_id b.tabs v.there;
  }

  opened_tab-IsValid :
      (id url : Text) (b : Browser)
      → suc (length b.tabs) ≤ 20
      → All IsSafe b.tabs
      → IsValid (opened_tab protocol id url b)
  opened_tab-IsValid id url b room safe = record {
    few = omega (arith, length-set id _ b.tabs, room);
    safe = set-All IsSafe id _ b.tabs (safe_url-allowed_url protocol url) safe;
    there = new-IsThere id _ b.tabs;
  }

  active_left :
      (id : Text) (b : Browser) (active : Bool)
      → is_active protocol b.active_tab_id id ≡ active
      → (length (delete id b.tabs) == 0) ≡ false
      → IsThere b.active_tab_id b.tabs
      → IsThere
          (if active then first_id protocol (delete id b.tabs) else b.active_tab_id)
          (delete id b.tabs)
  active_left id b true e left t = first-IsThere (delete id b.tabs) left
  active_left id b false e left t = delete-IsThere id b.active_tab_id b.tabs e t

  closed_over :
      (id new_id : Text) (b : Browser) (empty : Bool)
      → (length (delete id b.tabs) == 0) ≡ empty
      → IsValid b
      → IsValid (
          if empty
          then opened_tab protocol new_id default_url (without protocol id b)
          else without protocol id b)
  closed_over id new_id b true e v =
      opened_tab-IsValid new_id default_url (without protocol id b)
        (omega (arith, length-delete id b.tabs, (nat_beq_iff (length (delete id b.tabs)) 0).0 e))
        (delete-All IsSafe id b.tabs v.safe)
  closed_over id new_id b false e v = record {
    few = omega (arith, length-delete id b.tabs, v.few);
    safe = delete-All IsSafe id b.tabs v.safe;
    there = active_left id b (is_active protocol b.active_tab_id id) refl e v.there;
  }

  -- A step that may throw.
  abbrev KeepsValid : Browser → Option Browser → Type 0
  KeepsValid b none = Unit
  KeepsValid b (some next) = IsValid next

  closed-IsValid :
      (id new_id : Text) (tab : Option BrowserTab) (b : Browser)
      → IsValid b
      → KeepsValid b (closed protocol id new_id tab b)
  closed-IsValid id new_id none b v = tt
  closed-IsValid id new_id (some tab) b v =
      closed_over id new_id b (length (delete id b.tabs) == 0) refl v

  selected-IsValid :
      (id : Text) (tab : Option BrowserTab) (b : Browser)
      → get id b.tabs ≡ tab
      → IsValid b
      → KeepsValid b (selected protocol id tab b)
  selected-IsValid id none b h v = tt
  selected-IsValid id (some tab) b h v = record {
    few = v.few;
    safe = v.safe;
    there = (id, tab, refl, h);
  }

  in_tab-IsValid :
      (f : BrowserTab → BrowserTab) (id : Text) (tab : Option BrowserTab) (b : Browser)
      → ((t : BrowserTab)
          → allowed_url protocol t.url ≡ true
          → allowed_url protocol (f t).url ≡ true)
      → get id b.tabs ≡ tab
      → IsValid b
      → KeepsValid b (in_tab protocol f id tab b)
  in_tab-IsValid f id none b keeps h v = tt
  in_tab-IsValid f id (some tab) b keeps h v =
      put-IsValid id tab (f tab) b h (keeps tab (get-All IsSafe id b.tabs v.safe h)) v

  load_found-IsValid :
      (id : Option Text) (url : Text) (tab : Option BrowserTab) (b : Browser)
      → tab_of protocol id b ≡ tab
      → IsValid b
      → KeepsValid b (load_found protocol id url tab b)
  load_found-IsValid none url tab b h v = tt
  load_found-IsValid (some id) url none b h v = tt
  load_found-IsValid (some id) url (some tab) b h v =
      let put =
        put-IsValid id tab (record tab { loading = true }) b h (get-All IsSafe id b.tabs v.safe h)
          v in
      record { few = put.few; safe = put.safe; there = put.there }

  if_allowed :
      (ok : Bool) (b : Browser) (next : Option Browser)
      → (ok ≡ true → KeepsValid b next)
      → KeepsValid b (if ok then next else none)
  if_allowed false b next h = tt
  if_allowed true b next h = h refl

  if_room :
      (full : Bool) (b next : Browser)
      → (full ≡ false → IsValid next)
      → KeepsValid b (if full then none else some next)
  if_room true b next h = tt
  if_room false b next h = h refl

  outcome-IsValid : (b : Browser) (e : Event) → IsValid b → KeepsValid b (outcome protocol b e)
  unfolding navigate select_tab new_tab close_tab
  outcome-IsValid b (navigates id url) v =
      if_allowed (allowed_url protocol (normalize_address protocol url)) b _
        (λ ok. load_found-IsValid (or_active protocol id b) _ _ b refl v)
  outcome-IsValid b (selects id) v = selected-IsValid id (get id b.tabs) b refl v
  outcome-IsValid b (opens id url) v =
      if_room (leb 20 (length b.tabs)) b _
        (λ room. opened_tab-IsValid id url b (not_leb (length b.tabs) room) v.safe)
  outcome-IsValid b (closes id new_id) v = closed-IsValid id new_id (get id b.tabs) b v
  outcome-IsValid b (locates id url) v =
      in_tab-IsValid (located protocol url) id (get id b.tabs) b
        (λ t ok. safe_url-allowed_url protocol url) refl v
  outcome-IsValid b (titles id title) v =
      in_tab-IsValid (titled protocol title) id (get id b.tabs) b (λ t ok. ok) refl v
  outcome-IsValid b (fails_load id url message) v =
      in_tab-IsValid (failed protocol url message) id (get id b.tabs) b
        (λ t ok. safe_url-allowed_url protocol url) refl v
  outcome-IsValid b hides v = record { few = v.few; safe = v.safe; there = v.there }

  or_same-IsValid :
      (b : Browser) (next : Option Browser)
      → IsValid b
      → KeepsValid b next
      → IsValid (or_same protocol b next)
  or_same-IsValid b none v k = v
  or_same-IsValid b (some next) v k = k

-- From a browser of which it holds: whatever is asked of it and whatever its pages report, there
-- are at most twenty tabs, the active one is among them, and the address that each tab has is
-- `about:blank` or a web address.
pub browser_run-IsValid :
    (protocol : Text → Option Text) (b : Browser) (es : List Event)
    → IsValid protocol b
    → IsValid protocol (run protocol b es)
unfolding run
browser_run-IsValid protocol b [] v = v
browser_run-IsValid protocol b (e ∷ es) v =
    browser_run-IsValid protocol (or_same protocol b (outcome protocol b e)) es
      (or_same-IsValid protocol b (outcome protocol b e) v (outcome-IsValid protocol b e v))

has_room : (n : ℕ) → suc n ≤ 20 → leb 20 n ≡ false
has_room n h = ground arith

not_default : (x y : Bool) → (x || y) ≡ false → x ≡ false
not_default x y h = ground arith

-- A new tab loads what it was asked to, allowed or not, while it has a safe address.
new_tab_loads_anything :
    (protocol : Text → Option Text) (id url : Text) (b : Browser)
    → suc (length b.tabs) ≤ 20
    → allowed_url protocol url ≡ false
    → (next : Browser) × (new_tab protocol id url b ≡ some next)
      × (next.loads ≡ b.loads ++ ((id, url) ∷ []))
unfolding new_tab allowed_url
new_tab_loads_anything protocol id url b room bad = (
  opened_tab protocol id url b,
  ap (λ full. if full then none else some (opened_tab protocol id url b))
      (has_room (length b.tabs) room),
  ap (λ same. if same then b.loads else b.loads ++ ((id, url) ∷ [])) (not_default _ _ bad),
)
