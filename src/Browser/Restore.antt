-- ===== src/Browser/Restore.antt =====
-- apps/shell/src/main/embedded-browser.ts: the tabs that are restored from the state file.
use deepseek_harness.Common.{
  Text, text_eq, ℕ, ◌+◌, ◌≤◌, Bool, true, false, Option, none, some, List, [], ◌∷◌, ◌≡◌, refl,
  arith, length, All, ◌==◌, nat_eq, take, length-take, not, ◌&&◌, if◌then◌else◌,
}
use deepseek_harness.Common.JsMap.{JsMap, get}
use deepseek_harness.Common.JsMap.Entries.{set-All}
use deepseek_harness.Browser.Active.{IsThere, length-set, set-IsThere, new-IsThere, first-IsThere}
use deepseek_harness.Browser.Address.{safe_url-allowed_url}
use deepseek_harness.Browser.Tabs.{
  Browser, BrowserTab, StoredTab, StoredState, add_tab, add_all, saved_from, single_tab,
  tabs_or_url, saved_tabs, new_browser, ensure_tabs, or_first, or_empty, first_saved, is_saved,
}
use deepseek_harness.Browser.Invariant.{IsSafe, IsValid}

module _ (protocol : Text → Option Text) where
  length-saved_from :
      (index : ℕ) (tabs : List StoredTab) → length (saved_from protocol index tabs) ≡ length tabs
  length-saved_from index [] = refl
  length-saved_from index (tab ∷ rest) = omega (arith, length-saved_from (index + 1) rest)

  single_few : (url : Text) → length (single_tab protocol url) ≤ 20
  single_few [] = omega arith
  single_few (c ∷ url) = omega arith

  saved_few :
      (url : Text) (tabs : Option (List StoredTab)) → length (tabs_or_url protocol url tabs) ≤ 20
  saved_few url none = single_few url
  saved_few url (some []) = single_few url
  saved_few url (some (tab ∷ rest)) =
      omega (arith, length-saved_from 0 (take 20 (tab ∷ rest)), length-take 20 (tab ∷ rest))

  add_all-few :
      (saved : List StoredTab) (b : Browser)
      → length (add_all protocol saved b).tabs ≤ length b.tabs + length saved
  add_all-few [] b = omega arith
  add_all-few (tab ∷ rest) b = omega (
    arith,
    add_all-few rest (add_tab protocol tab.id tab.url tab.title b),
    length-set tab.id _ b.tabs,
  )

  add_all-IsSafe :
      (saved : List StoredTab) (b : Browser)
      → All (IsSafe protocol) b.tabs
      → All (IsSafe protocol) (add_all protocol saved b).tabs
  add_all-IsSafe [] b a = a
  add_all-IsSafe (tab ∷ rest) b a =
      add_all-IsSafe rest (add_tab protocol tab.id tab.url tab.title b)
        (set-All (IsSafe protocol) tab.id _ b.tabs (safe_url-allowed_url protocol tab.url) a)

  add_all-IsThere :
      (saved : List StoredTab) (id : Option Text) (b : Browser)
      → IsThere id b.tabs
      → IsThere id (add_all protocol saved b).tabs
  add_all-IsThere [] id b t = t
  add_all-IsThere (tab ∷ rest) id b t =
      add_all-IsThere rest id (add_tab protocol tab.id tab.url tab.title b)
        (set-IsThere tab.id _ id b.tabs t)

  single-IsThere :
      (url : Text) (b : Browser)
      → (id : Option Text) × IsThere id (add_all protocol (single_tab protocol url) b).tabs
  single-IsThere [] b = (_, new-IsThere _ _ b.tabs)
  single-IsThere (c ∷ url) b = (_, new-IsThere _ _ b.tabs)

  saved-IsThere :
      (url : Text) (tabs : Option (List StoredTab)) (b : Browser)
      → (id : Option Text) × IsThere id (add_all protocol (tabs_or_url protocol url tabs) b).tabs
  saved-IsThere url none b = single-IsThere url b
  saved-IsThere url (some []) b = single-IsThere url b
  saved-IsThere url (some (tab ∷ rest)) b =
      (_, add_all-IsThere (saved_from protocol 1 (take 19 rest)) _ _ (new-IsThere _ _ b.tabs))

  some_tab :
      (id : Option Text) (tabs : JsMap Text BrowserTab)
      → IsThere id tabs
      → (length tabs == 0) ≡ false
  some_tab id [] (there, tab, e, h) = absurd (cc h)
  some_tab id (tab ∷ tabs) t = ground arith

  or_first-IsThere :
      (active : Option Text) (tabs : JsMap Text BrowserTab) (found : Option BrowserTab)
      → get (or_empty protocol active) tabs ≡ found
      → (length tabs == 0) ≡ false
      → active ≡ some (or_empty protocol active)
      → IsThere (or_first protocol active found tabs) tabs
  or_first-IsThere active tabs none h left named = first-IsThere tabs left
  or_first-IsThere active tabs (some tab) h left named = (or_empty protocol active, tab, named, h)

  saved_named :
      (url : Text) (tabs : Option (List StoredTab))
      → (id : Text) × (first_saved protocol (tabs_or_url protocol url tabs) ≡ some id)
  saved_named [] none = (_, refl)
  saved_named (c ∷ url) none = (_, refl)
  saved_named [] (some []) = (_, refl)
  saved_named (c ∷ url) (some []) = (_, refl)
  saved_named url (some (tab ∷ rest)) = (_, refl)

  named :
      (b : Bool) (id : Text) (first : Option Text)
      → (other : Text) × (first ≡ some other)
      → (if b then some id else first) ≡ some (or_empty protocol (if b then some id else first))
  named true id first h = refl
  named false id first (other, e) = rw e refl

-- From any state file, the tabs that a new browser restores are in order: there are at most twenty,
-- the active one is among them, and the address that each has is `about:blank` or a web address.
pub ensure_tabs-IsValid :
    (protocol : Text → Option Text) (stored : StoredState)
    → IsValid protocol (ensure_tabs protocol stored (new_browser protocol stored))
unfolding ensure_tabs new_browser
ensure_tabs-IsValid protocol stored =
    let saved = saved_tabs protocol stored in
    let b = new_browser protocol stored in
    let all = (add_all protocol saved b).tabs in
    let (id, there) = saved-IsThere protocol stored.url stored.tabs b in
    record {
      few = omega (arith, add_all-few protocol saved b, saved_few protocol stored.url stored.tabs);
      safe = add_all-IsSafe protocol saved b tt;
      there =
          or_first-IsThere protocol b.active_tab_id all
            (get (or_empty protocol b.active_tab_id) all) refl (some_tab protocol id all there)
            (named protocol
              (not (length stored.active_tab_id == 0)
                && is_saved protocol stored.active_tab_id saved)
              stored.active_tab_id (first_saved protocol saved)
              (saved_named protocol stored.url stored.tabs));
    }
