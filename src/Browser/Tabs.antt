-- ===== src/Browser/Tabs.antt =====
-- apps/shell/src/main/embedded-browser.ts: the tabs and what is done with them. A tab's view is left
-- out; what is loaded into it is noted. `none` where an operation throws before it has changed anything.
use deepseek_harness.Common.{
  Text, text_eq, ℕ, Bool, true, false, not, Option, none, some, List, [], ◌∷◌, ◌++◌, leb, length,
  ◌==◌, nat_eq, if◌then◌else◌, ◌+◌, ◌/◌, ◌%◌, ◌&&◌, ◌||◌, take,
}
use deepseek_harness.Common.JsMap.{JsMap, get, set, delete}
use deepseek_harness.Supervisor.Output.{units}
use deepseek_harness.Browser.Address.{default_url, allowed_url, safe_url, normalize_address}

abbrev pub max_tabs : ℕ
max_tabs = 20

pub record BrowserTab : Type 0 where
  pub url : Text
  pub title : Text
  pub loading : Bool
  pub error : Option Text

pub record Browser : Type 0 where
  pub tabs : JsMap Text BrowserTab
  pub active_tab_id : Option Text
  pub visible : Bool
  pub loads : List (Text × Text)

pub record StoredTab : Type 0 where
  pub id : Text
  pub url : Text
  pub title : Text

-- What the state file holds, if anything: its tabs, `none` where they are no array, and a missing text
-- as the empty one.
pub record StoredState : Type 0 where
  pub tabs : Option (List StoredTab)
  pub url : Text
  pub active_tab_id : Text

pub data Event : Type 0 where
  navigates : Option Text → Text → Event
  selects : Text → Event
  opens : Text → Text → Event
  closes : Text → Text → Event
  locates : Text → Text → Event
  titles : Text → Text → Event
  fails_load : Text → Text → Text → Event
  hides : Event

module _ (protocol : Text → Option Text) where
  -- A number of at most two digits.
  abbrev pub number : ℕ → Text
  number n = if leb 10 n then (48 + n / 10) ∷ (48 + n % 10) ∷ [] else (48 + n) ∷ []

  abbrev pub saved_id : ℕ → Text → Text
  saved_id index [] = units "tab-" ++ number (index + 1)
  saved_id index (c ∷ id) = c ∷ id

  abbrev pub saved_from : ℕ → List StoredTab → List StoredTab
  saved_from index [] = []
  saved_from index (tab ∷ rest) =
      record { id = saved_id index tab.id; url = safe_url protocol tab.url; title = tab.title }
      ∷ saved_from (index + 1) rest

  abbrev pub single_tab : Text → List StoredTab
  single_tab [] = record { id = units "tab-1"; url = default_url; title = [] } ∷ []
  single_tab (c ∷ url) =
      record { id = units "tab-1"; url = safe_url protocol (c ∷ url); title = [] } ∷ []

  abbrev pub tabs_or_url : Text → Option (List StoredTab) → List StoredTab
  tabs_or_url url none = single_tab url
  tabs_or_url url (some []) = single_tab url
  tabs_or_url url (some (tab ∷ rest)) = saved_from 0 (take max_tabs (tab ∷ rest))

  abbrev pub saved_tabs : StoredState → List StoredTab
  saved_tabs stored = tabs_or_url stored.url stored.tabs

  abbrev pub is_saved : Text → List StoredTab → Bool
  is_saved id [] = false
  is_saved id (tab ∷ rest) = tab.id == id || is_saved id rest

  abbrev pub first_saved : List StoredTab → Option Text
  first_saved [] = none
  first_saved (tab ∷ rest) = some tab.id

  -- `createEmbeddedBrowser`.
  unfoldable pub new_browser : StoredState → Browser
  new_browser stored =
      let saved = saved_tabs stored in
      let id = stored.active_tab_id in
      record {
        tabs = [];
        active_tab_id =
            if not (length id == 0) && is_saved id saved then some id else first_saved saved;
        visible = false;
        loads = [];
      }

  abbrev pub add_tab : Text → Text → Text → Browser → Browser
  add_tab id url title b = record b {
    tabs =
        set id
          (record { url = safe_url protocol url; title = title; loading = false; error = none })
          b.tabs;
  }

  abbrev pub add_all : List StoredTab → Browser → Browser
  add_all [] b = b
  add_all (s ∷ saved) b = add_all saved (add_tab s.id s.url s.title b)

  abbrev pub first_id : JsMap Text BrowserTab → Option Text
  first_id [] = none
  first_id ((id, tab) ∷ tabs) = some id

  abbrev pub or_first : Option Text → Option BrowserTab → JsMap Text BrowserTab → Option Text
  or_first id none tabs = first_id tabs
  or_first id (some tab) tabs = id

  abbrev pub or_empty : Option Text → Text
  or_empty none = []
  or_empty (some id) = id

  abbrev pub load_all : JsMap Text BrowserTab → List (Text × Text)
  load_all [] = []
  load_all ((id, tab) ∷ tabs) = (id, tab.url) ∷ load_all tabs

  unfoldable pub ensure_tabs : StoredState → Browser → Browser
  ensure_tabs stored b =
      let all = add_all (saved_tabs stored) b in
      if not (length b.tabs == 0) then b else record all {
        active_tab_id = or_first b.active_tab_id (get (or_empty b.active_tab_id) all.tabs) all.tabs;
        loads = b.loads ++ load_all all.tabs;
      }

  abbrev pub or_active : Option Text → Browser → Option Text
  or_active none b = b.active_tab_id
  or_active (some id) b = some id

  abbrev pub tab_of : Option Text → Browser → Option BrowserTab
  tab_of none b = none
  tab_of (some id) b = get id b.tabs

  abbrev pub load_in : Text → Text → BrowserTab → Browser → Browser
  load_in id url tab b = record b {
    visible = true;
    tabs = set id (record tab { loading = true }) b.tabs;
    loads = b.loads ++ ((id, url) ∷ []);
  }

  abbrev pub load_found : Option Text → Text → Option BrowserTab → Browser → Option Browser
  load_found none url tab b = none
  load_found (some id) url none b = none
  load_found (some id) url (some tab) b = some (load_in id url tab b)

  -- With a window to show.
  unfoldable pub navigate : Option Text → Text → Browser → Option Browser
  navigate tab_id url b =
      let target = normalize_address protocol url in
      let id = or_active tab_id b in
      if allowed_url protocol target then load_found id target (tab_of id b) b else none

  abbrev pub selected : Text → Option BrowserTab → Browser → Option Browser
  selected id none b = none
  selected id (some tab) b = some (record b { active_tab_id = some id })

  unfoldable pub select_tab : Text → Browser → Option Browser
  select_tab id b = selected id (get id b.tabs) b

  -- With the id that is made up for the tab.
  abbrev pub opened_tab : Text → Text → Browser → Browser
  opened_tab id url b =
      let added = add_tab id url [] b in
      record added {
        active_tab_id = some id;
        loads = if url == default_url then b.loads else b.loads ++ ((id, url) ∷ []);
      }

  unfoldable pub new_tab : Text → Text → Browser → Option Browser
  new_tab id url b = if leb max_tabs (length b.tabs) then none else some (opened_tab id url b)

  abbrev pub is_active : Option Text → Text → Bool
  is_active none id = false
  is_active (some active) id = active == id

  abbrev pub without : Text → Browser → Browser
  without id b =
      let tabs = delete id b.tabs in
      record b {
        tabs = tabs;
        active_tab_id = if is_active b.active_tab_id id then first_id tabs else b.active_tab_id;
      }

  abbrev pub or_new_tab : Text → Browser → Browser
  or_new_tab new_id b = if length b.tabs == 0 then opened_tab new_id default_url b else b

  abbrev pub closed : Text → Text → Option BrowserTab → Browser → Option Browser
  closed id new_id none b = none
  closed id new_id (some tab) b = some (or_new_tab new_id (without id b))

  unfoldable pub close_tab : Text → Text → Browser → Option Browser
  close_tab id new_id b = closed id new_id (get id b.tabs) b

  -- `updateLocation`, the title, and `did-fail-load` of a tab that is still there.
  abbrev pub located : Text → BrowserTab → BrowserTab
  located url tab = record tab { url = safe_url protocol url; loading = false; error = none }

  abbrev pub failed : Text → Text → BrowserTab → BrowserTab
  failed url message tab = record tab {
    url = safe_url protocol url;
    loading = false;
    error = some message;
  }

  abbrev pub titled : Text → BrowserTab → BrowserTab
  titled title tab = record tab { title = title }

  abbrev pub in_tab :
      (BrowserTab → BrowserTab) → Text → Option BrowserTab → Browser → Option Browser
  in_tab f id none b = none
  in_tab f id (some tab) b = some (record b { tabs = set id (f tab) b.tabs })

  abbrev pub outcome : Browser → Event → Option Browser
  outcome b (navigates id url) = navigate id url b
  outcome b (selects id) = select_tab id b
  outcome b (opens id url) = new_tab id url b
  outcome b (closes id new_id) = close_tab id new_id b
  outcome b (locates id url) = in_tab (located url) id (get id b.tabs) b
  outcome b (titles id title) = in_tab (titled title) id (get id b.tabs) b
  outcome b (fails_load id url message) = in_tab (failed url message) id (get id b.tabs) b
  outcome b hides = some (record b { visible = false })

  abbrev pub or_same : Browser → Option Browser → Browser
  or_same b none = b
  or_same b (some next) = next

  unfoldable pub run : Browser → List Event → Browser
  run b [] = b
  run b (e ∷ es) = run (or_same b (outcome b e)) es
