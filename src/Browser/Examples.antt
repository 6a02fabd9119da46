-- ===== src/Browser/Examples.antt =====
-- A browser with one tab: tests of apps/shell/src/main/embedded-browser.ts, and each theorem at it.
use deepseek_harness.Common.{
  Text, text_eq, false, Option, none, some, List, [], ◌∷◌, ◌≡◌, refl, arith, nat_eq,
}
use deepseek_harness.Supervisor.Output.{units, strip}
use deepseek_harness.Browser.Address.{default_url, allowed_url, normalize_address}
use deepseek_harness.Browser.Tabs.{
  Browser, Event, opens, closes, selects, navigates, locates, new_tab, run, StoredState,
  new_browser, ensure_tabs,
}
use deepseek_harness.Browser.Invariant.{IsValid, browser_run-IsValid}
use deepseek_harness.Browser.Restore.{ensure_tabs-IsValid}

-- Web addresses have a protocol that is their first five or six units.
abbrev protocol_of : Option Text → Option Text
protocol_of none = none
protocol_of (some rest) = some (units "https:")

abbrev protocol : Text → Option Text
protocol url = protocol_of (strip (units "https://") url)

abbrev blank : Browser
blank = record {
  tabs = (units "a", record { url = default_url; title = []; loading = false; error = none }) ∷ [];
  active_tab_id = some (units "a");
  visible = false;
  loads = [];
}

abbrev events : List Event
events =
    opens (units "b") (units "https://x")
    ∷ navigates none (units "y.org")
    ∷ selects (units "a")
    ∷ closes (units "a") (units "c")
    ∷ []

host_is_https : normalize_address protocol (units " y.org") ≡ units "https://y.org"
unfolding normalize_address allowed_url
host_is_https = refl

one_is_left : (run protocol blank events).active_tab_id ≡ some (units "b")
unfolding run deepseek_harness.Browser.Tabs.navigate deepseek_harness.Browser.Tabs.select_tab
    deepseek_harness.Browser.Tabs.close_tab new_tab allowed_url normalize_address
    deepseek_harness.Browser.Address.safe_url
one_is_left = refl

blank-IsValid : IsValid protocol blank
unfolding allowed_url
blank-IsValid = record { few = omega arith; safe = (refl, tt); there = (units "a", _, refl, refl) }

browser_run-IsValid_example : IsValid protocol (run protocol blank events)
browser_run-IsValid_example = browser_run-IsValid protocol blank events blank-IsValid

file_is_refused : allowed_url protocol (units "file:///x") ≡ false
unfolding allowed_url
file_is_refused = refl

-- A state file with an unnamed tab and one that may not be shown, of which the second was active.
abbrev stored : StoredState
stored = record {
  tabs = some (
      record { id = []; url = units "https://x"; title = [] }
      ∷ record { id = units "b"; url = units "file:///x"; title = units "t" }
      ∷ []);
  url = [];
  active_tab_id = units "b";
}

-- A test: the first gets an id, and the second the default address.
restores_two :
    (ensure_tabs protocol stored (new_browser protocol stored)).loads
    ≡ (units "tab-1", units "https://x") ∷ (units "b", default_url) ∷ []
unfolding ensure_tabs new_browser allowed_url deepseek_harness.Browser.Address.safe_url
restores_two = refl

ensure_tabs-IsValid_example :
    IsValid protocol (ensure_tabs protocol stored (new_browser protocol stored))
ensure_tabs-IsValid_example = ensure_tabs-IsValid protocol stored
