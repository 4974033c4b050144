-- ===== src/Activity/Examples.antt =====
-- A log of two entries that three are added to.
use nf_sdk.Base.{◌≡◌, ◌-◌, ℕ, pos, [], ◌∷◌, codes, drop}
use nf_sdk.Activity.Log.{Entry, change, new_log}
use nf_sdk.Activity.Window.{add_all, add_all-window}

abbrev entry : ℕ → Entry
entry n = record {
  at = n;
  level = change;
  source = codes "watchdog";
  message = codes "applied";
  detail = [];
  actor = codes "watchdog";
}

add_all-window_example :
    (add_all (entry 1 ∷ entry 2 ∷ entry 3 ∷ []) (new_log (pos 2))).entries
    ≡ drop (3 - (new_log (pos 2)).limit) (entry 1 ∷ entry 2 ∷ entry 3 ∷ [])
add_all-window_example = add_all-window (pos 2) (entry 1 ∷ entry 2 ∷ entry 3 ∷ [])
