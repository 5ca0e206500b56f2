-- ===== src/Config/Examples.antt =====
-- The strategies and the interval on configured values.
use carina.Base.{◌≡◌, ◌↔◌, ◌⊎◌, pos, to_lower, ◌≤ℤ◌}
use carina.Config.{binpack, spreadout, controller_strategy, plugin_strategy, disk_scan_interval}
use carina.Config.{Disk}
use carina.Config.Validate.{validate}
use carina.Config.Validate.Accepts.{IsValid, validate-IsValid}
use carina.Errors.{ok}
use carina.Base.{[], ◌∷◌}
use carina.Config.Strategy.{strategy_known, strategies_agree, interval_floor}

strategy_known_run :
    ((controller_strategy "random" ≡ binpack) ⊎ (controller_strategy "random" ≡ spreadout))
    × ((plugin_strategy "random" ≡ binpack) ⊎ (plugin_strategy "random" ≡ spreadout))
strategy_known_run = strategy_known "random"

strategies_agree_example :
    (controller_strategy "" ≡ plugin_strategy "")
    ↔ ((to_lower "" ≡ binpack) ⊎ (to_lower "" ≡ spreadout))
strategies_agree_example = strategies_agree ""

interval_floor_run :
    (disk_scan_interval (pos 20) ≡ pos 0) × (pos 20 ≡ pos 0)
    ⊎ (pos 300 ≤ℤ disk_scan_interval (pos 20))
      × (pos 300 ≤ℤ pos 20 → disk_scan_interval (pos 20) ≡ pos 20)
interval_floor_run = interval_floor (pos 20)

abbrev two_groups : Disk
two_groups = record {
  disk_selectors =
      record { name = "carina-vg-ssd"; re = "loop2+" ∷ []; policy = "LVM"; node_label = "" }
      ∷ record { name = "carina-raw-ssd"; re = "loop3+" ∷ []; policy = "RAW"; node_label = "" }
      ∷ [];
  disk_scan_interval = pos 300;
  scheduler_strategy = "Spreadout";
}

validate-IsValid_example : (validate two_groups ≡ ok tt) ↔ IsValid two_groups
validate-IsValid_example = validate-IsValid two_groups
