-- ===== src/Config/Strategy.antt =====
-- The two strategy readers and the scan interval.
use carina.Base.{String, ℤ, pos, ◌≡◌, ◌↔◌, negsuc, ◌⊎◌, to_lower, arith, eq_iff, ◌≤ℤ◌}
use carina.Config.{binpack, spreadout, controller_strategy, plugin_strategy, disk_scan_interval}

-- Whatever is configured, the controller and the scheduler plugin each work with one of the two
-- known strategies.
pub strategy_known :
    (configured : String)
    → ((controller_strategy configured ≡ binpack) ⊎ (controller_strategy configured ≡ spreadout))
      × ((plugin_strategy configured ≡ binpack) ⊎ (plugin_strategy configured ≡ spreadout))
unfolding controller_strategy plugin_strategy
strategy_known configured =
    ground (arith, eq_iff "binpack" (to_lower configured), eq_iff "spreadout" (to_lower configured))

-- The controller and the scheduler plugin use the same strategy exactly when the configured text
-- names one of the two, up to case.
pub strategies_agree :
    (configured : String)
    → (controller_strategy configured ≡ plugin_strategy configured)
      ↔ ((to_lower configured ≡ binpack) ⊎ (to_lower configured ≡ spreadout))
unfolding controller_strategy plugin_strategy
strategies_agree configured = ground (
  arith,
  eq_iff "binpack" (to_lower configured),
  eq_iff "spreadout" (to_lower configured),
  eq_iff "spreadout" "binpack",
)

-- The interval between two scans is 0, which means no scan, or at least 300 seconds, and then it is
-- the configured one if that is at least 300 seconds.
pub interval_floor :
    (configured : ℤ)
    → (disk_scan_interval configured ≡ pos 0) × (configured ≡ pos 0)
      ⊎ (pos 300 ≤ℤ disk_scan_interval configured)
        × (pos 300 ≤ℤ configured → disk_scan_interval configured ≡ configured)
unfolding disk_scan_interval
interval_floor (pos n) = ground arith
interval_floor (negsuc n) = ground arith
