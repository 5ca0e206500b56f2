-- ===== src/Reconciler.antt =====
-- The reconciler of logic volumes on a node: controllers/logicvolume_controller.go, with
-- UntilMaxRetry, SliceRemoveString and PartitionName of utils/utils.go. The volume, partition and
-- host managers, the API server and the notice to the capacity runner are the record `Env` of
-- operations over a world `D`. Log lines, events and the sleep between two tries are left out.
pub mod Retry
pub mod Statuses
pub mod Steps
pub mod Keeps
pub mod Effects
pub mod Examples
use carina.Base.{
  String, ℕ, ℤ, pos, negsuc, ◌-◌, ◌^◌, suc, Bool, true, false, List, [], ◌∷◌, Option, none, some,
  Map, split, digits, ltb, ◌<>◌, ◌==◌, if◌then◌else◌,
}
use carina.Errors.{Result}
use carina.Api.{LogicVolume}
use carina.Volume.{Op, LvInfo}
use carina.Placement.{Found}

pub record Env (D : Type 0) : Type 0 where
  pub get : D → Found LogicVolume
  pub update_status : LogicVolume → Op D (Unit {0})
  -- r.Patch(ctx, lv2, client.MergeFrom(lv))
  pub patch : LogicVolume → Op D (Unit {0})
  -- NoticeUpdateCapacity, answered or given up after five seconds
  pub sync_notice_update_capacity : Op D (Unit {0})
  pub create_volume : (lv group : String) → (size ratio : ℕ) → Op D (Unit {0})
  pub resize_volume : (lv group : String) → (size ratio : ℕ) → Op D (Unit {0})
  pub delete_volume : (lv group : String) → Op D (Unit {0})
  pub volume_info : (lv group : String) → D → Result LvInfo
  pub create_partition : (name group : String) → ℕ → Op D (Unit {0})
  pub update_partition : (name group : String) → ℕ → Op D (Unit {0})
  pub delete_partition : (name group : String) → Op D (Unit {0})
  -- the udev properties of the disk
  pub scan_disk : (group : String) → D → Result (Map String)
  pub create_host_volume : (lv group : String) → Op D (Unit {0})
  pub delete_host_volume : (lv group : String) → Op D (Unit {0})

-- uint64(x) of an int64
unfoldable pub to_uint64 : ℤ → ℕ
to_uint64 (pos n) = n
to_uint64 (negsuc n) = 2 ^ 64 - suc n

-- `v, _ := strconv.ParseUint(s, 10, 32)`: 0 on a syntax error, the largest value out of range
unfoldable pub parse_uint32 : String → ℕ
parse_uint32 s = elim (digits s) [ none ↦ 0 | some n ↦ if ltb n (2 ^ 32) then n else 2 ^ 32 - 1 ]

unfoldable pub slice_remove_string : List String → String → List String
slice_remove_string [] s = []
slice_remove_string (item ∷ slice) s =
    if item == s then slice_remove_string slice s else item ∷ slice_remove_string slice s

last_part : String → List String → String
last_part part [] = part
last_part part (next ∷ parts) = last_part next parts

-- strings.Split gives at least one part.
unfoldable pub partition_name : String → String
unfolding last_part
partition_name lv = "carina.io/" <> last_part "" (split b'-' lv)

abbrev pub volume_manager_type : String
volume_manager_type = "carina.io/volume-manage-type"

abbrev pub exclusivity_disk : String
exclusivity_disk = "carina.storage.io/exclusively-raw-disk"

abbrev pub logic_volume_finalizer : String
logic_volume_finalizer = "carina.storage.io/logicvolume"
