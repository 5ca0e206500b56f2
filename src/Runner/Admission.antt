-- ===== src/Runner/Admission.antt =====
-- The capacity that a node publishes and the space that its volume manager asks for.
use carina.Base.{
  String, ℕ, ◌+◌, ◌*◌, ◌^◌, ◌≤◌, ◌<◌, ◌≡◌, ◌∙◌, arith, false, ltb, sub_u64, add_u64, ◌<>◌,
  if◌then◌else◌,
}
use carina.Errors.{ok}
use carina.Api.{VgGroup}
use carina.Locks.{StringSet, held}
use carina.Volume.{Lvm2, Bcache, LocalVolume, volume_mutex, reported}
use carina.Volume.Volumes.{reserved, volume_prefix, in_group, group_info, create_volume}
use carina.Volume.Space.{outcome, create_keeps_reserve}
use carina.Runner.{free_gb}

-- A size of at most the published GiB leaves the reserve of the volume manager.
free_gb_reserve :
    (free gb : ℕ) → free < 2 ^ 63 → 1 ≤ gb → gb ≤ free_gb free → gb * 2 ^ 30 + reserved ≤ free
unfolding free_gb sub_u64 add_u64
free_gb_reserve free gb bound positive fits = ground (arith, bound, positive, fits)

module _ {S W : Type 0} (sets : StringSet S) (lv : Lvm2 W) (bcache : Bcache W) (v : LocalVolume S W)
    (lv_name vg_name : String) (gb : ℕ) (vg_info : VgGroup)
    (unlocked : held sets v.mutex volume_mutex ≡ false) where
  -- A request of some GiB, at least one and at most what the node publishes for the group, is not
  -- refused for lack of space by the volume manager, if the group has not changed since: the volume
  -- is there already, or the driver is asked to create it.
  pub published_admitted :
      group_info lv vg_name v.world ≡ ok vg_info
      → vg_info.vg_free < 2 ^ 63
      → 1 ≤ gb
      → gb ≤ free_gb vg_info.vg_free
      → outcome (create_volume lv bcache sets lv_name vg_name (gb * 2 ^ 30) v) ≡ (
          if in_group vg_name (reported (lv.lv_display (volume_prefix <> lv_name) vg_name v.world))
          then (ok tt, v.world)
          else lv.lv_create_from_vg (volume_prefix <> lv_name) vg_name (gb * 2 ^ 30) v.world)
  published_admitted known bound positive fits =
      create_keeps_reserve sets lv bcache v lv_name vg_name (gb * 2 ^ 30) vg_info unlocked known
        (omega (arith, room)) (omega (arith, bound))
      ∙ rw admitted
    where
      room : gb * 2 ^ 30 + reserved ≤ vg_info.vg_free
      room = free_gb_reserve vg_info.vg_free gb bound positive fits

      admitted : ltb vg_info.vg_free (gb * 2 ^ 30 + reserved) ≡ false
      admitted = ground (arith, room)
