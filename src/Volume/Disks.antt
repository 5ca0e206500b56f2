-- ===== src/Volume/Disks.antt =====
-- AddNewDiskToVg, RemoveDiskInVg, HealthCheck and RefreshLvmCache of volume.go.
use carina.Base.{
  String, ℕ, ◌*◌, ◌^◌, not, Option, none, some, [], ◌∷◌, ltb, sub_u64, add_u64, contains, to_lower,
  nat_eq, ◌<>◌, ◌==◌, if◌then◌else◌,
}
use carina.Errors.{plain, Result, ok, err, message}
use carina.Api.{VgGroup, PvInfo}
use carina.Locks.{StringSet}
use carina.Volume.{Op, ◌>>=◌, ◌>>◌, read, give, ignore, Lvm2, LocalVolume, get_mutex_failed, locked}
use carina.Volume.Volumes.{exhausted}

-- A report whose "not found" error means nil
unfoldable pub unless_not_found : {A : Type 0} → Result (Option A) → Result (Option A)
unless_not_found (ok found) = ok found
unless_not_found (err e) = if contains (message e) "not found" then ok none else err e

-- carina.DefaultReservedSpace and carina.DefaultEdgeSpace
abbrev pub default_reserved_space : ℕ
default_reserved_space = 10 * 2 ^ 30

abbrev pub default_edge_space : ℕ
default_edge_space = 2 ^ 30

module _ {W : Type 0} (lv : Lvm2 W) where
  -- The physical volume is created, or is one that no group has.
  ensure_pv : (disk : String) → Option PvInfo → Op W (Unit {0})
  ensure_pv disk none = lv.pv_create disk
  ensure_pv disk (some pv_info) =
      if not (pv_info.vg_name == "")
      then give (
          err
            (plain ("pv " <> (pv_info.pv_name <> (" have bind vg " <> (pv_info.vg_name <> " "))))))
      else give (ok tt)

  join_vg : (disk vg_name : String) → Option VgGroup → Op W (Unit {0})
  join_vg disk vg_name none = lv.vg_create vg_name (vg_name ∷ []) (disk ∷ [])
  join_vg disk vg_name (some vg_info) = lv.vg_extend vg_name disk

  unfoldable pub add_body : (disk vg_name : String) → Op W (Unit {0})
  unfolding unless_not_found ensure_pv join_vg
  add_body disk vg_name = do
    pv_info ← read (λ w. unless_not_found (lv.pv_display disk w))
    ensure_pv disk pv_info
    vg_info ← read (λ w. unless_not_found (lv.vg_display vg_name w))
    join_vg disk vg_name vg_info

  remove_from : (disk vg_name : String) → PvInfo → Option VgGroup → Op W (Unit {0})
  remove_from disk vg_name pv_info none = give (err (plain "not found"))
  remove_from disk vg_name pv_info (some vg_info) =
      if nat_eq vg_info.pv_count 1
      then if ltb 0 vg_info.lv_count
        then give (err (plain "still have logical volumes"))
        else lv.vg_remove vg_name >> lv.pv_remove disk
      else if ltb (add_u64 (sub_u64 vg_info.vg_free default_reserved_space) default_edge_space)
          pv_info.pv_size
      then give (err exhausted)
      else lv.vg_reduce vg_name disk

  remove_pv : (disk vg_name : String) → Option PvInfo → Op W (Unit {0})
  unfolding remove_from
  remove_pv disk vg_name none = give (ok tt)
  remove_pv disk vg_name (some pv_info) =
      if not (pv_info.vg_name == vg_name)
      then give (
          err (
            plain (
              "pv "
              <> (pv_info.pv_name
                  <> (" have bind vg " <> (pv_info.vg_name <> (" not " <> (vg_name <> " "))))))))
      else if pv_info.vg_name == ""
      then lv.pv_remove disk
      else do vg_info ← read (lv.vg_display vg_name); remove_from disk vg_name pv_info vg_info

  unfoldable pub remove_body : (disk vg_name : String) → Op W (Unit {0})
  unfolding remove_pv
  remove_body disk vg_name = do pv_info ← read (lv.pv_display disk); remove_pv disk vg_name pv_info

  -- The context has just been made with 25 seconds left, so its first test finds it open.
  unfoldable pub health_body : Op W (Unit {0})
  health_body = do
    ignore (lv.remove_unknown_device "carina-vg-hdd")
    ignore (lv.remove_unknown_device "carina-vg-ssd")

  unfoldable pub refresh_lvm_cache : Op W (Unit {0})
  refresh_lvm_cache = do ignore lv.start_lvm2; ignore (lv.pv_scan ""); ignore (lv.vg_scan "")

  module _ {S : Type 0} (sets : StringSet S) where
    unfoldable pub add_new_disk_to_vg :
        (disk vg_name : String) → LocalVolume S W → Result (Unit {0}) × LocalVolume S W
    unfolding locked add_body
    add_new_disk_to_vg disk vg_name =
        locked sets (err get_mutex_failed) (add_body disk (to_lower vg_name))

    unfoldable pub remove_disk_in_vg :
        (disk vg_name : String) → LocalVolume S W → Result (Unit {0}) × LocalVolume S W
    unfolding locked remove_body
    remove_disk_in_vg disk vg_name = locked sets (err get_mutex_failed) (remove_body disk vg_name)

    unfoldable pub health_check : LocalVolume S W → Result (Unit {0}) × LocalVolume S W
    unfolding locked health_body
    health_check = locked sets (ok tt) health_body
