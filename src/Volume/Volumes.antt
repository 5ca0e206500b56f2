-- ===== src/Volume/Volumes.antt =====
-- CreateVolume, DeleteVolume and ResizeVolume of volume.go.
use carina.Base.{
  String, ℕ, ◌-◌, ◌*◌, ◌^◌, ◌%◌, Bool, false, Option, none, some, ltb, sub_u64, contains,
  has_prefix, nat_eq, ◌<>◌, ◌==◌, if◌then◌else◌,
}
use carina.Errors.{Error, plain, panic, Result, ok, err, message}
use carina.Api.{VgGroup}
use carina.Locks.{StringSet}
use carina.Volume.{
  Op, ◌>>=◌, ◌>>◌, read, give, ignore, reported, Lvm2, Bcache, LvInfo, LocalVolume,
  get_mutex_failed, locked,
}
use carina.Volume.Bcaches.{delete_bcache}

-- carina.DefaultReservedSpace - carina.DefaultEdgeSpace
abbrev pub reserved : ℕ
reserved = 10 * 2 ^ 30 - 2 ^ 30

abbrev pub volume_prefix : String
volume_prefix = "volume-"

abbrev pub resource_exhausted_text : String
resource_exhausted_text = "don't have enough space"

abbrev pub exhausted : Error
exhausted = plain resource_exhausted_text

-- The device group must be there.
unfoldable pub group_info : {W : Type 0} → Lvm2 W → String → W → Result VgGroup
group_info lv vg_name w = elim (lv.vg_display vg_name w) [
  | err e ↦ err e
  | ok none ↦ err (plain "cannot find device group info")
  | ok (some vg_info) ↦ ok vg_info
]

-- Is it the volume of this group?
abbrev pub in_group : String → Option LvInfo → Bool
in_group vg_name none = false
in_group vg_name (some lv_info) = lv_info.vg_name == vg_name

module _ {W : Type 0} (lv : Lvm2 W) (bcache : Bcache W) where
  -- The rest of CreateVolume, with the group's data
  create_in : (name vg_name : String) → ℕ → VgGroup → Op W (Unit {0})
  create_in name vg_name size vg_info = λ w.
      if ltb (sub_u64 vg_info.vg_free size) reserved
      then (err exhausted, w)
      else if in_group vg_name (reported (lv.lv_display name vg_name w))
      then (ok tt, w)
      else lv.lv_create_from_vg name vg_name size w

  create_body : (lv_name vg_name : String) → ℕ → Op W (Unit {0})
  unfolding create_in group_info
  create_body lv_name vg_name size = do
    vg_info ← read (group_info lv vg_name)
    create_in (volume_prefix <> lv_name) vg_name size vg_info

  -- Volumes of old versions are in a thin pool, which goes with them.
  drop_pool : (vg_name : String) → Option LvInfo → Op W (Unit {0})
  drop_pool vg_name none = λ w. (err panic, w)
  drop_pool vg_name (some lv_info) = λ w.
      elim (reported (lv.lv_display lv_info.pool_lv vg_name w)) [
        | none ↦ (ok tt, w)
        | some thin_info ↦ lv.delete_thin_pool lv_info.pool_lv vg_name w
      ]

  delete_found : (name vg_name : String) → Result (Option LvInfo) → Op W (Unit {0})
  unfolding delete_bcache drop_pool
  delete_found name vg_name (err e) =
      if contains (message e) "not found" then give (ok tt) else give (err e)
  delete_found name vg_name (ok lv_info) = do
    ignore (delete_bcache bcache ("/dev/" <> (vg_name <> ("/" <> name))))
    lv.lv_remove name vg_name
    drop_pool vg_name lv_info

  -- `name` has the prefix exactly once.
  unfoldable pub prefixed : String → String
  prefixed lv_name = if has_prefix lv_name volume_prefix then lv_name else volume_prefix <> lv_name

  delete_body : (lv_name vg_name : String) → Op W (Unit {0})
  unfolding delete_found prefixed
  delete_body lv_name vg_name =
      λ w. delete_found (prefixed lv_name) vg_name (lv.lv_display (prefixed lv_name) vg_name w) w

  unfoldable pub resize_pool : (vg_name : String) (size ratio : ℕ) → LvInfo → Op W (Unit {0})
  resize_pool vg_name size ratio lv_info = λ w.
      elim (reported (lv.lv_display lv_info.pool_lv vg_name w)) [
        | none ↦ (ok tt, w)
        | some thin_info ↦
            if ltb thin_info.lv_size size
            then lv.resize_thin_pool lv_info.pool_lv vg_name (size * ratio % 2 ^ 64) w
            else (ok tt, w)
      ]

  resize_in : (name vg_name : String) (size ratio : ℕ) → VgGroup → LvInfo → Op W (Unit {0})
  unfolding resize_pool
  resize_in name vg_name size ratio vg_info lv_info =
      if nat_eq lv_info.lv_size size
      then give (ok tt)
      else if ltb (sub_u64 vg_info.vg_free (sub_u64 size lv_info.lv_size)) reserved
      then give (err exhausted)
      else do resize_pool vg_name size ratio lv_info; lv.lv_resize name vg_name size

  -- A volume whose data cannot be read is left as it is, without an error.
  resize_found :
      (name vg_name : String) (size ratio : ℕ) → VgGroup → Result (Option LvInfo) → Op W (Unit {0})
  unfolding resize_in
  resize_found name vg_name size ratio vg_info (err e) = give (ok tt)
  resize_found name vg_name size ratio vg_info (ok none) = give (err (plain "volume don't exists"))
  resize_found name vg_name size ratio vg_info (ok (some lv_info)) =
      resize_in name vg_name size ratio vg_info lv_info

  resize_body : (lv_name vg_name : String) (size ratio : ℕ) → Op W (Unit {0})
  unfolding group_info resize_found
  resize_body lv_name vg_name size ratio = do
    vg_info ← read (group_info lv vg_name)
    λ w.
        resize_found (volume_prefix <> lv_name) vg_name size ratio vg_info
          (lv.lv_display (volume_prefix <> lv_name) vg_name w) w

  module _ {S : Type 0} (sets : StringSet S) where
    unfoldable pub create_volume :
        (lv_name vg_name : String) → ℕ → LocalVolume S W → Result (Unit {0}) × LocalVolume S W
    unfolding locked create_body
    create_volume lv_name vg_name size =
        locked sets (err get_mutex_failed) (create_body lv_name vg_name size)

    unfoldable pub delete_volume :
        (lv_name vg_name : String) → LocalVolume S W → Result (Unit {0}) × LocalVolume S W
    unfolding locked delete_body
    delete_volume lv_name vg_name = locked sets (err get_mutex_failed) (delete_body lv_name vg_name)

    unfoldable pub resize_volume :
        (lv_name vg_name : String) (size ratio : ℕ)
        → LocalVolume S W
        → Result (Unit {0}) × LocalVolume S W
    unfolding locked resize_body
    resize_volume lv_name vg_name size ratio =
        locked sets (err get_mutex_failed) (resize_body lv_name vg_name size ratio)
