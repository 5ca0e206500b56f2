-- ===== src/Volume/Reports.antt =====
-- VolumeList, VolumeInfo and GetCurrentVgStruct of volume.go.
pub mod Groups
use carina.Base.{
  String, Bool, true, false, not, ◌&&◌, Option, none, some, List, [], ◌∷◌, ◌++◌, Map, lookup,
  insert, ◌<>◌, ◌==◌, if◌then◌else◌,
}
use carina.Errors.{Error, plain, status, internal, Result, ok, err, ◌>>=◌, message}
use carina.Api.{VgGroup, PvInfo}
use carina.Volume.{Lvm2, LvInfo}

module _ {W : Type 0} (lv : Lvm2 W) where
  unfoldable pub volume_list : (lv_name vg_name : String) → W → Result (List LvInfo)
  volume_list lv_name vg_name w =
      lv.lvs
        (if not (lv_name == "") && not (vg_name == "") then vg_name <> ("/" <> lv_name) else "") w

  find_lv : String → List LvInfo → Result LvInfo
  find_lv lv_name [] = err (plain "not found")
  find_lv lv_name (v ∷ lvs) =
      let rest = find_lv lv_name lvs in if v.lv_name == lv_name then ok v else rest

  unfoldable pub volume_info : (lv_name vg_name : String) → W → Result LvInfo
  unfolding volume_list find_lv
  volume_info lv_name vg_name w = elim (volume_list lv_name vg_name w) [
    | err e ↦ err (status internal ("failed to list lv :" <> message e))
    | ok lvs ↦ find_lv lv_name lvs
  ]

-- tmp[v.VGName] = &vgs[i]
unfoldable pub by_name : List VgGroup → Map VgGroup → Map VgGroup
by_name [] tmp = tmp
by_name (v ∷ vgs) tmp = by_name vgs (insert v.vg_name v tmp)

-- tmp[v.VGName].PVS = append(tmp[v.VGName].PVS, &pvs[i])
unfoldable pub with_pv : VgGroup → PvInfo → VgGroup
with_pv v pv = record {
  vg_name = v.vg_name;
  pv_count = v.pv_count;
  lv_count = v.lv_count;
  vg_attr = v.vg_attr;
  vg_size = v.vg_size;
  vg_free = v.vg_free;
  pvs = v.pvs ++ (pv ∷ []);
}

attach_pv : PvInfo → Map VgGroup → Option VgGroup → Map VgGroup
attach_pv pv tmp none = tmp
attach_pv pv tmp (some v) = insert pv.vg_name (with_pv v pv) tmp

unfoldable pub attach_pvs : List PvInfo → Map VgGroup → Map VgGroup
unfolding attach_pv
attach_pvs [] tmp = tmp
attach_pvs (v ∷ pvs) tmp =
    attach_pvs pvs (if v.vg_name == "" then tmp else attach_pv v tmp (lookup v.vg_name tmp))

abbrev values : Map VgGroup → List VgGroup
values [] = []
values ((k, v) ∷ tmp) = v ∷ values tmp

unfoldable pub get_current_vg_struct : {W : Type 0} → Lvm2 W → W → Result (List VgGroup)
unfolding by_name attach_pvs
get_current_vg_struct lv w = do
  vgs ← lv.vgs w
  pvs ← lv.pvs w
  ok (values (attach_pvs pvs (by_name vgs [])))
