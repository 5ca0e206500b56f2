-- ===== src/Service/Getter.antt =====
-- GetByVolumeId of logicvolume_service.go.
pub mod Aliasing
use carina.Base.{
  String, ℕ, zero, suc, Option, none, some, List, [], ◌∷◌, ◌<>◌, ltb, nat_eq, ◌==◌, if◌then◌else◌,
}
use carina.Errors.{Error, plain, Result, ok, err}
use carina.Api.{LogicVolume}
use carina.Placement.{Found, found, not_found, failed}
use carina.Service.{Client, volume_not_found}

-- `count` at the end of the loop
unfoldable pub count_id : String → List LogicVolume → ℕ
count_id volume_id [] = 0
count_id volume_id (lv ∷ lvs) =
    let rest = count_id volume_id lvs in if lv.status.volume_id == volume_id then suc rest else rest

-- The loop variable after the loop. Before Go 1.22 (go.mod asks for 1.19) all iterations share one
-- variable, so `foundLv = &lv` is a pointer to what the last iteration leaves in it.
abbrev last_from : LogicVolume → List LogicVolume → LogicVolume
last_from lv [] = lv
last_from lv (next ∷ lvs) = last_from next lvs

abbrev pub loop_variable : List LogicVolume → Option LogicVolume
loop_variable [] = none
loop_variable (lv ∷ lvs) = some (last_from lv lvs)

multiple : String → Error
multiple volume_id = plain ("multiple LogicVolume is found for VolumeID " <> volume_id)

-- `return foundLv, nil`
abbrev pub pointed : Option LogicVolume → Found LogicVolume
pointed none = not_found volume_not_found
pointed (some lv) = found lv

unfoldable pub from_api : String → Result (List LogicVolume) → Found LogicVolume
unfolding count_id multiple
from_api volume_id (err e) = failed e
from_api volume_id (ok lvs) =
    if ltb 1 (count_id volume_id lvs)
    then failed (multiple volume_id)
    else if nat_eq (count_id volume_id lvs) 0
    then not_found volume_not_found
    else pointed (loop_variable lvs)

unfoldable pub from_cache :
    String → Result (List LogicVolume) → Result (List LogicVolume) → Found LogicVolume
unfolding multiple from_api
from_cache volume_id (err e) listed = failed e
from_cache volume_id (ok []) listed = from_api volume_id listed
from_cache volume_id (ok (lv ∷ [])) listed = found lv
from_cache volume_id (ok (lv ∷ _ ∷ _)) listed = failed (multiple volume_id)

-- `not_found` is ErrVolumeNotFound.
unfoldable pub get_by_volume_id : {W : Type 0} → Client W → String → W → Found LogicVolume
unfolding from_cache
get_by_volume_id client volume_id w =
    from_cache volume_id (client.cache_by_volume_id volume_id w) (client.api_list w)
