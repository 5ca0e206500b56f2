-- ===== src/Service/Getter/Aliasing.antt =====
-- What GetByVolumeId returns when the cache does not know the volume.
use carina.Base.{String, ℕ, ◌≡◌, refl, ap, false, some, List, [], ◌∷◌, ◌++◌}
use carina.Errors.{ok}
use carina.Api.{LogicVolume}
use carina.Placement.{found}
use carina.Service.{Client}
use carina.Service.Getter.{count_id, loop_variable, from_api, from_cache, get_by_volume_id, pointed}
use carina.Service.Delete.{delete_volume, delete_found, after_delete}

loop_variable-append :
    (lvs : List LogicVolume) (last : LogicVolume) → loop_variable (lvs ++ last ∷ []) ≡ some last
loop_variable-append [] last = refl
loop_variable-append (lv ∷ []) last = refl
loop_variable-append (lv ∷ next ∷ lvs) last = loop_variable-append (next ∷ lvs) last

module _ {W : Type 0} (client : Client W) (volume_id : String) (w : W) (lvs : List LogicVolume)
    (last : LogicVolume) (missed : client.cache_by_volume_id volume_id w ≡ ok [])
    (listed : client.api_list w ≡ ok (lvs ++ last ∷ []))
    (unique : count_id volume_id (lvs ++ last ∷ []) ≡ 1) where
  -- When the cache has no volume of this id and the API server lists exactly one, what is returned
  -- is the last volume of the list, whichever of them has the id.
  pub get_by_volume_id_last : get_by_volume_id client volume_id w ≡ found last
  unfolding get_by_volume_id from_cache from_api
  get_by_volume_id_last = rw (missed, listed, unique) (ap pointed (loop_variable-append lvs last))

  -- When the cache has no volume of this id and the API server lists exactly one, DeleteVolume asks
  -- the API server to delete the last volume of the list, whichever of them has the id, unless that
  -- last one is being deleted.
  pub delete_volume_last :
      (left : ℕ)
      → last.deleting ≡ false
      → delete_volume client volume_id (left, w)
        ≡ after_delete client last left (client.delete last w)
  unfolding delete_volume delete_found
  delete_volume_last left kept = rw (get_by_volume_id_last, kept)
