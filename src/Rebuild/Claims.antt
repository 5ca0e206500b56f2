-- ===== src/Rebuild/Claims.antt =====
-- rebuildVolume and resourceReconcile of node_controller.go.
use carina.Base.{none, some, [], ◌∷◌, Map, has_prefix, if◌then◌else◌}
use carina.Errors.{Error, panic, Result, ok, err}
use carina.Volume.{Op, ◌>>=◌, ◌>>◌, give}
use carina.Reconciler.Retry.{caught, until_max_retry}
use carina.Rebuild.{
  Cluster, ClaimSpec, ObjectKey, Creation, created, exists, refused, get_need_rebuild_volume,
}

-- `newPvc`: a claim that is not bound yet
unfoldable pub new_claim : ClaimSpec → ClaimSpec
new_claim pvc = record pvc { volume_name = "" }

-- The log line reads the storage class and the volume mode through their pointers.
unfoldable pub logged : ClaimSpec → Error → Error
logged pvc e = elim pvc.storage_class [
  | none ↦ panic
  | some storage_class ↦ elim pvc.volume_mode [ none ↦ panic | some volume_mode ↦ e ]
]

module _ {W : Type 0} (c : Cluster W) where
  -- A claim that exists is as good as a new one, but not while it is being deleted.
  abbrev judged : Creation × W → Result (Unit {0}) × W
  judged (created, w) = (ok tt, w)
  judged (exists text e, w) =
      ((if has_prefix text "object is being deleted" then err e else ok tt), w)
  judged (refused e, w) = (err e, w)

  unfoldable pub try_create : ObjectKey → ClaimSpec → Op W (Unit {0})
  try_create key pvc w = judged (c.create_claim key pvc w)

  abbrev deleted : Result (Unit {0}) × W → Result (Unit {0}) × W
  deleted (err panic, w) = (err panic, w)
  deleted (err e, w) = (ok tt, w)
  deleted (ok done, w) = (ok tt, w)

  -- A claim that cannot be read is passed over; an error of the deletion is only logged.
  abbrev replaced : ObjectKey → Result ClaimSpec → Op W (Unit {0})
  replaced key (err e) = give (ok tt)
  replaced key (ok pvc) =
      (λ w. deleted (c.delete_claim key w))
      >> caught (λ e. give (err (logged pvc e))) (give (ok tt))
          (until_max_retry (try_create key (new_claim pvc)) 12)

  unfoldable pub rebuild_claim : ObjectKey → Op W (Unit {0})
  unfolding new_claim logged try_create
  rebuild_claim key w = replaced key (c.get_claim key w) w

  unfoldable pub rebuild_volume : Map ObjectKey → Op W (Unit {0})
  unfolding rebuild_claim
  rebuild_volume [] = give (ok tt)
  rebuild_volume (entry ∷ entries) = rebuild_claim entry.1 >> rebuild_volume entries

  unfoldable pub resource_reconcile : Op W (Unit {0})
  unfolding rebuild_volume
  resource_reconcile = get_need_rebuild_volume c >>= λ claims. rebuild_volume claims
