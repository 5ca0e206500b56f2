-- ===== src/Service/Delete.antt =====
-- DeleteVolume of logicvolume_service.go.
pub mod Gone
use carina.Base.{String, ℕ, Bool, true, false, if◌then◌else◌}
use carina.Errors.{Error, plain, Result, ok, err}
use carina.Api.{LogicVolume}
use carina.Placement.{Found, found, not_found, failed}
use carina.Service.{Client, Timed, get_lv, get_node}
use carina.Service.Poll.{Verdict, again, stop, poll, watch}
use carina.Service.Getter.{get_by_volume_id}

unfoldable pub judge_deleted : Found LogicVolume → Verdict (Unit {0})
judge_deleted (not_found e) = stop (ok tt)
judge_deleted (failed e) = stop (err e)
judge_deleted (found lv) = again

module _ {W : Type 0} (client : Client W) where
  unfoldable pub wait_deleted : String → ℕ → W → Result (Unit {0}) × Timed W
  unfolding judge_deleted poll
  wait_deleted name = poll client.pass (watch (λ w. judge_deleted (get_lv client name w)))

  -- The check of the node, and the loop
  abbrev pub await : String → Result (Unit {0}) → ℕ → W → Result (Unit {0}) × Timed W
  await name (err e) left w = (err e, (left, w))
  await name (ok node) left w = wait_deleted name left w

  -- `err = s.Delete(ctx, lv)` and what follows
  unfoldable pub after_delete : LogicVolume → ℕ → Found (Unit {0}) × W → Result (Unit {0}) × Timed W
  unfolding wait_deleted
  after_delete lv left (not_found e, w) = (ok tt, (left, w))
  after_delete lv left (failed e, w) = (err e, (left, w))
  after_delete lv left (found done, w) = await lv.name (get_node client lv.spec.node_name w) left w

  unfoldable pub delete_found : Found LogicVolume → Timed W → Result (Unit {0}) × Timed W
  unfolding after_delete
  delete_found (not_found e) t = (ok tt, t)
  delete_found (failed e) t = (err e, t)
  delete_found (found lv) (left, w) =
      if lv.deleting
      then (err (plain "lv is being deleted"), (left, w))
      else after_delete lv left (client.delete lv w)

  unfoldable pub delete_volume : String → Timed W → Result (Unit {0}) × Timed W
  unfolding delete_found
  delete_volume volume_id (left, w) = delete_found (get_by_volume_id client volume_id w) (left, w)
