-- ===== src/Service/Delete/Gone.antt =====
-- What DeleteVolume waits for.
use carina.Base.{String, ℕ, suc, ◌-◌, ◌<◌, ◌≡◌, refl, ap, ◌∙◌, Bool, true, false, if◌then◌else◌}
use carina.Errors.{Error, plain, Result, ok, err}
use carina.Api.{LogicVolume}
use carina.Placement.{Found, found, not_found, failed}
use carina.Service.{Client, Timed, get_lv, get_node}
use carina.Service.Poll.{again, stop, watch}
use carina.Service.Poll.Runs.{Reaches, poll-ok, poll-first, after}
use carina.Service.Getter.{get_by_volume_id}
use carina.Service.Delete.{
  judge_deleted, wait_deleted, await, after_delete, delete_found, delete_volume,
}

module _ {W : Type 0} (client : Client W) where
  -- In a world that the waiting loop, started in the first one, looked at, there is no object of the
  -- name.
  pub record SeenGone (name : String) (start : W) : Type 0 where
    pub seen : W
    pub error : Error
    pub reached : Reaches client.pass (watch (λ w. judge_deleted (get_lv client name w))) start seen
    pub missing : get_lv client name seen ≡ not_found error

  -- How the volume is known to be gone
  pub data Gone (volume_id : String) (w : W) : Type 0 where
    unknown : (e : Error) → get_by_volume_id client volume_id w ≡ not_found e → Gone volume_id w
    already :
        (lv : LogicVolume) (e : Error)
        → get_by_volume_id client volume_id w ≡ found lv
        → (client.delete lv w).0 ≡ not_found e
        → Gone volume_id w
    seen_gone :
        (lv : LogicVolume) (v : W)
        → get_by_volume_id client volume_id w ≡ found lv
        → client.delete lv w ≡ (found tt, v)
        → SeenGone lv.name v
        → Gone volume_id w

  judged :
      (f : Found LogicVolume) → judge_deleted f ≡ stop (ok tt) → (e : Error) × (f ≡ not_found e)
  unfolding judge_deleted
  judged (not_found e) h = (e, refl)
  judged (failed e) h = cc h
  judged (found lv) h = cc h

  wait_deleted-gone :
      (name : String) (left : ℕ) (w : W) {t : Timed W}
      → wait_deleted client name left w ≡ (ok tt, t)
      → SeenGone name w
  unfolding wait_deleted
  wait_deleted-gone name left w h =
      let s = poll-ok client.pass (watch (λ w. judge_deleted (get_lv client name w))) left w h in
      let j = judged (get_lv client name s.seen) (ap (λ p. p.0) s.verdict) in
      record { seen = s.seen; error = j.0; reached = s.reached; missing = j.1 }

  await-gone :
      (name : String) (node : Result (Unit {0})) (left : ℕ) (w : W) {t : Timed W}
      → await client name node left w ≡ (ok tt, t)
      → SeenGone name w
  await-gone name (err e) left w h = cc h
  await-gone name (ok node) left w h = wait_deleted-gone name left w h

  after_delete-Gone :
      (volume_id : String) (lv : LogicVolume) (left : ℕ) (w : W) (d : Found (Unit {0}) × W)
      {t : Timed W}
      → get_by_volume_id client volume_id w ≡ found lv
      → client.delete lv w ≡ d
      → after_delete client lv left d ≡ (ok tt, t)
      → Gone volume_id w
  unfolding after_delete
  after_delete-Gone volume_id lv left w (not_found e, v) g c h = already lv e g (ap (λ p. p.0) c)
  after_delete-Gone volume_id lv left w (failed e, v) g c h = cc h
  after_delete-Gone volume_id lv left w (found done, v) g c h =
      seen_gone lv v g c (await-gone lv.name (get_node client lv.spec.node_name v) left v h)

  delete_found-Gone :
      (volume_id : String) (f : Found LogicVolume) (left : ℕ) (w : W) {t : Timed W}
      → get_by_volume_id client volume_id w ≡ f
      → delete_found client f (left, w) ≡ (ok tt, t)
      → Gone volume_id w
  unfolding delete_found
  delete_found-Gone volume_id (not_found e) left w g h = unknown e g
  delete_found-Gone volume_id (failed e) left w g h = cc h
  delete_found-Gone volume_id (found lv) left w {t} g h = kept lv.deleting h
    where
      kept :
          (b : Bool)
          → (if b
              then (err (plain "lv is being deleted"), (left, w))
              else after_delete client lv left (client.delete lv w))
            ≡ (ok tt, t)
          → Gone volume_id w
      kept true e = cc e
      kept false e = after_delete-Gone volume_id lv left w (client.delete lv w) g refl e

  -- If DeleteVolume succeeds, no volume had the id, or the API server answered the deletion of the
  -- one that was found with "not found", or took the deletion, and in the waits that began after it
  -- the object was looked up by its name until it was not found.
  pub delete_volume-Gone :
      (volume_id : String) (left : ℕ) (w : W) (t : Timed W)
      → delete_volume client volume_id (left, w) ≡ (ok tt, t)
      → Gone volume_id w
  unfolding delete_volume
  delete_volume-Gone volume_id left w t h =
      delete_found-Gone volume_id (get_by_volume_id client volume_id w) left w refl h

  delete_kept :
      (lv : LogicVolume) (left : ℕ) (w : W)
      → lv.deleting ≡ false
      → delete_found client (found lv) (left, w) ≡ after_delete client lv left (client.delete lv w)
  unfolding delete_found
  delete_kept lv left w kept = rw kept

  deletion_taken :
      (lv : LogicVolume) (left : ℕ) (v : W)
      → get_node client lv.spec.node_name v ≡ ok tt
      → after_delete client lv left (found tt, v) ≡ wait_deleted client lv.name left v
  unfolding after_delete
  deletion_taken lv left v node = rw node

  wait_deleted_done :
      (name : String) (left : ℕ) (v : W) (e : Error) (k : ℕ)
      → k < left
      → ((j : ℕ) → j < k → judge_deleted (get_lv client name (after client.pass (suc j) v)) ≡ again)
      → get_lv client name (after client.pass (suc k) v) ≡ not_found e
      → wait_deleted client name left v ≡ (ok tt, (left - suc k, after client.pass (suc k) v))
  unfolding wait_deleted
  wait_deleted_done name left v e k lt waits gone =
      poll-first client.pass (λ u. judge_deleted (get_lv client name u)) k left v lt waits decides
    where
      decides : judge_deleted (get_lv client name (after client.pass (suc k) v)) ≡ stop (ok tt)
      decides = unfold judge_deleted in rw gone

  -- DeleteVolume of a volume that is found and not being deleted, whose deletion is taken and whose
  -- node exists, succeeds at the first wait after which the object is not found any more, if that
  -- comes before the context is done and the object was found after each wait before.
  pub delete_volume_done :
      (volume_id : String) (left : ℕ) (w v : W) (lv : LogicVolume) (e : Error) (k : ℕ)
      → get_by_volume_id client volume_id w ≡ found lv
      → lv.deleting ≡ false
      → client.delete lv w ≡ (found tt, v)
      → get_node client lv.spec.node_name v ≡ ok tt
      → k < left
      → ((j : ℕ)
          → j < k
          → judge_deleted (get_lv client lv.name (after client.pass (suc j) v)) ≡ again)
      → get_lv client lv.name (after client.pass (suc k) v) ≡ not_found e
      → delete_volume client volume_id (left, w)
        ≡ (ok tt, (left - suc k, after client.pass (suc k) v))
  unfolding delete_volume
  delete_volume_done volume_id left w v lv e k known kept taken node lt waits gone =
      ap (λ f. delete_found client f (left, w)) known
      ∙ delete_kept lv left w kept
      ∙ ap (after_delete client lv left) taken
      ∙ deletion_taken lv left v node
      ∙ wait_deleted_done lv.name left v e k lt waits gone
