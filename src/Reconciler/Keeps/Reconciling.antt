-- ===== src/Reconciler/Keeps/Reconciling.antt =====
-- Every branch of the reconciler keeps what its surroundings keep.
use text.Mathlib.TextLemmas.{append-eq-nil_iff}
use carina.Base.{
  String, ℤ, ◌≡◌, ◌≢◌, refl, Bool, not, Option, none, some, Map, lookup, text_at, leb_ℤ, arith,
  eq_iff, ◌<>◌, ◌==◌,
}
use carina.Errors.{Error, Result, ok, err, internal}
use carina.Api.{LogicVolume}
use carina.Config.{contains_string}
use carina.Placement.{Found, found, not_found, failed}
use carina.Volume.{Op, ◌>>=◌, LvInfo}
use carina.Volume.Volumes.{volume_prefix}
use carina.Reconciler.{
  Env, to_uint64, partition_name, volume_manager_type, exclusivity_disk, logic_volume_finalizer,
}
use carina.Reconciler.Retry.{caught, until_max_retry}
use carina.Reconciler.Statuses.{is_code_ok}
use carina.Reconciler.Steps.{
  report, created_lvm, create_lvm, created_raw, create_raw, create_host, create_lv, expanded,
  expand_raw, expand_to, expand_lv, removed, without_finalizer, remove_lv_if_exists,
  reconcile_found, reconcile_got, reconcile,
}
use carina.Reconciler.Keeps.{
  IsConsistent, failed-IsConsistent, created-IsConsistent, expanded-IsConsistent, Keeps,
  Keeps-after, Keeps-if, Keeps-caught, Keeps-give, Keeps-until_max_retry, Surroundings,
}

prefixed : (name : String) → volume_prefix <> name ≢ ""
prefixed name h =
    let first : volume_prefix ≡ "" = (append-eq-nil_iff.0 h).0 in
    ground (arith, first, eq_iff volume_prefix "")

host_prefixed : (name : String) → "host-" <> name ≢ ""
host_prefixed name h =
    let first : ◌≡◌ {A = String} "host-" "" = (append-eq-nil_iff.0 h).0 in
    ground (arith, first, eq_iff "host-" "")

abbrev of_type : LogicVolume → String → Bool
of_type lv volume_type = text_at volume_manager_type lv.annotations == volume_type

module _ {D : Type 0} (env : Env D) (Q : D → Type 0) (around : Surroundings env Q) where
  Keeps-report : (lv : LogicVolume) → IsConsistent lv → Keeps Q (report env lv)
  unfolding report
  Keeps-report lv c =
      Keeps-after Q env.sync_notice_update_capacity (λ done. env.update_status lv)
        around.sync_notice (λ done. around.update_status lv c)

  -- A manager's operation, tried three times, and a report of either end
  Keeps-managed :
      (failure : Error → Op D (Unit {0})) (success f : Op D (Unit {0}))
      → Keeps Q f
      → ((e : Error) → Keeps Q (failure e))
      → Keeps Q success
      → Keeps Q (caught failure success (until_max_retry f 3))
  Keeps-managed failure success f k kf ks =
      Keeps-caught Q failure success (until_max_retry f 3) (Keeps-until_max_retry Q f 3 k) kf ks

  Keeps-created_lvm : (lv : LogicVolume) (r : Result LvInfo) → Keeps Q (created_lvm env lv r)
  unfolding created_lvm
  Keeps-created_lvm lv (ok lv_info) =
      Keeps-report _ (created-IsConsistent lv (volume_prefix <> lv.name) _ _ (prefixed lv.name))
  Keeps-created_lvm lv (err e) =
      Keeps-report _ (created-IsConsistent lv (volume_prefix <> lv.name) _ _ (prefixed lv.name))

  Keeps-create_lvm : (lv : LogicVolume) → IsConsistent lv → Keeps Q (create_lvm env lv)
  unfolding create_lvm
  Keeps-create_lvm lv c =
      Keeps-managed _ _ _
        (around.create_volume lv.name lv.spec.device_group (to_uint64 lv.spec.size) 1)
        (λ e. Keeps-report _ (failed-IsConsistent lv internal e c))
        (record {
          kept = λ w q.
              (Keeps-created_lvm lv
                  (env.volume_info (volume_prefix <> lv.name) lv.spec.device_group w)).kept
                w q;
        })

  Keeps-created_raw : (lv : LogicVolume) (r : Result (Map String)) → Keeps Q (created_raw env lv r)
  unfolding created_raw
  Keeps-created_raw lv (err e) = Keeps-give Q _
  Keeps-created_raw lv (ok properties) =
      Keeps-report _ (created-IsConsistent lv (volume_prefix <> lv.name) _ _ (prefixed lv.name))

  Keeps-create_raw : (lv : LogicVolume) → IsConsistent lv → Keeps Q (create_raw env lv)
  unfolding create_raw
  Keeps-create_raw lv c =
      Keeps-managed _ _ _ (around.create_partition _ _ _)
        (λ e. Keeps-report _ (failed-IsConsistent lv lv.status.code e c))
        (record {
          kept = λ w q. (Keeps-created_raw lv (env.scan_disk lv.spec.device_group w)).kept w q;
        })

  Keeps-create_host : (lv : LogicVolume) → IsConsistent lv → Keeps Q (create_host env lv)
  unfolding create_host
  Keeps-create_host lv c =
      Keeps-managed _ _ _ (around.create_host_volume _ _)
        (λ e. Keeps-report _ (failed-IsConsistent lv internal e c))
        (Keeps-report _ (created-IsConsistent lv ("host-" <> lv.name) 0 0 (host_prefixed lv.name)))

  Keeps-create_lv : (lv : LogicVolume) → IsConsistent lv → Keeps Q (create_lv env lv)
  unfolding create_lv
  Keeps-create_lv lv c = Keeps-if Q (not (is_code_ok lv.status.code)) _ _ (Keeps-give Q (ok tt)) (
      Keeps-if Q (of_type lv "lvm") _ _ (Keeps-create_lvm lv c) (
        Keeps-if Q (of_type lv "raw") _ _ (Keeps-create_raw lv c)
          (Keeps-if Q (of_type lv "host") _ _ (Keeps-create_host lv c) (Keeps-give Q (ok tt)))))

  Keeps-expanded :
      (lv : LogicVolume) (resize : Op D (Unit {0}))
      → IsConsistent lv
      → lv.status.volume_id ≢ ""
      → Keeps Q resize
      → Keeps Q (expanded env lv resize)
  unfolding expanded
  Keeps-expanded lv resize c named k =
      Keeps-managed _ _ _ k (λ e. Keeps-report _ (failed-IsConsistent lv lv.status.code e c))
        (Keeps-report _ (expanded-IsConsistent lv named))

  Keeps-expand_raw :
      (lv : LogicVolume) (o : Option String)
      → IsConsistent lv
      → lv.status.volume_id ≢ ""
      → Keeps Q (expand_raw env lv o)
  unfolding expand_raw
  Keeps-expand_raw lv none c named = Keeps-give Q _
  Keeps-expand_raw lv (some exclusive) c named =
      Keeps-if Q (exclusive == "false") _ _ (Keeps-give Q _) (
        Keeps-expanded lv _ c named (
          around.update_partition (partition_name lv.name) lv.spec.device_group
            (to_uint64 lv.spec.size)))

  Keeps-expand_to :
      (lv : LogicVolume) (o : Option ℤ)
      → lv.status.current_size ≡ o
      → IsConsistent lv
      → Keeps Q (expand_to env lv o)
  unfolding expand_to
  Keeps-expand_to lv none sized c = Keeps-give Q _
  Keeps-expand_to lv (some current_size) sized c =
      Keeps-if Q (leb_ℤ lv.spec.size current_size) _ _ (Keeps-give Q (ok tt)) (
        Keeps-if Q (of_type lv "lvm") _ _
          (Keeps-expanded lv _ c named
            (around.resize_volume lv.name lv.spec.device_group (to_uint64 lv.spec.size) 1))
          (Keeps-if Q (of_type lv "raw") _ _
            (Keeps-expand_raw lv (lookup exclusivity_disk lv.annotations) c named)
            (Keeps-give Q (ok tt))))
    where
      named : lv.status.volume_id ≢ ""
      named h = absurd (ground (arith, sized, c.uncreated h))

  Keeps-removed :
      (lv : LogicVolume) (delete : Op D (Unit {0}))
      → IsConsistent lv
      → Keeps Q delete
      → Keeps Q (removed env lv delete)
  unfolding removed
  Keeps-removed lv delete c k =
      Keeps-after Q (until_max_retry delete 3)
        (λ done. env.sync_notice_update_capacity >>= λ done'. env.patch (without_finalizer env lv))
        (Keeps-until_max_retry Q delete 3 k)
        (λ done.
          Keeps-after Q env.sync_notice_update_capacity
            (λ done'. env.patch (without_finalizer env lv)) around.sync_notice
            (λ done'. around.patch (without_finalizer env lv) stripped))
    where
      stripped : IsConsistent (without_finalizer env lv)
      stripped =
          unfold without_finalizer in record { uncreated = c.uncreated; succeeded = c.succeeded }

  Keeps-remove : (lv : LogicVolume) → IsConsistent lv → Keeps Q (remove_lv_if_exists env lv)
  unfolding remove_lv_if_exists
  Keeps-remove lv c =
      Keeps-if Q (of_type lv "lvm") _ _
        (Keeps-removed lv _ c (around.delete_volume lv.name lv.spec.device_group))
        (Keeps-if Q (of_type lv "raw") _ _
          (Keeps-removed lv _ c
            (around.delete_partition (partition_name lv.name) lv.spec.device_group))
          (Keeps-if Q (of_type lv "host") _ _
            (Keeps-removed lv _ c (around.delete_host_volume lv.name lv.spec.device_group))
            (Keeps-give Q (ok tt))))

  Keeps-reconcile_found : (lv : LogicVolume) → IsConsistent lv → Keeps Q (reconcile_found env lv)
  unfolding reconcile_found expand_lv
  Keeps-reconcile_found lv c =
      Keeps-if Q (not lv.deleting) _ _
        (Keeps-if Q (lv.status.volume_id == "") _ _ (Keeps-create_lv lv c)
          (Keeps-expand_to lv lv.status.current_size refl c))
        (Keeps-if Q (not (contains_string lv.finalizers logic_volume_finalizer)) _ _
          (Keeps-give Q (ok tt)) (Keeps-remove lv c))

  got : (w : D) (g : Found LogicVolume) → env.get w ≡ g → Q w → Q (reconcile_got env g w).1
  unfolding reconcile_got
  got w (found lv) known q = (Keeps-reconcile_found lv (around.stored w lv known q)).kept w q
  got w (not_found e) known q = q
  got w (failed e) known q = q

  -- Whatever the managers answer, and however often they fail, a reconciliation leaves the stored
  -- logic volumes consistent: one without an id has no size, and one whose status says "Success" has
  -- the code OK and no message. `Q` is any such account of the world, which the managers keep and
  -- which the writes of consistent volumes keep.
  pub reconcile-Keeps : Keeps Q (reconcile env)
  unfolding reconcile
  reconcile-Keeps = record { kept = λ w q. got w (env.get w) refl q }
