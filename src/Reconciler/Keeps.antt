-- ===== src/Reconciler/Keeps.antt =====
-- What holds of the logic volumes that the reconciler writes.
pub mod Reconciling
use carina.Base.{
  String, ℕ, zero, suc, ℤ, ◌≡◌, ◌≢◌, refl, sym, ◌∙◌, Bool, true, false, Option, none, some, Map,
  arith, eq_iff, ◌<>◌, ◌==◌, if◌then◌else◌,
}
use carina.Errors.{Code, code_ok, internal, Error, plain, status, panic, Result, ok, err}
use carina.Api.{LogicVolume, LogicVolumeStatus}
use carina.Placement.{Found, found, not_found, failed}
use carina.Volume.{Op, ◌>>=◌, give, continue}
use carina.Volume.Volumes.{volume_prefix}
use carina.Reconciler.{Env}
use carina.Reconciler.Retry.{caught, handled, tries, until_max_retry}
use carina.Reconciler.Statuses.{with_status, failed_status, created_status, expanded_status}
use carina.Reconciler.Steps.{create_lv, expand_lv, remove_lv_if_exists, reconcile_found, reconcile}

-- A volume without an id has no size yet, and one whose status says "Success" has the code OK and no
-- message.
pub record IsConsistent (lv : LogicVolume) : Type 0 where
  pub uncreated : lv.status.volume_id ≡ "" → lv.status.current_size ≡ none
  pub succeeded :
      lv.status.status ≡ "Success" → (lv.status.code ≡ code_ok) × (lv.status.message ≡ "")

pub failed-IsConsistent :
    (lv : LogicVolume) (otherwise : Code) (e : Error)
    → IsConsistent lv
    → IsConsistent (with_status lv (failed_status otherwise e lv.status))
unfolding failed_status
failed-IsConsistent lv otherwise e c = record {
  uncreated = c.uncreated;
  succeeded = λ h. absurd (ground (arith, h, eq_iff "Failed" "Success"));
}

pub created-IsConsistent :
    (lv : LogicVolume) (volume_id : String) (major minor : ℕ)
    → volume_id ≢ ""
    → IsConsistent (with_status lv (created_status volume_id lv.spec.size major minor))
unfolding created_status
created-IsConsistent lv volume_id major minor named = record {
  uncreated = λ h. absurd (named h);
  succeeded = λ h. (refl, refl);
}

pub expanded-IsConsistent :
    (lv : LogicVolume)
    → lv.status.volume_id ≢ ""
    → IsConsistent (with_status lv (expanded_status lv.spec.size lv.status))
unfolding expanded_status
expanded-IsConsistent lv named = record {
  uncreated = λ h. absurd (named h);
  succeeded = λ h. (refl, refl);
}

module _ {D : Type 0} (Q : D → Type 0) where
  -- The operation leaves a world for which `Q` holds, if it held before.
  pub record Keeps {A : Type 0} (op : Op D A) : Type 0 where
    pub kept : (w : D) → Q w → Q (op w).1

  pub Keeps-give : {A : Type 0} (r : Result A) → Keeps (give r)
  Keeps-give r = record { kept = λ w q. q }

  continued :
      {A B : Type 0} (r : Result A × D) (next : A → Op D B)
      → Q r.1
      → ((a : A) → Keeps (next a))
      → Q (continue r next).1
  continued (err e, w) next q later = q
  continued (ok a, w) next q later = (later a).kept w q

  pub Keeps-after :
      {A B : Type 0} (op : Op D A) (next : A → Op D B)
      → Keeps op
      → ((a : A) → Keeps (next a))
      → Keeps (op >>= next)
  Keeps-after op next first later = record {
    kept = λ w q. continued (op w) next (first.kept w q) later;
  }

  pub Keeps-if :
      {A : Type 0} (b : Bool) (x y : Op D A) → Keeps x → Keeps y → Keeps (if b then x else y)
  Keeps-if true x y kx ky = kx
  Keeps-if false x y kx ky = ky

  Keeps-handled :
      (failure : Error → Op D (Unit {0})) (success : Op D (Unit {0})) (r : Result (Unit {0}) × D)
      → ((e : Error) → Keeps (failure e))
      → Keeps success
      → Q r.1
      → Q (handled failure success r).1
  Keeps-handled failure success (ok u, w) kf ks q = ks.kept w q
  Keeps-handled failure success (err (plain s), w) kf ks q = (kf (plain s)).kept w q
  Keeps-handled failure success (err (status c s), w) kf ks q = (kf (status c s)).kept w q
  Keeps-handled failure success (err panic, w) kf ks q = q

  pub Keeps-caught :
      (failure : Error → Op D (Unit {0})) (success f : Op D (Unit {0}))
      → Keeps f
      → ((e : Error) → Keeps (failure e))
      → Keeps success
      → Keeps (caught failure success f)
  unfolding caught
  Keeps-caught failure success f k kf ks = record {
    kept = λ w q. Keeps-handled failure success (f w) kf ks (k.kept w q);
  }

  Keeps-tries :
      (f : Op D (Unit {0})) (n : ℕ) (last : Result (Unit {0})) → Keeps f → Keeps (tries f n last)
  unfolding tries
  Keeps-tries f zero last k = Keeps-give last
  Keeps-tries f (suc n) last k =
      Keeps-caught (λ e. tries f n (err e)) (give (ok tt)) f k (λ e. Keeps-tries f n (err e) k)
        (Keeps-give (ok tt))

  pub Keeps-until_max_retry : (f : Op D (Unit {0})) (n : ℕ) → Keeps f → Keeps (until_max_retry f n)
  unfolding until_max_retry
  Keeps-until_max_retry f n k = Keeps-tries f n (ok tt) k

-- What the managers and the API server do to the world, seen through `Q`: the managers and the
-- notice keep it, and so does the write of a logic volume that is consistent.
pub record Surroundings {D : Type 0} (env : Env D) (Q : D → Type 0) : Type 0 where
  pub stored : (w : D) (lv : LogicVolume) → env.get w ≡ found lv → Q w → IsConsistent lv
  pub update_status : (lv : LogicVolume) → IsConsistent lv → Keeps Q (env.update_status lv)
  pub patch : (lv : LogicVolume) → IsConsistent lv → Keeps Q (env.patch lv)
  pub sync_notice : Keeps Q env.sync_notice_update_capacity
  pub create_volume :
      (lv group : String) (size ratio : ℕ) → Keeps Q (env.create_volume lv group size ratio)
  pub resize_volume :
      (lv group : String) (size ratio : ℕ) → Keeps Q (env.resize_volume lv group size ratio)
  pub delete_volume : (lv group : String) → Keeps Q (env.delete_volume lv group)
  pub create_partition :
      (name group : String) (size : ℕ) → Keeps Q (env.create_partition name group size)
  pub update_partition :
      (name group : String) (size : ℕ) → Keeps Q (env.update_partition name group size)
  pub delete_partition : (name group : String) → Keeps Q (env.delete_partition name group)
  pub create_host_volume : (lv group : String) → Keeps Q (env.create_host_volume lv group)
  pub delete_host_volume : (lv group : String) → Keeps Q (env.delete_host_volume lv group)
