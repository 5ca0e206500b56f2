-- ===== src/Csi/Locking.antt =====
-- The locks of the controller's calls.
use carina.Base.{
  String, ◌≡◌, ◌≢◌, refl, Bool, true, false, List, [], ◌∷◌, to_lower, arith, eq_iff, if◌then◌else◌,
  ◌==◌,
}
use carina.Errors.{Result, err}
use carina.Locks.{StringSet, held}
use carina.Locks.Scope.{guarded, guarded_neutral, guarded_busy}
use carina.Service.{Timed}
use carina.Volume.{Op}
use carina.Csi.{CreateVolumeRequest, VolumeCapability, Services, Controller, if_empty}
use carina.Csi.Create.{create_volume}
use carina.Csi.Expand.{ExpandVolumeRequest, controller_expand_volume, expand_busy}

module _ {S W : Type 0} (s : Services W) (sets : StringSet S) where
  -- The same names are locked after the call as before it.
  pub record IsNeutral {A : Type 0} (c : Controller S W) (x : Result A × Controller S W)
      : Type 0 where
    pub kept : (id : String) → held sets x.1.0 id ≡ held sets c.0 id

  refused : {A : Type 0} (c : Controller S W) (r : Result A) → IsNeutral c (r, c)
  refused c r = record { kept = λ id. refl }

  IsNeutral-if :
      {A : Type 0} (b : Bool) (x y : Result A × Controller S W) (c : Controller S W)
      → IsNeutral c x
      → IsNeutral c y
      → IsNeutral c (if b then x else y)
  IsNeutral-if true x y c hx hy = hx
  IsNeutral-if false x y c hx hy = hy

  IsNeutral-if_empty :
      {A : Type 0} (capabilities : List VolumeCapability) (x y : Result A × Controller S W)
      (c : Controller S W)
      → IsNeutral c x
      → IsNeutral c y
      → IsNeutral c (if_empty capabilities x y)
  IsNeutral-if_empty [] x y c hx hy = hx
  IsNeutral-if_empty (_ ∷ _) x y c hx hy = hy

  guarded-IsNeutral :
      {A : Type 0} (lock : String) (refusal : Result A) (body : Op (Timed W) A) (c : Controller S W)
      → IsNeutral c (guarded sets lock refusal body c)
  guarded-IsNeutral lock refusal body c = record {
    kept = guarded_neutral sets lock refusal body c.0 c.1;
  }

  -- However CreateVolume ends, the same volumes are locked after it as before it.
  pub create_volume-IsNeutral :
      (r : CreateVolumeRequest) (c : Controller S W) → IsNeutral c (create_volume s sets r c)
  unfolding create_volume
  create_volume-IsNeutral r c = IsNeutral-if (r.name == "") _ _ c (refused c _) (
      IsNeutral-if r.content_source _ _ c (refused c _) (
        IsNeutral-if_empty r.volume_capabilities _ _ c (refused c _)
          (guarded-IsNeutral (to_lower r.name) _ _ c)))

  -- However ControllerExpandVolume ends, the same volumes are locked after it as before it.
  pub expand_volume-IsNeutral :
      (r : ExpandVolumeRequest) (c : Controller S W)
      → IsNeutral c (controller_expand_volume s sets r c)
  unfolding controller_expand_volume
  expand_volume-IsNeutral r c =
      IsNeutral-if (r.volume_id == "") _ _ c (refused c _) (guarded-IsNeutral r.volume_id _ _ c)

  -- While the volume is locked, ControllerExpandVolume changes nothing and answers Aborted.
  pub expand_volume_refused :
      (r : ExpandVolumeRequest) (c : Controller S W)
      → r.volume_id ≢ ""
      → held sets c.0 r.volume_id ≡ true
      → controller_expand_volume s sets r c ≡ (err (expand_busy s r.volume_id), c)
  unfolding controller_expand_volume
  expand_volume_refused r c named taken =
      rw (given r.volume_id named) (guarded_busy sets r.volume_id _ _ c.0 c.1 taken)
    where
      given : (id : String) → id ≢ "" → (id == "") ≡ false
      given id h = ground (arith, h, eq_iff id "")
