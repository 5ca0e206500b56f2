-- ===== src/Csi/Statuses/Expanding.antt =====
-- The errors of ControllerExpandVolume.
use carina.Base.{String, ℤ, ltb_ℤ, sub64, shr30, leb_ℤ, shl30, Option, none, some, ◌==◌}
use carina.Errors.{Result, ok, err}
use carina.Api.{LogicVolume}
use carina.Config.{check_host_device_group}
use carina.Locks.{StringSet}
use carina.Locks.Scope.{guarded_result}
use carina.Service.{Timed}
use carina.Service.Expand.{update_spec_size, update_current_size}
use carina.Service.Getter.{get_by_volume_id}
use carina.Volume.{Op}
use carina.Csi.{Services, Controller}
use carina.Csi.Bcache.{looked_up}
use carina.Csi.Expand.{
  ExpandVolumeRequest, controller_expand_volume, expand_body, expand_host, expand_device, filled,
  grown, expansion, fill_current_size, internally, shared_disk,
}
use carina.Csi.Statuses.{
  Typed, TypedOp, TypedOp-after, internal-Typed, request_size-Typed, looked_up-Typed, if-Typed,
}
use carina.Csi.Ends.{
  IsStatus, Anything, Ends, EndsIn-give, EndsIn-read, EndsIn-if, Ends-if, internal_error-IsStatus,
  as_returned-Ends,
}

module _ {W : Type 0} (s : Services W) where
  -- The steps of ControllerExpandVolume
  filled-Typed :
      (id : String) (size : ℤ) (current : Option ℤ) → TypedOp (fill_current_size s id size current)
  unfolding fill_current_size
  filled-Typed id size (some current) = record { ends = λ t. tt }
  filled-Typed id size none = record { ends = λ t. done _ }
    where
      done : (r : Result (Unit {0})) → Typed (filled s size r)
      done (err e) = internal_error-IsStatus e
      done (ok d) = tt

  internally-Typed : (op : Op (Timed W) (Unit {0})) → TypedOp (internally s op)
  unfolding internally
  internally-Typed op = record { ends = λ t. internal-Typed (op t).0 }

  expand_host-Typed :
      (id : String) (request_gb current_gb : ℤ) → TypedOp (expand_host s id request_gb current_gb)
  unfolding expand_host
  expand_host-Typed id request_gb current_gb =
      TypedOp-after _ _ (internally-Typed (update_spec_size s.client id (shl30 request_gb)))
        (λ done.
          TypedOp-after _ _ (internally-Typed (update_current_size s.client id (shl30 request_gb)))
            (λ done. EndsIn-give IsStatus Anything (ok (expansion current_gb none)) tt))

  expand_device-Typed :
      (id : String) (lv : LogicVolume) (request_gb current_gb : ℤ)
      → TypedOp (expand_device s id lv request_gb current_gb)
  unfolding expand_device grown
  expand_device-Typed id lv request_gb current_gb =
      TypedOp-after _ _ (EndsIn-read IsStatus Anything _ (λ t. internal-Typed _)) (λ capacity.
        TypedOp-after _ _
          (EndsIn-give IsStatus Anything _
            (Ends-if IsStatus Anything (ltb_ℤ capacity (sub64 request_gb current_gb)) _ _ tt tt))
          (λ done.
            TypedOp-after (grown s id request_gb) _ (record { ends = λ t. as_returned-Ends _ })
              (λ done. EndsIn-give IsStatus Anything (ok _) tt)))

  expand_body-Typed : (r : ExpandVolumeRequest) → TypedOp (expand_body s r)
  unfolding expand_body
  expand_body-Typed r =
      TypedOp-after _ _
        (EndsIn-read IsStatus Anything
          (λ t. looked_up s r.volume_id (get_by_volume_id s.client r.volume_id t.1))
          (λ t. looked_up-Typed s r.volume_id _))
        (λ lv.
          TypedOp-after _ _
            (EndsIn-give IsStatus Anything _
              (Ends-if IsStatus Anything (shared_disk s lv) _ _ tt tt))
            (λ done.
              TypedOp-after _ _
                (EndsIn-give IsStatus Anything _
                  (request_size-Typed r.required_bytes r.limit_bytes))
                (λ gb.
                  TypedOp-after _ _ (filled-Typed r.volume_id lv.spec.size lv.status.current_size)
                    (λ size.
                      EndsIn-if IsStatus Anything (leb_ℤ gb (shr30 size)) _ _
                        (EndsIn-give IsStatus Anything (ok _) tt)
                        (EndsIn-if IsStatus Anything
                          (check_host_device_group s.selectors lv.spec.device_group) _ _
                          (expand_host-Typed r.volume_id gb _)
                          (expand_device-Typed r.volume_id lv gb _))))))

  module _ {S : Type 0} (sets : StringSet S) where
    -- An error that ControllerExpandVolume returns is a status, whatever its clients return.
    pub expand_volume-Typed :
        (r : ExpandVolumeRequest) (c : Controller S W)
        → Ends IsStatus Anything (controller_expand_volume s sets r c).0
    unfolding controller_expand_volume
    expand_volume-Typed r c = if-Typed s (r.volume_id == "") _ _ tt (
        guarded_result sets r.volume_id Typed (err _) _ c.0 c.1 tt ((expand_body-Typed r).ends c.1))
