-- ===== src/Csi/Expand/Grown.antt =====
-- What ControllerExpandVolume has done when it succeeds.
use carina.Base.{
  String, ℤ, ◌≤ℤ◌, ◌≡◌, refl, ap, subst, Bool, true, false, none, sub64, shl30, ltb_ℤ, not_ltb_ℤ→le,
  if◌then◌else◌,
}
use carina.Errors.{as_status, Error, status, internal, Result, ok, err}
use carina.Api.{LogicVolume}
use carina.Placement.Capacity.{get_capacity_by_node_name}
use carina.Service.{Timed}
use carina.Service.Expand.{expand_volume, update_spec_size, update_current_size}
use carina.Service.Expand.Expands.{Expanded, expand_volume-Expanded}
use carina.Volume.{read, give}
use carina.Volume.Steps.{continue-ok}
use carina.Csi.{Services, fails_with, internal_error, as_returned}
use carina.Csi.Ends.{AnyError, Ends, EndsIn-then, EndsIn-give}
use carina.Csi.Expand.{Expansion, expansion, expand_host, expand_device, internally, grown, enough}

fails_with-ok :
    {A : Type 0} (reason : Error → Error) (r : Result A) {a : A}
    → fails_with reason r ≡ ok a
    → r ≡ ok a
fails_with-ok reason (err e) h = cc h
fails_with-ok reason (ok a) h = h

enough-ok :
    {W : Type 0} (s : Services W) (wanted current capacity : ℤ)
    → enough s wanted current capacity ≡ ok tt
    → sub64 wanted current ≤ℤ capacity
enough-ok s wanted current capacity h = tested (ltb_ℤ capacity (sub64 wanted current)) refl h
  where
    tested :
        (b : Bool)
        → ltb_ℤ capacity (sub64 wanted current) ≡ b
        → ◌≡◌ {A = Result (Unit {0})}
            (if b then err (status internal "not enough space") else ok tt)
            (ok tt)
        → sub64 wanted current ≤ℤ capacity
    tested true e g = cc g
    tested false e g = not_ltb_ℤ→le capacity (sub64 wanted current) e

told_of :
    (given answer : Expansion) → ok given ≡ ok answer → answer.capacity_bytes ≡ given.capacity_bytes
told_of given answer h = cc h

module _ {W : Type 0} (s : Services W) where
  -- The group had room for the growth, the volume has grown, and the answer has the new size.
  pub record Grown (volume_id : String) (lv : LogicVolume) (request_gb current_gb : ℤ) (t : Timed W)
      (answer : Expansion) : Type 0 where
    pub capacity : ℤ
    pub known :
        get_capacity_by_node_name (s.cluster t.1) lv.spec.node_name lv.spec.device_group
        ≡ ok capacity
    pub room : sub64 request_gb current_gb ≤ℤ capacity
    pub grew : Expanded s.client volume_id request_gb t.0 t.1
    pub told : answer.capacity_bytes ≡ shl30 request_gb

  grown-Expanded :
      (volume_id : String) (request_gb : ℤ) (t : Timed W) {end : Timed W}
      → grown s volume_id request_gb t ≡ (ok tt, end)
      → Expanded s.client volume_id request_gb t.0 t.1
  unfolding grown as_returned
  grown-Expanded volume_id request_gb (left, w) h =
      expand_volume-Expanded s.client volume_id request_gb left w _ (
        ap (λ r. (r, (expand_volume s.client volume_id request_gb (left, w)).1))
          (fails_with-ok as_status _ (ap (λ p. p.0) h)))

  -- If the expansion of a volume that is no directory succeeds, its group had at least the
  -- difference in GiB, the volume has grown as ExpandVolume promises, and the answer's capacity is
  -- the size asked for.
  pub expand_device-Grown :
      (volume_id : String) (lv : LogicVolume) (request_gb current_gb : ℤ) (t end : Timed W)
      (answer : Expansion)
      → expand_device s volume_id lv request_gb current_gb t ≡ (ok answer, end)
      → Grown volume_id lv request_gb current_gb t answer
  unfolding expand_device
  expand_device-Grown volume_id lv request_gb current_gb t end answer h =
      let first =
        continue-ok
          (read
            (λ t.
              fails_with internal_error
                (get_capacity_by_node_name (s.cluster t.1) lv.spec.node_name lv.spec.device_group))
            t)
          _ h in
      let second = continue-ok (give (enough s request_gb current_gb first.0) t) _ first.2 in
      let third = continue-ok (grown s volume_id request_gb t) _ second.2 in
      record {
        capacity = first.0;
        known = fails_with-ok internal_error _ (ap (λ p. p.0) first.1);
        room = enough-ok s request_gb current_gb first.0 (ap (λ p. p.0) second.1);
        grew = grown-Expanded volume_id request_gb t third.1;
        told = told_of _ answer (ap (λ p. p.0) third.2);
      }

  -- The expansion of a directory to a new size, when it succeeds, is answered with the old size.
  pub expand_host_old_size :
      (volume_id : String) (request_gb current_gb : ℤ) (t : Timed W) (answer : Expansion)
      → (expand_host s volume_id request_gb current_gb t).0 ≡ ok answer
      → answer.capacity_bytes ≡ shl30 current_gb
  unfolding expand_host
  expand_host_old_size volume_id request_gb current_gb t answer h =
      subst (Ends AnyError (λ a. a.capacity_bytes ≡ shl30 current_gb)) h (
        (EndsIn-then _ (internally s (update_spec_size s.client volume_id (shl30 request_gb))) _
            (λ done.
              EndsIn-then _
                (internally s (update_current_size s.client volume_id (shl30 request_gb))) _
                (λ done. EndsIn-give AnyError _ (ok (expansion current_gb none)) refl))).ends
          t)
