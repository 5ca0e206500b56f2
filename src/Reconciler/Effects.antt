-- ===== src/Reconciler/Effects.antt =====
-- What a reconciliation does to a volume that needs nothing, and after a failure.
use carina.Base.{
  String, ℤ, ◌≤ℤ◌, leb_ℤ, ◌≡◌, ◌≢◌, ◌↔◌, refl, true, false, none, some, List, [], ◌∷◌, In, text_at,
  arith, eq_iff, ◌==◌, ◌⊎◌, inl, inr,
}
use carina.Errors.{Code, code_ok, Error, plain, status, panic, message, ok, err}
use carina.Api.{LogicVolume, LogicVolumeStatus}
use carina.Volume.{Op}
use carina.Volume.Volumes.{resource_exhausted_text}
use carina.Reconciler.{Env, slice_remove_string, volume_manager_type, partition_name, to_uint64}
use carina.Reconciler.Retry.{caught, until_max_retry}
use carina.Reconciler.Statuses.{is_code_ok, with_status, failed_status, failure_code}
use carina.Reconciler.Steps.{report, create_lv, create_raw, expand_lv, reconcile_found}

-- A volume whose creation has failed, or one that is as large as it should be
abbrev pub IsSettled : LogicVolume → Type 0
IsSettled lv =
    (lv.status.volume_id ≡ "") × (lv.status.code ≢ code_ok)
    ⊎ (lv.status.volume_id ≢ "")
      × ((lv.status.current_size ≡ none)
          ⊎ ((size : ℤ) × (lv.status.current_size ≡ some size) × (lv.spec.size ≤ℤ size)))

is_code_ok-only : (c : Code) → c ≢ code_ok → is_code_ok c ≡ false
unfolding is_code_ok
is_code_ok-only c h = ground (arith, h)

-- An error that is no panic is handled where the operation ends.
caught-failure :
    {D : Type 0} (failure : Error → Op D (Unit {0})) (success f : Op D (Unit {0})) (e : Error)
    (w v : D)
    → e ≢ panic
    → f w ≡ (err e, v)
    → caught failure success f w ≡ failure e v
unfolding caught
caught-failure failure success f (plain s) w v no_panic h = rw h
caught-failure failure success f (status c s) w v no_panic h = rw h
caught-failure failure success f panic w v no_panic h = absurd (no_panic refl)

raw_created :
    {D : Type 0} (env : Env D) (lv : LogicVolume)
    → lv.deleting ≡ false
    → lv.status.volume_id ≡ ""
    → is_code_ok lv.status.code ≡ true
    → (text_at volume_manager_type lv.annotations == "lvm") ≡ false
    → (text_at volume_manager_type lv.annotations == "raw") ≡ true
    → reconcile_found env lv ≡ create_raw env lv
unfolding reconcile_found create_lv
raw_created env lv kept empty fine not_lvm raw =
    rw (kept, (eq_iff lv.status.volume_id "").1 empty, fine, not_lvm, raw) refl

still_ok :
    (c : Code) (e : Error)
    → c ≡ code_ok
    → message e ≢ resource_exhausted_text
    → is_code_ok (failure_code c e) ≡ true
unfolding failure_code is_code_ok
still_ok c e fine other_error =
    ground (arith, fine, other_error, eq_iff (message e) resource_exhausted_text)

module _ {D : Type 0} (env : Env D) (lv : LogicVolume) (kept : lv.deleting ≡ false) where
  other : lv.status.volume_id ≢ "" → (lv.status.volume_id == "") ≡ false
  other named = ground (arith, named, eq_iff lv.status.volume_id "")

  enough : (size : ℤ) → lv.spec.size ≤ℤ size → leb_ℤ lv.spec.size size ≡ true
  enough size large = ground (arith, large)

  -- A settled volume that is not being deleted is left alone: nothing is called, and the world stays
  -- as it is.
  pub settled_idle : IsSettled lv → (w : D) → reconcile_found env lv w ≡ (ok tt, w)
  unfolding reconcile_found create_lv expand_lv
  settled_idle (inl (empty, failure)) w =
      rw (kept, (eq_iff lv.status.volume_id "").1 empty, is_code_ok-only lv.status.code failure)
        refl
  settled_idle (inr (named, inl unsized)) w = rw (kept, other named, unsized) refl
  settled_idle (inr (named, inr (size, sized, large))) w =
      rw (kept, other named, sized, enough size large) refl

  -- When the partition of a raw volume with the code OK could not be made in three tries, and the
  -- last error is no panic and not the one for lack of space, the creation writes a status into the
  -- volume with which the next reconciliation creates it again.
  pub raw_failure_retried :
      (e : Error) (w v : D)
      → lv.status.volume_id ≡ ""
      → lv.status.code ≡ code_ok
      → text_at volume_manager_type lv.annotations ≡ "raw"
      → message e ≢ resource_exhausted_text
      → e ≢ panic
      → until_max_retry
          (env.create_partition
            (partition_name lv.name)
            lv.spec.device_group
            (to_uint64 lv.spec.size))
          3
          w
        ≡ (err e, v)
      → (recorded : LogicVolumeStatus) × (create_raw env lv w
          ≡ report env (with_status lv recorded) v)
        × (reconcile_found env (with_status lv recorded) ≡ create_raw env (with_status lv recorded))
  unfolding failed_status create_raw
  raw_failure_retried e w v empty fine raw other_error no_panic failure = (
    failed_status lv.status.code e lv.status,
    caught-failure _ _ _ e w v no_panic failure,
    raw_created env (with_status lv (failed_status lv.status.code e lv.status)) kept empty
        (still_ok lv.status.code e fine other_error)
        (ground (
          arith,
          raw,
          eq_iff (text_at volume_manager_type lv.annotations) "lvm",
          eq_iff "raw" "lvm",
        ))
        ((eq_iff (text_at volume_manager_type lv.annotations) "raw").1 raw),
  )

-- In the result of SliceRemoveString stand exactly the items of the slice other than the text.
pub slice_remove_string_lem :
    (slice : List String) (s x : String) → In x (slice_remove_string slice s) ↔ In x slice × (x ≢ s)
unfolding slice_remove_string
slice_remove_string_lem [] s x = ground arith
slice_remove_string_lem (item ∷ slice) s x =
    ground (arith, slice_remove_string_lem slice s x, eq_iff item s)
