-- ===== src/Volume/Space.antt =====
-- The space that the volume operations keep free in a device group.
use carina.Base.{
  String, ℕ, ◌+◌, ◌-◌, ◌^◌, ◌≤◌, ◌<◌, ◌≡◌, ◌≢◌, refl, ap, ◌∙◌, Bool, true, false, none, some, ltb,
  nat_eq, sub_u64, sub_u64-le, sub_u64-lt, add_u64, arith, eq_iff, ◌==◌, ◌<>◌, if◌then◌else◌,
}
use carina.Errors.{Error, plain, Result, ok, err}
use carina.Api.{VgGroup, PvInfo}
use carina.Locks.{StringSet, held}
use carina.Volume.{
  Op, Lvm2, Bcache, LvInfo, LocalVolume, volume_mutex, reported, locked, ◌>>◌, give, continue,
}
use carina.Volume.Volumes.{
  reserved, volume_prefix, exhausted, in_group, group_info, create_volume, resize_pool,
  resize_volume,
}
use carina.Volume.Disks.{default_reserved_space, default_edge_space, remove_disk_in_vg}
use carina.Volume.Locking.{locked_free}

-- What a call returns, and the world it leaves
abbrev pub outcome : {S W A : Type 0} → Result A × LocalVolume S W → Result A × W
outcome (r, v) = (r, v.world)

outcome-locked :
    {S W A : Type 0} (sets : StringSet S) (lv : Lvm2 W) (bcache : Bcache W) (refusal : Result A)
    (body : Op W A) (v : LocalVolume S W)
    → held sets v.mutex volume_mutex ≡ false
    → outcome (locked sets refusal body v) ≡ body v.world
outcome-locked sets lv bcache refusal body v free =
    ap outcome (locked_free sets lv bcache refusal body v free)

-- A test before code is run is a test of what it returns.
three_ways :
    {W : Type 0} (same short : Bool) (e : Error) (op : Op W (Unit {0})) (w : W)
    {r : Result (Unit {0}) × W}
    → op w ≡ r
    → (if same then give (ok tt) else if short then give (err e) else op) w
      ≡ (if same then (ok tt, w) else if short then (err e, w) else r)
three_ways true short e op w h = refl
three_ways false true e op w h = refl
three_ways false false e op w h = h

four_ways :
    {W : Type 0} (last used short : Bool) (e e' : Error) (op op' : Op W (Unit {0})) (w : W)
    → (if last then if used then give (err e) else op else if short then give (err e') else op') w
      ≡ (if last then if used then (err e, w) else op w else if short then (err e', w) else op' w)
four_ways true true short e e' op op' w = refl
four_ways true false short e e' op op' w = refl
four_ways false used true e e' op op' w = refl
four_ways false used false e e' op op' w = refl

then_run :
    {W : Type 0} (op next : Op W (Unit {0})) (w : W) → op w ≡ (ok tt, w) → (op >> next) w ≡ next w
then_run op next w h = ap (λ r. continue r (λ done. next)) h

room : (f d : ℕ) → d ≤ f → ltb (f - d) reserved ≡ ltb f (d + reserved)
room f d fits = ground (arith, fits)

-- `VGFree - DefaultReservedSpace + DefaultEdgeSpace`
less_reserve : ℕ → ℕ
less_reserve f = add_u64 (sub_u64 f default_reserved_space) default_edge_space

less_reserve-enough :
    (f p : ℕ) → reserved ≤ f → f < 2 ^ 64 → ltb (less_reserve f) p ≡ ltb f (p + reserved)
unfolding less_reserve add_u64 sub_u64
less_reserve-enough f p enough bound = ground (arith, enough, bound)

less_reserve-wraps : (f p : ℕ) → f < reserved → p ≤ 2 ^ 63 → ltb (less_reserve f) p ≡ false
unfolding less_reserve add_u64 sub_u64
less_reserve-wraps f p little bound = ground (arith, little, bound)

module _ {S W : Type 0} (sets : StringSet S) (lv : Lvm2 W) (bcache : Bcache W) (v : LocalVolume S W)
    (lv_name vg_name : String) (size : ℕ) (vg_info : VgGroup)
    (free : held sets v.mutex volume_mutex ≡ false) where
  -- For a request of at most the free space of its group, a call that gets the lock refuses it when
  -- less than 9 GiB would be left, also if the volume exists; otherwise it leaves an existing volume
  -- of the group as it is, and creates one that does not exist with the driver's result.
  pub create_keeps_reserve :
      group_info lv vg_name v.world ≡ ok vg_info
      → size ≤ vg_info.vg_free
      → vg_info.vg_free < 2 ^ 64
      → outcome (create_volume lv bcache sets lv_name vg_name size v) ≡ (
          if ltb vg_info.vg_free (size + reserved)
          then (err exhausted, v.world)
          else if in_group vg_name
              (reported (lv.lv_display (volume_prefix <> lv_name) vg_name v.world))
          then (ok tt, v.world)
          else lv.lv_create_from_vg (volume_prefix <> lv_name) vg_name size v.world)
  unfolding create_volume
  create_keeps_reserve known fits bound =
      outcome-locked sets lv bcache _ _ v free
      ∙ rw (known, sub_u64-le vg_info.vg_free size fits bound) (ground arith)

  -- A request of more than the free space, up to 2^63 bytes, is never refused for lack of space: the
  -- unsigned difference wraps around, and the volume is handed to the driver unless it exists.
  pub create_oversized :
      group_info lv vg_name v.world ≡ ok vg_info
      → vg_info.vg_free < size
      → size ≤ 2 ^ 63
      → outcome (create_volume lv bcache sets lv_name vg_name size v) ≡ (
          if in_group vg_name (reported (lv.lv_display (volume_prefix <> lv_name) vg_name v.world))
          then (ok tt, v.world)
          else lv.lv_create_from_vg (volume_prefix <> lv_name) vg_name size v.world)
  unfolding create_volume
  create_oversized known more bound =
      outcome-locked sets lv bcache _ _ v free
      ∙ rw (known, sub_u64-lt vg_info.vg_free size more (omega (arith, bound)))
          (ground (arith, more, bound))

  -- A volume that is in no thin pool and grows by at most the free space of its group is resized,
  -- with the driver's result, when at least 9 GiB are left; it is left as it is when it has the size
  -- already.
  pub resize_keeps_reserve :
      (ratio : ℕ) (lv_info : LvInfo)
      → group_info lv vg_name v.world ≡ ok vg_info
      → lv.lv_display (volume_prefix <> lv_name) vg_name v.world ≡ ok (some lv_info)
      → reported (lv.lv_display lv_info.pool_lv vg_name v.world) ≡ none
      → lv_info.lv_size ≤ size
      → size - lv_info.lv_size ≤ vg_info.vg_free
      → size < 2 ^ 64
      → vg_info.vg_free < 2 ^ 64
      → outcome (resize_volume lv bcache sets lv_name vg_name size ratio v) ≡ (
          if nat_eq lv_info.lv_size size
          then (ok tt, v.world)
          else if ltb vg_info.vg_free ((size - lv_info.lv_size) + reserved)
          then (err exhausted, v.world)
          else lv.lv_resize (volume_prefix <> lv_name) vg_name size v.world)
  unfolding resize_volume
  resize_keeps_reserve ratio lv_info known found no_pool grows fits size_bound bound =
      outcome-locked sets lv bcache _ _ v free
      ∙ rw
          (
            known,
            found,
            sub_u64-le size lv_info.lv_size grows size_bound,
            sub_u64-le vg_info.vg_free (size - lv_info.lv_size) fits bound,
            room vg_info.vg_free (size - lv_info.lv_size) fits,
          )
          (three_ways (nat_eq lv_info.lv_size size)
            (ltb vg_info.vg_free ((size - lv_info.lv_size) + reserved)) exhausted
            (pool >> lv.lv_resize (volume_prefix <> lv_name) vg_name size) v.world
            (then_run pool (lv.lv_resize (volume_prefix <> lv_name) vg_name size) v.world
              pool_kept))
    where
      pool : Op W (Unit {0})
      pool = resize_pool lv bcache vg_name size ratio lv_info

      pool_kept : resize_pool lv bcache vg_name size ratio lv_info v.world ≡ (ok tt, v.world)
      pool_kept = unfold resize_pool in rw (no_pool, resize_pool) refl

other : (n : ℕ) → n ≢ 1 → nat_eq n 1 ≡ false
other n h = ground (arith, h)

module _ {S W : Type 0} (sets : StringSet S) (lv : Lvm2 W) (bcache : Bcache W) (v : LocalVolume S W)
    (disk vg_name : String) (pv_info : PvInfo) (vg_info : VgGroup)
    (free : held sets v.mutex volume_mutex ≡ false)
    (used : lv.pv_display disk v.world ≡ ok (some pv_info)) (same : pv_info.vg_name ≡ vg_name)
    (named : vg_name ≢ "") (known : lv.vg_display vg_name v.world ≡ ok (some vg_info)) where
  in_it : (pv_info.vg_name == vg_name) ≡ true
  in_it = ground (arith, same, eq_iff pv_info.vg_name vg_name)

  not_free : (pv_info.vg_name == "") ≡ false
  not_free = ground (arith, same, named, eq_iff pv_info.vg_name "")

  -- For a disk of a group with at least 9 GiB free, a call that gets the lock takes the last disk out
  -- together with the group, but only if the group has no volumes, and takes another disk out only
  -- if the free space without the disk's size is at least 9 GiB.
  pub remove_keeps_reserve :
      reserved ≤ vg_info.vg_free
      → vg_info.vg_free < 2 ^ 64
      → outcome (remove_disk_in_vg lv sets disk vg_name v) ≡ (
          if nat_eq vg_info.pv_count 1
          then if ltb 0 vg_info.lv_count
            then (err (plain "still have logical volumes"), v.world)
            else (lv.vg_remove vg_name >> lv.pv_remove disk) v.world
          else if ltb vg_info.vg_free (pv_info.pv_size + reserved)
          then (err exhausted, v.world)
          else lv.vg_reduce vg_name disk v.world)
  unfolding remove_disk_in_vg less_reserve
  remove_keeps_reserve enough bound =
      outcome-locked sets lv bcache _ _ v free
      ∙ rw
          (
            used,
            in_it,
            not_free,
            known,
            less_reserve-enough vg_info.vg_free pv_info.pv_size enough bound,
          )
          (four_ways (nat_eq vg_info.pv_count 1) (ltb 0 vg_info.lv_count)
            (ltb vg_info.vg_free (pv_info.pv_size + reserved)) (plain "still have logical volumes")
            exhausted (lv.vg_remove vg_name >> lv.pv_remove disk) (lv.vg_reduce vg_name disk)
            v.world)

  -- With less than 9 GiB free, a disk of up to 2^63 bytes that is not the last one is taken out
  -- whatever its size: the unsigned difference wraps around.
  pub remove_oversized :
      vg_info.vg_free < reserved
      → pv_info.pv_size ≤ 2 ^ 63
      → vg_info.pv_count ≢ 1
      → outcome (remove_disk_in_vg lv sets disk vg_name v) ≡ lv.vg_reduce vg_name disk v.world
  unfolding remove_disk_in_vg less_reserve
  remove_oversized little bound several =
      outcome-locked sets lv bcache _ _ v free
      ∙ rw
          (
            used,
            in_it,
            not_free,
            known,
            less_reserve-wraps vg_info.vg_free pv_info.pv_size little bound,
          )
          (rw (other vg_info.pv_count several) refl)
