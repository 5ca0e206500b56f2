-- ===== src/Volume/Examples.antt =====
-- A node with one device group of two disks and 100 GiB; the world is the list of its volumes.
use carina.Base.{
  run, String, ℕ, ◌+◌, ◌-◌, ◌*◌, ◌^◌, ◌≡◌, ◌≢◌, refl, Bool, true, false, Option, none, some, [],
  ◌∷◌, Map, lookup, insert, arith, eq_iff,
}
use carina.Errors.{plain, Result, ok, err}
use carina.Api.{VgGroup, PvInfo}
use carina.Locks.{new_global_locks, try_acquire, held}
use carina.Locks.Examples.{function_set}
use carina.Volume.{Lvm2, Bcache, LvInfo, LocalVolume, give, volume_mutex}
use carina.Volume.Volumes.{exhausted, group_info, create_volume, resize_volume}
use carina.Volume.Disks.{remove_disk_in_vg}
use carina.Volume.Locking.{create, perform, busy, perform_releases, perform_refused}
use carina.Volume.Reports.{attach_pvs}
use carina.Volume.Reports.Groups.{with_pvs, of_group, attach_pvs_lem}
use carina.Volume.Space.{
  outcome, create_keeps_reserve, create_oversized, resize_keeps_reserve, remove_keeps_reserve,
  remove_oversized,
}

abbrev pub gib : ℕ
gib = 2 ^ 30

abbrev pub Volumes : Type 0
Volumes = Map ℕ

abbrev pub used : Volumes → ℕ
used [] = 0
used (v ∷ vs) = v.1 + used vs

abbrev pub group : Volumes → VgGroup
group w = record {
  vg_name = "carina-vg-ssd";
  pv_count = 2;
  lv_count = 0;
  vg_attr = "wz--n-";
  vg_size = 100 * gib;
  vg_free = 100 * gib - used w;
  pvs = [];
}

abbrev disk_of : String → String → PvInfo
disk_of name vg_name = record {
  pv_name = name;
  vg_name = vg_name;
  pv_fmt = "lvm2";
  pv_attr = "a--";
  pv_size = 50 * gib;
  pv_free = 0;
}

abbrev volume_of : String → Option ℕ → Result (Option LvInfo)
volume_of name none = err (plain "not found")
volume_of name (some size) = ok (
    some (record {
      lv_name = name;
      vg_name = "carina-vg-ssd";
      lv_size = size;
      lv_kernel_major = 253;
      lv_kernel_minor = 0;
      pool_lv = "";
    }))

abbrev pub lvm : Lvm2 Volumes
lvm = record {
  pv_display = λ dev w. ok (some (disk_of dev "carina-vg-ssd"));
  pvs = λ w. ok [];
  pv_create = λ dev. give (ok tt);
  pv_remove = λ dev. give (ok tt);
  pv_scan = λ dev. give (ok tt);
  vg_display = λ vg w. ok (some (group w));
  vgs = λ w. ok (group w ∷ []);
  vg_create = λ vg tags pvs. give (ok tt);
  vg_remove = λ vg. give (ok tt);
  vg_scan = λ vg. give (ok tt);
  vg_extend = λ vg pv. give (ok tt);
  vg_reduce = λ vg pv. give (ok tt);
  remove_unknown_device = λ vg. give (ok tt);
  start_lvm2 = give (ok tt);
  lv_display = λ lv vg w. volume_of lv (lookup lv w);
  lvs = λ name w. ok [];
  lv_create_from_vg = λ lv vg size w. (ok tt, (lv, size) ∷ w);
  lv_remove = λ lv vg. give (ok tt);
  lv_resize = λ lv vg size w. (ok tt, insert lv size w);
  resize_thin_pool = λ lv vg size. give (ok tt);
  delete_thin_pool = λ lv vg. give (ok tt);
}

abbrev pub no_bcache : Bcache Volumes
no_bcache = record {
  create = λ dev cache_dev block bucket. give (err (plain "no bcache"));
  remove = λ device_info. give (err (plain "no bcache"));
  get_device = λ dev w. err (plain "exit status 2");
  register_device = λ dev cache_dev. give (err (plain "no bcache"));
  show_device = λ dev w. err (plain "exit status 2");
  set_cache_mode = λ bcache policy. give (err (plain "no bcache"));
}

abbrev pub node_with : Volumes → LocalVolume (String → Bool) Volumes
node_with w = record { mutex = new_global_locks function_set; world = w }

abbrev contended : LocalVolume (String → Bool) Volumes
contended = record {
  mutex = (try_acquire function_set volume_mutex (new_global_locks function_set)).0;
  world = [];
}

pub unlocked : held function_set (new_global_locks function_set) volume_mutex ≡ false
unfolding new_global_locks
unlocked = refl

perform_releases_example :
    held function_set
      (perform function_set lvm no_bcache
        (create "pvc-1" "carina-vg-ssd" gib)
        (node_with [])).1.mutex
      volume_mutex
    ≡ held function_set (new_global_locks function_set) volume_mutex
perform_releases_example =
    perform_releases function_set lvm no_bcache (create "pvc-1" "carina-vg-ssd" gib) (node_with [])
      volume_mutex

taken : held function_set contended.mutex volume_mutex ≡ true
unfolding try_acquire new_global_locks
taken = refl

perform_refused_example :
    perform function_set lvm no_bcache (create "pvc-1" "carina-vg-ssd" gib) contended
    ≡ (busy function_set lvm no_bcache (create "pvc-1" "carina-vg-ssd" gib), contended)
perform_refused_example =
    perform_refused function_set lvm no_bcache (create "pvc-1" "carina-vg-ssd" gib) contended taken

-- 91 GiB can be given away, and no more.
pub known : (w : Volumes) → group_info lvm "carina-vg-ssd" w ≡ ok (group w)
unfolding group_info
known w = refl

create_keeps_reserve_example :
    outcome
      (create_volume lvm no_bcache function_set "pvc-1" "carina-vg-ssd" (92 * gib) (node_with []))
    ≡ (err exhausted, [])
create_keeps_reserve_example =
    create_keeps_reserve function_set lvm no_bcache (node_with []) "pvc-1" "carina-vg-ssd"
      (92 * gib) (group []) unlocked (known []) (omega arith) (omega arith)

create_oversized_example :
    outcome
      (create_volume lvm no_bcache function_set "pvc-1" "carina-vg-ssd" (101 * gib) (node_with []))
    ≡ (ok tt, ("volume-pvc-1", 101 * gib) ∷ [])
unfolding run
create_oversized_example =
    create_oversized function_set lvm no_bcache (node_with []) "pvc-1" "carina-vg-ssd" (101 * gib)
      (group []) unlocked (known []) (omega arith) (omega arith)

abbrev one_volume : Volumes
one_volume = ("volume-pvc-1", 10 * gib) ∷ []

abbrev the_volume : LvInfo
the_volume = record {
  lv_name = "volume-pvc-1";
  vg_name = "carina-vg-ssd";
  lv_size = 10 * gib;
  lv_kernel_major = 253;
  lv_kernel_minor = 0;
  pool_lv = "";
}

resize_keeps_reserve_example :
    outcome (
      resize_volume lvm no_bcache function_set "pvc-1" "carina-vg-ssd"
        (20 * gib)
        1
        (node_with one_volume))
    ≡ (ok tt, ("volume-pvc-1", 20 * gib) ∷ [])
unfolding run
resize_keeps_reserve_example =
    resize_keeps_reserve function_set lvm no_bcache (node_with one_volume) "pvc-1" "carina-vg-ssd"
      (20 * gib) (group one_volume) unlocked 1 the_volume (known one_volume) refl refl (omega arith)
      (omega arith) (omega arith) (omega arith)

named : ◌≢◌ {A = String} "carina-vg-ssd" ""
named = ground (arith, eq_iff "carina-vg-ssd" "")

remove_keeps_reserve_example :
    outcome (remove_disk_in_vg lvm function_set "/dev/vdb" "carina-vg-ssd" (node_with one_volume))
    ≡ (ok tt, one_volume)
remove_keeps_reserve_example =
    remove_keeps_reserve function_set lvm no_bcache (node_with one_volume) "/dev/vdb"
      "carina-vg-ssd" (disk_of "/dev/vdb" "carina-vg-ssd") (group one_volume) unlocked refl refl
      named refl (omega arith) (omega arith)

abbrev full : Volumes
full = ("volume-pvc-1", 91 * gib) ∷ ("volume-pvc-2", gib) ∷ []

remove_oversized_run :
    outcome (remove_disk_in_vg lvm function_set "/dev/vdb" "carina-vg-ssd" (node_with full))
    ≡ (ok tt, full)
remove_oversized_run =
    remove_oversized function_set lvm no_bcache (node_with full) "/dev/vdb" "carina-vg-ssd"
      (disk_of "/dev/vdb" "carina-vg-ssd") (group full) unlocked refl refl named refl (omega arith)
      (omega arith) (omega arith)

attach_pvs_run :
    lookup "carina-vg-ssd" (
      attach_pvs
        (disk_of "/dev/vdb" "" ∷ disk_of "/dev/vdc" "carina-vg-ssd" ∷ [])
        (("carina-vg-ssd", group []) ∷ []))
    ≡ some (
        with_pvs (group []) (
          of_group "carina-vg-ssd"
            (disk_of "/dev/vdb" "" ∷ disk_of "/dev/vdc" "carina-vg-ssd" ∷ [])))
attach_pvs_run =
    attach_pvs_lem (disk_of "/dev/vdb" "" ∷ disk_of "/dev/vdc" "carina-vg-ssd" ∷ [])
      (("carina-vg-ssd", group []) ∷ []) "carina-vg-ssd" (group []) named stored
  where
    stored : lookup "carina-vg-ssd" (("carina-vg-ssd", group []) ∷ []) ≡ some (group [])
    stored = unfold lookup in refl
