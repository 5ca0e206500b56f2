-- ===== src/Runner/Examples.antt =====
-- The group of the volume manager's examples: 100 GiB, of which 91 are published.
use carina.Base.{run, pos, ◌*◌, ◌^◌, ◌≡◌, refl, arith, true, false, some, [], ◌∷◌}
use carina.Errors.{ok}
use carina.Config.{DiskSelectorItem, contains_string}
use carina.Locks.Examples.{function_set}
use carina.Volume.Examples.{gib, group, lvm, no_bcache, node_with, unlocked, known}
use carina.Volume.Space.{outcome}
use carina.Volume.Volumes.{create_volume}
use carina.Partition.Devices.{LocalDisk}
use carina.Runner.{
  Manager, generate_status, generate_lvm_status, generate_disk_status, publish_groups, size_gb,
  free_gb, classify, scanned, publish_all, largest,
}
use carina.Runner.Admission.{published_admitted}

abbrev vg_item : DiskSelectorItem
vg_item = record { name = "carina-vg-ssd"; re = "sd" ∷ []; policy = "LVM"; node_label = "" }

abbrev raw_item : DiskSelectorItem
raw_item = record { name = "carina-raw"; re = "vd" ∷ []; policy = "RAW"; node_label = "" }

abbrev vdb : LocalDisk
vdb = record {
  name = "/dev/vdb";
  mount_point = "";
  size = 20 * gib;
  state = "";
  kind = "disk";
  rotational = "0";
  readonly = false;
  filesystem = "";
  have_partitions = false;
  parent_name = "";
  device_number = "252:16";
}

abbrev manager : Manager
manager = record {
  select_group = ("carina-vg-ssd", vg_item) ∷ ("carina-raw", raw_item) ∷ [];
  vg_struct = ok (group [] ∷ []);
  devices = ok (vdb ∷ []);
  scan_all_disk = λ paths.
      ok (record { name = "vdb"; path = "/dev/vdb"; size = 20 * gib; partitions = [] } ∷ []);
  free_spaces = λ disk.
      record { start = 0; last = 5 * gib } ∷ record { start = 6 * gib; last = 20 * gib } ∷ [];
  matcher = λ re. some (λ name. true);
}

published_entries :
    (generate_status manager).allocatable
    ≡ ("carina.storage.io/carina-vg-ssd", pos 91)
      ∷ ("carina.storage.io/carina-raw/vdb", pos 14)
      ∷ []
unfolding generate_status generate_lvm_status generate_disk_status publish_groups size_gb free_gb
    classify scanned publish_all largest run contains_string
published_entries = refl

published_admitted_example :
    outcome (
      create_volume lvm no_bcache function_set "pvc-1" "carina-vg-ssd" (91 * 2 ^ 30) (node_with []))
    ≡ (ok tt, ("volume-pvc-1", 91 * gib) ∷ [])
unfolding run
published_admitted_example =
    published_admitted function_set lvm no_bcache (node_with []) "pvc-1" "carina-vg-ssd" 91
      (group []) unlocked (known []) (omega arith) (omega arith) (omega (arith, published))
  where
    published : free_gb (100 * gib) ≡ 91
    published = unfold free_gb run in refl
