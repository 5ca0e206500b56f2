-- ===== src/Partition/Examples.antt =====
-- A disk with one partition and one free space; the world counts the calls.
use carina.Base.{
  run, String, ℕ, suc, ◌-◌, ◌*◌, ◌≡◌, refl, arith, Bool, true, false, none, [], ◌∷◌, All, leb,
  if◌then◌else◌,
}
use carina.Errors.{panic, ok, err}
use carina.Locks.{try_acquire, release}
use carina.Locks.Examples.{function_set}
use carina.Locks.Scope.{guarded}
use carina.Lvm.{Executor}
use carina.Partition.{
  Part, RawDisk, FreeSpace, Disko, LocalPartition, scan_disk, get_partition, part_probe, disk_path,
}
use carina.Partition.Create.{
  create_body, new_part, open_number, exists, last_byte, create_partition,
}
use carina.Partition.Create.Spaces.{IsRoom}
use carina.Partition.Create.Placed.{
  GivesRoom, Outcome, create_partition-Outcome, create_body_no_room,
}

abbrev gib : ℕ
gib = 1073741824

abbrev first_part : Part
first_part = record { start = 0; last = gib - 1; name = "carina.io/a"; number = 1 }

abbrev disk : RawDisk
disk = record {
  name = "vdb";
  path = "/dev/vdb";
  size = 40 * gib;
  partitions = (1, first_part) ∷ [];
}

abbrev rest_of_disk : FreeSpace
rest_of_disk = record { start = gib; last = 40 * gib - 1 }

abbrev executor : Executor ℕ
executor = record {
  execute_command = λ command args w. (ok tt, suc w);
  execute_command_with_output = λ command args w. (("", none), suc w);
  execute_command_resident_binary = λ command w. (ok tt, w);
  file_exists = λ path w. true;
}

abbrev disko : Disko ℕ
disko = record {
  scan = λ path w. ok disk;
  free_spaces = λ d. rest_of_disk ∷ [];
  free_spaces_with_min = λ d min. if leb min (39 * gib) then rest_of_disk ∷ [] else [];
  create_partition = λ d p w. (ok tt, suc w);
  delete_partition = λ d n w. (ok tt, suc w);
  wipe = λ d w. (ok tt, suc w);
  partition_kname = λ path n. path;
  executor = executor;
}

disko-GivesRoom : GivesRoom disko
disko-GivesRoom d min = sized (leb min (39 * gib)) refl
  where
    sized :
        (b : Bool) → leb min (39 * gib) ≡ b → All (IsRoom min) (if b then rest_of_disk ∷ [] else [])
    sized false e = tt
    sized true e =
        (record { ordered = omega arith; bound = omega arith; large = ground (arith, e) }, tt)

abbrev idle : LocalPartition (String → Bool) ℕ
idle = (record { locks = λ id. false }, ([], 0))

created_run :
    (create_partition disko function_set "carina.io/b" "carina-raw/vdb" (10 * gib) idle).0 ≡ ok tt
unfolding create_partition create_body new_part open_number exists last_byte scan_disk disk_path
    get_partition part_probe guarded try_acquire release run
created_run = refl

create_partition-Outcome_example :
    Outcome disko disko-GivesRoom "carina.io/b" "carina-raw/vdb" (10 * gib) ([], 0)
create_partition-Outcome_example =
    create_partition-Outcome disko disko-GivesRoom function_set "carina.io/b" "carina-raw/vdb"
      (10 * gib) idle (omega arith) created_run

create_body_no_room_run :
    create_body disko "carina.io/b" "carina-raw/vdb" (100 * gib) ([], 0) ≡ (err panic, ([], 0))
create_body_no_room_run =
    create_body_no_room disko "carina.io/b" "carina-raw/vdb" (100 * gib) ([], 0) disk
      (unfold scan_disk disk_path run in refl) refl
