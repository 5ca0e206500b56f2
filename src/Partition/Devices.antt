-- ===== src/Partition/Devices.antt =====
-- The list of the block devices: ListDevicesDetail, parseDiskString, filter and GetDevice of
-- partition.go.
use carina.Base.{
  String, ℕ, ◌^◌, ◌*◌, Bool, true, false, ◌||◌, ◌&&◌, not, Option, none, some, List, [], ◌∷◌, ◌++◌,
  map, split, parse_uint64, contains, keep_if, any, ltb, ◌==◌, if◌then◌else◌,
}
use carina.Errors.{Error, Result, ok, err, ◌>>=◌}
use carina.Lvm.{Executor}
use carina.Lvm.Report.{Row, remove_all, row_of, fill}

-- types.LocalDisk
pub record LocalDisk : Type 0 where
  pub name : String
  pub mount_point : String
  pub size : ℕ
  pub state : String
  pub kind : String
  pub rotational : String
  pub readonly : Bool
  pub filesystem : String
  pub have_partitions : Bool
  pub parent_name : String
  pub device_number : String

abbrev no_disk : LocalDisk
no_disk = record {
  name = "";
  mount_point = "";
  size = 0;
  state = "";
  kind = "";
  rotational = "";
  readonly = false;
  filesystem = "";
  have_partitions = false;
  parent_name = "";
  device_number = "";
}

unfoldable pub set_disk : String → String → LocalDisk → LocalDisk
set_disk k v d =
    if k == "NAME"
    then record d { name = v }
    else if k == "MOUNTPOINT"
    then record d { mount_point = v }
    else if k == "SIZE"
    then record d { size = parse_uint64 v }
    else if k == "STATE"
    then record d { state = v }
    else if k == "TYPE"
    then record d { kind = v }
    else if k == "ROTA"
    then record d { rotational = v }
    else if k == "RO"
    then record d { readonly = v == "1" }
    else if k == "FSTYPE"
    then record d { filesystem = v }
    else if k == "PKNAME"
    then record d { parent_name = v }
    else if k == "MAJ:MIN"
    then record d { device_number = v }
    else d

unfoldable pub disk_rows : List String → Result (List Row)
disk_rows [] = ok []
disk_rows (line ∷ lines) = do
  row ← row_of (split b' ' line)
  rows ← disk_rows lines
  ok (row ∷ rows)

-- The keys of `parentDisk`: the parents that the rows name
unfoldable pub parents : List Row → List String
parents [] = []
parents (row ∷ rows) = map (λ f. f.1) (keep_if (λ f. f.0 == "PKNAME") row) ++ parents rows

unfoldable pub mark_parents : List String → LocalDisk → LocalDisk
mark_parents names d =
    if any (λ n. n == d.name) names then record d { have_partitions = true } else d

unfoldable pub parse_disk_string : String → Result (List LocalDisk)
unfolding set_disk disk_rows parents mark_parents
parse_disk_string text = if text == "" then ok [] else do
  rows ← disk_rows (split b'\n' (remove_all b'"' text))
  ok (map (λ row. mark_parents (parents rows) (fill set_disk row no_disk)) rows)

-- types.KEYWORD
abbrev keyword : String
keyword = "carina-"

-- A disk that may be taken: writable, of at least 10 GiB, without a file system and not mounted
unfoldable pub is_free_disk : LocalDisk → Bool
is_free_disk d =
    not (contains d.name keyword)
    && not (
        d.readonly
        || (ltb d.size (10 * 2 ^ 30) || (not (d.filesystem == "") || not (d.mount_point == ""))))

unfoldable pub filter_disks : List LocalDisk → List LocalDisk
unfolding is_free_disk
filter_disks disks = keep_if is_free_disk disks

module _ {W : Type 0} (ex : Executor W) where
  abbrev listed : String × Option Error → Result (List LocalDisk)
  listed (text, none) = parse_disk_string text
  listed (text, some e) = err e

  unfoldable pub list_devices_detail_without_filter : String → W → Result (List LocalDisk)
  list_devices_detail_without_filter device w =
      listed
        (ex.execute_command_with_output "lsblk"
          ("--pairs"
            ∷ "--paths"
            ∷ "--bytes"
            ∷ "--output"
            ∷ "NAME,FSTYPE,MOUNTPOINT,SIZE,STATE,TYPE,ROTA,RO,PKNAME,MAJ:MIN"
            ∷ (if device == "" then [] else device ∷ []))
          w).0

  unfoldable pub list_devices_detail : String → W → Result (List LocalDisk)
  unfolding list_devices_detail_without_filter filter_disks
  list_devices_detail device w = do
    disks ← list_devices_detail_without_filter device w
    ok (filter_disks disks)

  abbrev numbered : String → List LocalDisk → Option LocalDisk
  numbered device_number [] = none
  numbered device_number (d ∷ disks) =
      let rest = numbered device_number disks in
      if d.device_number == device_number then some d else rest

  unfoldable pub get_device : String → W → Result (Option LocalDisk)
  unfolding list_devices_detail_without_filter
  get_device device_number w = do
    disks ← list_devices_detail_without_filter "" w
    ok (numbered device_number disks)
