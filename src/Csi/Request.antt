-- ===== src/Csi/Request.antt =====
-- What CreateVolume reads from its request, and convertRequestCapacity.
pub mod Sizes
use carina.Base.{
  String, ℤ, pos, Bool, true, false, ◌&&◌, not, List, [], ◌∷◌, Map, text_at, ltb_ℤ, leb_ℤ, gb_up,
  show_int, ◌<>◌, ◌==◌, if◌then◌else◌,
}
use carina.Errors.{
  Code, panic, message, Error, plain, status, invalid_argument, Result, ok, err, ◌>>=◌, ◌>>◌,
  fail_if,
}
use carina.Config.{
  DiskSelectorItem, check_host_device_group, check_raw_device_group, get_host_device_path,
}
use carina.Placement.Candidates.{lvm_volume_type, raw_volume_type}
use carina.Csi.{
  AccessType, block, mount, unknown, AccessMode, unset, single_node_writer, other_mode,
  VolumeCapability, fails_with,
}

abbrev pub device_disk_key : String
device_disk_key = "carina.storage.io/disk-group-name"

abbrev pub volume_cache_disk_ratio : String
volume_cache_disk_ratio = "carina.storage.io/cache-disk-ratio"

abbrev pub host_volume_type : String
host_volume_type = "host"

abbrev is_zero : ℤ → Bool
is_zero a = leb_ℤ a (pos 0) && leb_ℤ (pos 0) a

unfoldable pub exceeds : ℤ → ℤ → Error
exceeds request limit = plain (
    "requested capacity exceeds limit capacity: request="
    <> (show_int request <> (" limit=" <> show_int limit)))

-- carina.MinRequestSizeGb is 1.
unfoldable pub convert_request_capacity : (request_bytes limit_bytes : ℤ) → Result ℤ
unfolding exceeds
convert_request_capacity request_bytes limit_bytes =
    if ltb_ℤ request_bytes (pos 0)
    then err (plain "required capacity must not be negative")
    else if ltb_ℤ limit_bytes (pos 0)
    then err (plain "capacity limit must not be negative")
    else if not (is_zero limit_bytes) && ltb_ℤ limit_bytes request_bytes
    then err (exceeds request_bytes limit_bytes)
    else if is_zero request_bytes
    then ok (pos 1)
    else ok (gb_up request_bytes)

-- The body of the loop over the capabilities
unfoldable pub access_type_known : AccessType → Result (Unit {0})
access_type_known block = ok tt
access_type_known mount = ok tt
access_type_known unknown = err (status invalid_argument "unknown or empty access_type")

unfoldable pub access_mode_supported : AccessMode → Result (Unit {0})
access_mode_supported unset = ok tt
access_mode_supported single_node_writer = ok tt
access_mode_supported (other_mode name) =
    err (status invalid_argument ("unsupported access mode: " <> name))

unfoldable pub check_capabilities : List VolumeCapability → Result (Unit {0})
unfolding access_type_known access_mode_supported
check_capabilities [] = ok tt
check_capabilities (capability ∷ capabilities) = do
  access_type_known capability.access_type
  access_mode_supported capability.access_mode
  check_capabilities capabilities

-- `volumeType` after the two tests of the group
unfoldable pub volume_type : List DiskSelectorItem → String → String
volume_type selectors device_group =
    if check_raw_device_group selectors device_group
    then raw_volume_type
    else if check_host_device_group selectors device_group
    then host_volume_type
    else lvm_volume_type

-- `devicePath`
unfoldable pub device_path : List DiskSelectorItem → (device_group pv_name : String) → String
device_path selectors device_group pv_name =
    if check_host_device_group selectors device_group
    then get_host_device_path selectors device_group <> ("/host-" <> pv_name)
    else "/dev/" <> (device_group <> ("/volume-" <> pv_name))

-- status.Errorf(code, text + "%v", err)
unfoldable pub reason : Code → String → Error → Error
reason code text panic = panic
reason code text (plain e) = status code (text <> message (plain e))
reason code text (status c e) = status code (text <> message (status c e))

-- status.Errorf(code, text)
unfoldable pub instead : Code → String → Error → Error
instead code text panic = panic
instead code text (plain e) = status code text
instead code text (status c e) = status code text

-- `requestGb` of the two calls that have one
unfoldable pub request_size : (required_bytes limit_bytes : ℤ) → Result ℤ
unfolding convert_request_capacity reason
request_size required_bytes limit_bytes =
    fails_with (reason invalid_argument "") (convert_request_capacity required_bytes limit_bytes)
