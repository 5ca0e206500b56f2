-- ===== src/Plugin/Keys.antt =====
-- scheduler/constants.go
use carina.Base.{String}

abbrev pub csi_plugin_name : String
csi_plugin_name = "carina.storage.io"

abbrev pub device_disk_key : String
device_disk_key = "carina.storage.io/disk-group-name"

abbrev pub volume_device_node : String
volume_device_node = "carina.storage.io/node"

abbrev pub device_capacity_key_prefix : String
device_capacity_key_prefix = "carina.storage.io/"

abbrev pub volume_backend_disk_type : String
volume_backend_disk_type = "carina.storage.io/backend-disk-group-name"

abbrev pub volume_cache_disk_type : String
volume_cache_disk_type = "carina.storage.io/cache-disk-group-name"

abbrev pub volume_cache_disk_ratio : String
volume_cache_disk_ratio = "carina.storage.io/cache-disk-ratio"

abbrev pub exclusivity_disk : String
exclusivity_disk = "carina.storage.io/exclusively-raw-disk"
