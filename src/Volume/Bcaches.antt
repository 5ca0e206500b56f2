-- ===== src/Volume/Bcaches.antt =====
-- CreateBcache, BcacheDeviceInfo and DeleteBcache of volume.go, which take no lock.
use carina.Base.{String, not, contains, if◌then◌else◌}
use carina.Errors.{Result, ok, err, message}
use carina.Volume.{Op, ◌>>=◌, ◌>>◌, read, give, Bcache, BcacheDeviceInfo}

module _ {W : Type 0} (bcache : Bcache W) where
  unfoldable pub create_bcache :
      (dev cache_dev block bucket cache_policy : String) → Op W BcacheDeviceInfo
  create_bcache dev cache_dev block bucket cache_policy = do
    bcache.create dev cache_dev block bucket
    bcache.register_device dev cache_dev
    device_info ← read (bcache.get_device dev)
    bcache.set_cache_mode device_info.name cache_policy
    give (ok device_info)

  -- What is shown, with the numbers and paths of the block device
  unfoldable pub bcache_device_info : String → Op W BcacheDeviceInfo
  bcache_device_info dev = do
    bcache_info ← read (bcache.show_device dev)
    device_info ← read (bcache.get_device dev)
    give (
        ok (record {
          name = device_info.name;
          bcache_path = device_info.bcache_path;
          device_path = dev;
          kernel_major = device_info.kernel_major;
          kernel_minor = device_info.kernel_minor;
          shown = bcache_info.shown;
        }))

  -- The error "exit status 2" means that there is no such device.
  removal : Result BcacheDeviceInfo × W → Result (Unit {0}) × W
  removal (ok device_info, w) = bcache.remove device_info w
  removal (err e, w) = if not (contains (message e) "exit status 2") then (err e, w) else (ok tt, w)

  unfoldable pub delete_bcache : String → Op W (Unit {0})
  unfolding removal bcache_device_info
  delete_bcache dev = λ w. removal (bcache_device_info dev w)
