-- ===== src/Volume.antt =====
-- The volumes of a node: pkg/devicemanager/volume/volume.go. Its two drivers are the Go interfaces
-- lvmd.Lvm2 (pkg/devicemanager/lvmd/interface.go) and bcache.Bcache
-- (pkg/devicemanager/bcache/interface.go), here records over a world `W`: a report reads the world,
-- a command may fail and may change it. An operation takes the lock, works on the world and gives
-- the lock back.
pub mod Bcaches
pub mod Volumes
pub mod Disks
pub mod Reports
pub mod Locking
pub mod Steps
pub mod Space
pub mod Examples
use carina.Base.{String, ℕ, Bool, true, false, Option, none, some, List}
use carina.Errors.{Error, plain, status, panic, Result, ok, err, to_option}
use carina.Api.{VgGroup, PvInfo}
use carina.Locks.{StringSet, GlobalLocks, try_acquire, release}

-- types.LvInfo, without the fields that only lvs prints
pub record LvInfo : Type 0 where
  pub lv_name : String
  pub vg_name : String
  pub lv_size : ℕ
  pub lv_kernel_major : ℕ
  pub lv_kernel_minor : ℕ
  pub pool_lv : String

-- types.BcacheDeviceInfo; `shown` stands for the fields that only the tool reads.
pub record BcacheDeviceInfo : Type 0 where
  pub name : String
  pub bcache_path : String
  pub device_path : String
  pub kernel_major : ℕ
  pub kernel_minor : ℕ
  pub shown : List String

-- A piece of code that may fail and may change the world
abbrev pub Op : Type 0 → Type 0 → Type 0
Op W A = W → Result A × W

abbrev pub continue : {W A B : Type 0} → Result A × W → (A → Op W B) → Result B × W
continue (err e, w) next = (err e, w)
continue (ok a, w) next = next a w

infixl 5 ◌>>=◌ ◌>>◌
abbrev pub ◌>>=◌ : {W A B : Type 0} → Op W A → (A → Op W B) → Op W B
op >>= next = λ w. continue (op w) next

abbrev pub ◌>>◌ : {W B : Type 0} → Op W (Unit {0}) → Op W B → Op W B
op >> next = op >>= λ done. next

-- A report, and code that does not look at the world
abbrev pub read : {W A : Type 0} → (W → Result A) → Op W A
read report = λ w. (report w, w)

abbrev pub give : {W A : Type 0} → Result A → Op W A
give r = λ w. (r, w)

-- `_ = f()`; a panic goes on.
abbrev drop_error : {W A : Type 0} → Result A × W → Result (Unit {0}) × W
drop_error (err panic, w) = (err panic, w)
drop_error (err (plain e), w) = (ok tt, w)
drop_error (err (status c e), w) = (ok tt, w)
drop_error (ok a, w) = (ok tt, w)

abbrev pub ignore : {W A : Type 0} → Op W A → Op W (Unit {0})
ignore op = λ w. drop_error (op w)

-- A nil pointer is none.
pub record Lvm2 (W : Type 0) : Type 0 where
  pub pv_display : String → W → Result (Option PvInfo)
  pub pvs : W → Result (List PvInfo)
  pub pv_create : String → Op W (Unit {0})
  pub pv_remove : String → Op W (Unit {0})
  pub pv_scan : String → Op W (Unit {0})
  pub vg_display : String → W → Result (Option VgGroup)
  pub vgs : W → Result (List VgGroup)
  pub vg_create : (vg : String) (tags pvs : List String) → Op W (Unit {0})
  pub vg_remove : String → Op W (Unit {0})
  pub vg_scan : String → Op W (Unit {0})
  pub vg_extend : (vg pv : String) → Op W (Unit {0})
  pub vg_reduce : (vg pv : String) → Op W (Unit {0})
  pub remove_unknown_device : String → Op W (Unit {0})
  pub start_lvm2 : Op W (Unit {0})
  pub lv_display : (lv vg : String) → W → Result (Option LvInfo)
  pub lvs : String → W → Result (List LvInfo)
  -- without tags, stripes and stripe size, as the only caller gives them
  pub lv_create_from_vg : (lv vg : String) → ℕ → Op W (Unit {0})
  pub lv_remove : (lv vg : String) → Op W (Unit {0})
  pub lv_resize : (lv vg : String) → ℕ → Op W (Unit {0})
  pub resize_thin_pool : (lv vg : String) → ℕ → Op W (Unit {0})
  pub delete_thin_pool : (lv vg : String) → Op W (Unit {0})

-- `v, _ := f()` of a report
abbrev pub reported : {A : Type 0} → Result (Option A) → Option A
reported (err e) = none
reported (ok v) = v

pub record Bcache (W : Type 0) : Type 0 where
  pub create : (dev cache_dev block bucket : String) → Op W (Unit {0})
  pub remove : BcacheDeviceInfo → Op W (Unit {0})
  pub get_device : String → W → Result BcacheDeviceInfo
  pub register_device : (dev cache_dev : String) → Op W (Unit {0})
  pub show_device : String → W → Result BcacheDeviceInfo
  pub set_cache_mode : (bcache policy : String) → Op W (Unit {0})

-- LocalVolumeImplement, and the world that its drivers act on
pub record LocalVolume (S W : Type 0) : Type 0 where
  pub mutex : GlobalLocks S
  pub world : W

abbrev pub volume_mutex : String
volume_mutex = "VolumeMutex"

abbrev pub get_mutex_failed : Error
get_mutex_failed = plain "get global mutex failed"

module _ {S W : Type 0} {A : Type 0} (sets : StringSet S) where
  -- defer v.Mutex.Release(VOLUMEMUTEX): on every way out, a panic included
  abbrev finish : GlobalLocks S → Result A × W → Result A × LocalVolume S W
  finish gl (r, w) = (r, record { mutex = release sets volume_mutex gl; world = w })

  abbrev enter : GlobalLocks S × Bool → Result A → Op W A → W → Result A × LocalVolume S W
  enter (gl, false) busy body w = (busy, record { mutex = gl; world = w })
  enter (gl, true) busy body w = finish gl (body w)

  -- `if !v.Mutex.TryAcquire(VOLUMEMUTEX) { return busy }; defer ...; body`
  unfoldable pub locked : Result A → Op W A → LocalVolume S W → Result A × LocalVolume S W
  locked busy body v = enter (try_acquire sets volume_mutex v.mutex) busy body v.world
