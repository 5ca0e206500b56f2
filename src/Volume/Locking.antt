-- ===== src/Volume/Locking.antt =====
-- The lock of the volume operations.
use carina.Base.{String, ℕ, ◌≡◌, true, false, Bool-cases, inl, inr}
use carina.Errors.{Result, ok, err}
use carina.Locks.{StringSet, try_acquire, release, held}
use carina.Locks.Scope.{released}
use carina.Volume.{Op, Lvm2, Bcache, LocalVolume, volume_mutex, get_mutex_failed, locked}
use carina.Volume.Volumes.{create_volume, delete_volume, resize_volume}
use carina.Volume.Disks.{add_new_disk_to_vg, remove_disk_in_vg, health_check}

-- The calls of the interface LocalVolume that take the lock
pub data Call : Type 0 where
  create : (lv_name vg_name : String) → ℕ → Call
  delete : (lv_name vg_name : String) → Call
  resize : (lv_name vg_name : String) → (size ratio : ℕ) → Call
  add_disk : (disk vg_name : String) → Call
  remove_disk : (disk vg_name : String) → Call
  check_health : Call

module _ {S W : Type 0} (sets : StringSet S) (lv : Lvm2 W) (bcache : Bcache W) where
  unfoldable pub perform : Call → LocalVolume S W → Result (Unit {0}) × LocalVolume S W
  perform (create lv_name vg_name size) = create_volume lv bcache sets lv_name vg_name size
  perform (delete lv_name vg_name) = delete_volume lv bcache sets lv_name vg_name
  perform (resize lv_name vg_name size ratio) =
      resize_volume lv bcache sets lv_name vg_name size ratio
  perform (add_disk disk vg_name) = add_new_disk_to_vg lv sets disk vg_name
  perform (remove_disk disk vg_name) = remove_disk_in_vg lv sets disk vg_name
  perform check_health = health_check lv sets

  -- What is returned when another call holds the lock
  abbrev pub busy : Call → Result (Unit {0})
  busy (create lv_name vg_name size) = err get_mutex_failed
  busy (delete lv_name vg_name) = err get_mutex_failed
  busy (resize lv_name vg_name size ratio) = err get_mutex_failed
  busy (add_disk disk vg_name) = err get_mutex_failed
  busy (remove_disk disk vg_name) = err get_mutex_failed
  busy check_health = ok tt

  pub locked_free :
      {A : Type 0} (refusal : Result A) (body : Op W A) (v : LocalVolume S W)
      → held sets v.mutex volume_mutex ≡ false
      → locked sets refusal body v ≡ (
        (body v.world).0,
        record {
          mutex = release sets volume_mutex (try_acquire sets volume_mutex v.mutex).0;
          world = (body v.world).1;
        },
      )
  unfolding locked try_acquire release
  locked_free refusal body v free = rw free

  pub locked_busy :
      {A : Type 0} (refusal : Result A) (body : Op W A) (v : LocalVolume S W)
      → held sets v.mutex volume_mutex ≡ true
      → locked sets refusal body v ≡ (refusal, v)
  unfolding locked try_acquire
  locked_busy refusal body v taken = rw taken

  locked_neutral :
      {A : Type 0} (refusal : Result A) (body : Op W A) (v : LocalVolume S W) (id : String)
      → held sets (locked sets refusal body v).1.mutex id ≡ held sets v.mutex id
  locked_neutral refusal body v id = elim (Bool-cases (held sets v.mutex volume_mutex)) [
    | inl taken ↦ rw (locked_busy refusal body v taken)
    | inr free ↦ rw (locked_free refusal body v free) (released sets volume_mutex v.mutex id free)
  ]

  -- Whatever a call does and however it ends, with an error or a panic too, the same locks are held
  -- after it as before it.
  pub perform_releases :
      (call : Call) (v : LocalVolume S W) (id : String)
      → held sets (perform call v).1.mutex id ≡ held sets v.mutex id
  unfolding perform create_volume delete_volume resize_volume add_new_disk_to_vg remove_disk_in_vg
      health_check
  perform_releases (create lv_name vg_name size) v id = locked_neutral _ _ v id
  perform_releases (delete lv_name vg_name) v id = locked_neutral _ _ v id
  perform_releases (resize lv_name vg_name size ratio) v id = locked_neutral _ _ v id
  perform_releases (add_disk disk vg_name) v id = locked_neutral _ _ v id
  perform_releases (remove_disk disk vg_name) v id = locked_neutral _ _ v id
  perform_releases check_health v id = locked_neutral _ _ v id

  -- While another call holds the lock, a call changes neither the world nor the locks; all but the
  -- health check return an error.
  pub perform_refused :
      (call : Call) (v : LocalVolume S W)
      → held sets v.mutex volume_mutex ≡ true
      → perform call v ≡ (busy call, v)
  unfolding perform create_volume delete_volume resize_volume add_new_disk_to_vg remove_disk_in_vg
      health_check
  perform_refused (create lv_name vg_name size) v taken = locked_busy _ _ v taken
  perform_refused (delete lv_name vg_name) v taken = locked_busy _ _ v taken
  perform_refused (resize lv_name vg_name size ratio) v taken = locked_busy _ _ v taken
  perform_refused (add_disk disk vg_name) v taken = locked_busy _ _ v taken
  perform_refused (remove_disk disk vg_name) v taken = locked_busy _ _ v taken
  perform_refused check_health v taken = locked_busy _ _ v taken
