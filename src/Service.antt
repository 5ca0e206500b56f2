-- ===== src/Service.antt =====
-- The service that the controller uses for logic volumes:
-- pkg/csidriver/driver/k8s/logicvolume_service.go with RetryGetter of getter/retry_getter.go. The
-- Kubernetes clients are the record `Client` of operations over a world `W`, which `pass` lets
-- other agents change during a wait. A context ends after a number of waits, which is the first
-- part of the state that an operation works on.
pub mod Poll
pub mod Getter
pub mod Create
pub mod Delete
pub mod Expand
pub mod Examples
use carina.Base.{String, ℕ, zero, suc, Bool, List, Option}
use carina.Errors.{Error, plain, Result, ok, err}
use carina.Api.{LogicVolume}
use carina.Placement.{Found, found, not_found, failed}
use carina.Volume.{Op}

-- What the API server answers to a write
pub data Written : Type 0 where
  written : Written
  conflict : Error → Written
  refused : Error → Written

pub record Client (W : Type 0) : Type 0 where
  -- time.After: the other agents change the world meanwhile
  pub pass : W → W
  -- the time as the text that an annotation has
  pub now : W → String
  pub cache_lv : String → W → Found LogicVolume
  pub api_lv : String → W → Found LogicVolume
  pub cache_node : String → W → Found (Unit {0})
  pub api_node : String → W → Found (Unit {0})
  -- cache.List with the field index status.volumeID
  pub cache_by_volume_id : String → W → Result (List LogicVolume)
  pub api_list : W → Result (List LogicVolume)
  pub create : LogicVolume → Op W (Unit {0})
  pub delete : LogicVolume → W → Found (Unit {0}) × W
  pub update : LogicVolume → W → Written × W
  pub update_status : LogicVolume → W → Written × W

-- The waits that are left before the context is done, and the world
abbrev pub Timed : Type 0 → Type 0
Timed W = ℕ × W

-- ctx.Err()
abbrev pub context_done : Error
context_done = plain "context deadline exceeded"

-- ErrVolumeNotFound
abbrev pub volume_not_found : Error
volume_not_found = plain "volume not found"

-- RetryGetter.Get, with the kind of its error
unfoldable pub retried : {A : Type 0} → Found A → Found A → Found A
retried (found a) api = found a
retried (not_found e) api = api
retried (failed e) api = failed e

-- The error that is returned where its kind is not looked at
unfoldable pub returned : {A : Type 0} → Found A → Result A
returned (found a) = ok a
returned (not_found e) = err e
returned (failed e) = err e

module _ {W : Type 0} (client : Client W) where
  -- s.getter.Get(ctx, client.ObjectKey{Name: name}, lv)
  unfoldable pub get_lv : String → W → Found LogicVolume
  unfolding retried
  get_lv name w = retried (client.cache_lv name w) (client.api_lv name w)

  -- s.getter.Get(ctx, client.ObjectKey{Name: lv.Spec.NodeName}, existingNode)
  unfoldable pub get_node : String → W → Result (Unit {0})
  unfolding retried returned
  get_node name w = returned (retried (client.cache_node name w) (client.api_node name w))
