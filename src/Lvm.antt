-- ===== src/Lvm.antt =====
-- The LVM driver, pkg/devicemanager/lvmd: the commands of lvm.go and the reports that parse.go
-- reads. Commands are run by the interface Executor of utils/exec/exec.go, here a record over a
-- world; what a command prints has no space around it.
pub mod Report
pub mod Driver
pub mod Refinement
pub mod Examples
use carina.Base.{String, Bool, List, Option}
use carina.Errors.{Error}
use carina.Volume.{Op}

pub record Executor (W : Type 0) : Type 0 where
  pub execute_command : String → List String → Op W (Unit {0})
  -- the output, also of a command that fails, and the error if it fails
  pub execute_command_with_output : String → List String → W → (String × Option Error) × W
  pub execute_command_resident_binary : String → Op W (Unit {0})
  -- utils.FileExists
  pub file_exists : String → W → Bool
