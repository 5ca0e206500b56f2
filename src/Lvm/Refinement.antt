-- ===== src/Lvm/Refinement.antt =====
-- The driver over commands that print what the manual says.
pub mod Rows
use carina.Base.{
  String, ℕ, ◌^◌, ◌<◌, ◌≡◌, refl, sym, ap, ◌∙◌, Bool, true, false, Option, none, some, List, [],
  ◌∷◌, map, All, ◌==◌, if◌then◌else◌,
}
use carina.Errors.{Error, plain, Result, ok, err, ◌>>=◌}
use carina.Api.{VgGroup, PvInfo}
use carina.Volume.{Lvm2}
use carina.Lvm.{Executor}
use carina.Lvm.Report.{parse_vgs, parse_pvs}
use carina.Lvm.Report.Layout.{print_report, trimmed}
use carina.Lvm.Driver.{named, vgs_args, pvs_args, vgs, vg_display, pvs, pv_display, lvm2_implement}
use carina.Lvm.Refinement.Rows.{
  row_of_vg, row_of_pv, PlainVg, PlainPv, parse_vgs-print, parse_pvs-print,
}

-- What LVM has, and that its two reports print it
pub record Prints {W : Type 0} (ex : Executor W) (groups : W → List VgGroup)
    (volumes : W → List PvInfo) : Type 0 where
  pub vgs_printed :
      (w : W)
      → (ex.execute_command_with_output "vgs" (vgs_args ex) w).0
        ≡ (print_report (trimmed (map row_of_vg (groups w))), none)
  pub pvs_printed :
      (w : W)
      → (ex.execute_command_with_output "pvs" (pvs_args ex) w).0
        ≡ (print_report (trimmed (map row_of_pv (volumes w))), none)
  pub vgs_plain : (w : W) → All PlainVg (groups w)
  pub pvs_plain : (w : W) → All PlainPv (volumes w)

module _ {W : Type 0} (ex : Executor W) (groups : W → List VgGroup) (volumes : W → List PvInfo)
    (printed : Prints ex groups volumes) where
  vgs_known : (w : W) → vgs ex w ≡ ok (groups w)
  unfolding vgs
  vgs_known w = rw (printed.vgs_printed w) (parse_vgs-print (groups w) (printed.vgs_plain w))

  pvs_known : (w : W) → pvs ex w ≡ ok (volumes w)
  unfolding pvs
  pvs_known w = rw (printed.pvs_printed w) (parse_pvs-print (volumes w) (printed.pvs_plain w))

  -- The reports of an LVM that has these groups and physical volumes
  pub record Reports (lvm : Lvm2 W) (w : W) : Type 0 where
    pub all_groups : lvm.vgs w ≡ ok (groups w)
    pub group :
        (vg : String)
        → lvm.vg_display vg w ≡ named (λ g. g.vg_name) vg (plain "vg not found") (groups w)
    pub all_volumes : lvm.pvs w ≡ ok (volumes w)
    pub volume :
        (dev : String)
        → lvm.pv_display dev w ≡ named (λ p. p.pv_name) dev (plain "disk not found") (volumes w)

  -- If the commands vgs and pvs print the groups and the physical volumes that LVM has, a line for
  -- each, with the indentation of lvm but for what the executor trims, then the
  -- driver that the volume manager is given reports just these, and finds a group or a disk by its
  -- name or says that there is none.
  pub lvm2_implement-Reports : (w : W) → Reports (lvm2_implement ex) w
  unfolding lvm2_implement vg_display pv_display
  lvm2_implement-Reports w = record {
    all_groups = vgs_known w;
    group = λ vg. rw (vgs_known w);
    all_volumes = pvs_known w;
    volume = λ dev. rw (pvs_known w);
  }
