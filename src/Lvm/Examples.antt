-- ===== src/Lvm/Examples.antt =====
-- A node with the group of the comments in parse.go.
use carina.Base.{
  run, String, ℕ, ◌≡◌, refl, arith, true, none, [], ◌∷◌, without, show_uint, ◌==◌, if◌then◌else◌,
}
use carina.Errors.{panic, ok, err}
use carina.Api.{VgGroup, PvInfo}
use carina.Lvm.{Executor}
use carina.Lvm.Report.{parse_report, parse_vgs, rows_of, row_of, remove_all, set_vg}
use carina.Lvm.Report.Printed.{cat}
use carina.Lvm.Report.Layout.{
  IsPlain, Line, join, print_field, print_row, print_line, print_report, spaces, trimmed,
}
use carina.Lvm.Report.Roundtrip.{parse_report-print_report}
use carina.Lvm.Driver.{lvm2_implement}
use carina.Lvm.Refinement.{Prints, Reports, lvm2_implement-Reports}
use carina.Lvm.Refinement.Rows.{PlainVg, PlainPv, passes, passes-IsPlain}

abbrev vgs_text : String
vgs_text =
    "LVM2_VG_NAME='lvmvg',LVM2_PV_COUNT='1',LVM2_LV_COUNT='0',LVM2_VG_ATTR='wz--n-',LVM2_VG_SIZE='16101933056',LVM2_VG_FREE='16101933056'\n  LVM2_VG_NAME='v1',LVM2_PV_COUNT='2',LVM2_LV_COUNT='0',LVM2_VG_ATTR='wz--n-',LVM2_VG_SIZE='32203866112',LVM2_VG_FREE='32203866112'"

abbrev pvs_text : String
pvs_text =
    "LVM2_PV_NAME='/dev/loop2',LVM2_VG_NAME='lvmvg',LVM2_PV_FMT='lvm2',LVM2_PV_ATTR='a--',LVM2_PV_SIZE='16101933056',LVM2_PV_FREE='16101933056'"

abbrev group : VgGroup
group = record {
  vg_name = "lvmvg";
  pv_count = 1;
  lv_count = 0;
  vg_attr = "wz--n-";
  vg_size = 16101933056;
  vg_free = 16101933056;
  pvs = [];
}

abbrev v1 : VgGroup
v1 = record {
  vg_name = "v1";
  pv_count = 2;
  lv_count = 0;
  vg_attr = "wz--n-";
  vg_size = 32203866112;
  vg_free = 32203866112;
  pvs = [];
}

abbrev loop2 : PvInfo
loop2 = record {
  pv_name = "/dev/loop2";
  vg_name = "lvmvg";
  pv_fmt = "lvm2";
  pv_attr = "a--";
  pv_size = 16101933056;
  pv_free = 16101933056;
}

abbrev node : Executor ℕ
node = record {
  execute_command = λ command args w. (ok tt, w);
  execute_command_with_output =
      λ command args w. ((if command == "vgs" then vgs_text else pvs_text, none), w);
  execute_command_resident_binary = λ command w. (ok tt, w);
  file_exists = λ path w. true;
}

parsed : parse_vgs vgs_text ≡ ok (group ∷ v1 ∷ [])
unfolding parse_vgs parse_report rows_of row_of remove_all set_vg run
parsed = refl

-- A field without "=" is an index out of range.
malformed : parse_vgs "WARNING" ≡ err panic
unfolding parse_vgs parse_report rows_of row_of remove_all set_vg run
malformed = refl

plain_text : (s : String) → passes s ≡ true → IsPlain s
plain_text = passes-IsPlain

node-Prints : Prints node (λ w. group ∷ v1 ∷ []) (λ w. loop2 ∷ [])
node-Prints = record {
  vgs_printed = λ w.
      unfold print_report trimmed print_line spaces print_row print_field join cat show_uint in
      refl;
  pvs_printed = λ w.
      unfold print_report trimmed print_line spaces print_row print_field join cat show_uint in
      refl;
  vgs_plain = λ w. (plain_group, (plain_v1, tt));
  pvs_plain = λ w. (plain_loop2, tt);
}
  where
    plain_group : PlainVg group
    plain_group = record {
      name = plain_text "lvmvg" (unfold passes without in refl);
      attr = plain_text "wz--n-" (unfold passes without in refl);
      pv_bound = omega arith;
      lv_bound = omega arith;
      size_bound = omega arith;
      free_bound = omega arith;
      no_pvs = refl;
    }

    plain_v1 : PlainVg v1
    plain_v1 = record {
      name = plain_text "v1" (unfold passes without in refl);
      attr = plain_text "wz--n-" (unfold passes without in refl);
      pv_bound = omega arith;
      lv_bound = omega arith;
      size_bound = omega arith;
      free_bound = omega arith;
      no_pvs = refl;
    }

    plain_loop2 : PlainPv loop2
    plain_loop2 = record {
      name = plain_text "/dev/loop2" (unfold passes without in refl);
      group = plain_text "lvmvg" (unfold passes without in refl);
      fmt = plain_text "lvm2" (unfold passes without in refl);
      attr = plain_text "a--" (unfold passes without in refl);
      size_bound = omega arith;
      free_bound = omega arith;
    }

lvm2_implement-Reports_example :
    Reports node (λ w. group ∷ v1 ∷ []) (λ w. loop2 ∷ []) node-Prints (lvm2_implement node) 0
lvm2_implement-Reports_example =
    lvm2_implement-Reports node (λ w. group ∷ v1 ∷ []) (λ w. loop2 ∷ []) node-Prints 0

-- The second line of a report
abbrev second_line : Line
second_line = (2, ("LVM2_VG_NAME", "v1") ∷ [])

parse_report-print_report_example :
    parse_report (print_report (second_line ∷ [])) ≡ ok ((("LVM2_VG_NAME", "v1") ∷ []) ∷ [])
parse_report-print_report_example = parse_report-print_report (second_line ∷ []) (
  (
    (
      plain_text "LVM2_VG_NAME" (unfold passes without in refl),
      plain_text "v1" (unfold passes without in refl),
    ),
    tt,
  ),
  tt,
)
