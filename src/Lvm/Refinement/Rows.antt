-- ===== src/Lvm/Refinement/Rows.antt =====
-- The rows that stand for groups and physical volumes.
use carina.Base.{
  without, arith, Bool, true, ◌&&◌, String, ℕ, ◌^◌, ◌<◌, ◌≡◌, refl, sym, ap, subst, ◌∙◌, List, [],
  ◌∷◌, map, All, show_uint, parse_uint64-show_uint, without-show_uint,
}
use carina.Errors.{ok}
use carina.Api.{VgGroup, PvInfo}
use carina.Lvm.Report.{Row, parse_report, fill, set_vg, set_pv, no_vg, no_pv, parse_vgs, parse_pvs}
use carina.Lvm.Report.Layout.{IsPlain, PlainRow, print_report, trimmed, trimmed-rows}
use carina.Lvm.Report.Roundtrip.{parse_report-print_report}

abbrev pub row_of_vg : VgGroup → Row
row_of_vg g =
    ("LVM2_VG_NAME", g.vg_name)
    ∷ ("LVM2_PV_COUNT", show_uint g.pv_count)
    ∷ ("LVM2_LV_COUNT", show_uint g.lv_count)
    ∷ ("LVM2_VG_ATTR", g.vg_attr)
    ∷ ("LVM2_VG_SIZE", show_uint g.vg_size)
    ∷ ("LVM2_VG_FREE", show_uint g.vg_free)
    ∷ []

abbrev pub row_of_pv : PvInfo → Row
row_of_pv p =
    ("LVM2_PV_NAME", p.pv_name)
    ∷ ("LVM2_VG_NAME", p.vg_name)
    ∷ ("LVM2_PV_FMT", p.pv_fmt)
    ∷ ("LVM2_PV_ATTR", p.pv_attr)
    ∷ ("LVM2_PV_SIZE", show_uint p.pv_size)
    ∷ ("LVM2_PV_FREE", show_uint p.pv_free)
    ∷ []

-- Names that a report can hold, numbers of 64 bits, and the list that the parser leaves empty
pub record PlainVg (g : VgGroup) : Type 0 where
  pub name : IsPlain g.vg_name
  pub attr : IsPlain g.vg_attr
  pub pv_bound : g.pv_count < 2 ^ 64
  pub lv_bound : g.lv_count < 2 ^ 64
  pub size_bound : g.vg_size < 2 ^ 64
  pub free_bound : g.vg_free < 2 ^ 64
  pub no_pvs : g.pvs ≡ []

pub record PlainPv (p : PvInfo) : Type 0 where
  pub name : IsPlain p.pv_name
  pub group : IsPlain p.vg_name
  pub fmt : IsPlain p.pv_fmt
  pub attr : IsPlain p.pv_attr
  pub size_bound : p.pv_size < 2 ^ 64
  pub free_bound : p.pv_free < 2 ^ 64

-- The digits of a number are plain.
show_uint-IsPlain : (n : ℕ) → IsPlain (show_uint n)
show_uint-IsPlain n = record {
  quote = without-show_uint b'\'' n refl;
  space = without-show_uint b' ' n refl;
  comma = without-show_uint b',' n refl;
  equals = without-show_uint b'=' n refl;
  newline = without-show_uint b'\n' n refl;
}

-- All of the tests that a plain text passes
unfoldable pub passes : String → Bool
passes s =
    without b'\'' s && (without b' ' s && (without b',' s && (without b'=' s && without b'\n' s)))

pub passes-IsPlain : (s : String) → passes s ≡ true → IsPlain s
unfolding passes
passes-IsPlain s h = record {
  quote = ground (arith, h);
  space = ground (arith, h);
  comma = ground (arith, h);
  equals = ground (arith, h);
  newline = ground (arith, h);
}

row_of_vg-Plain : (g : VgGroup) → PlainVg g → PlainRow (row_of_vg g)
unfolding passes without
row_of_vg-Plain g p = (
  (passes-IsPlain "LVM2_VG_NAME" refl, p.name),
  (
    (passes-IsPlain "LVM2_PV_COUNT" refl, show_uint-IsPlain g.pv_count),
    (
      (passes-IsPlain "LVM2_LV_COUNT" refl, show_uint-IsPlain g.lv_count),
      (
        (passes-IsPlain "LVM2_VG_ATTR" refl, p.attr),
        (
          (passes-IsPlain "LVM2_VG_SIZE" refl, show_uint-IsPlain g.vg_size),
          ((passes-IsPlain "LVM2_VG_FREE" refl, show_uint-IsPlain g.vg_free), tt),
        ),
      ),
    ),
  ),
)

row_of_pv-Plain : (v : PvInfo) → PlainPv v → PlainRow (row_of_pv v)
unfolding passes without
row_of_pv-Plain v p = (
  (passes-IsPlain "LVM2_PV_NAME" refl, p.name),
  (
    (passes-IsPlain "LVM2_VG_NAME" refl, p.group),
    (
      (passes-IsPlain "LVM2_PV_FMT" refl, p.fmt),
      (
        (passes-IsPlain "LVM2_PV_ATTR" refl, p.attr),
        (
          (passes-IsPlain "LVM2_PV_SIZE" refl, show_uint-IsPlain v.pv_size),
          ((passes-IsPlain "LVM2_PV_FREE" refl, show_uint-IsPlain v.pv_free), tt),
        ),
      ),
    ),
  ),
)

-- A row gives the group or the volume back.
filled_vg : (g : VgGroup) → PlainVg g → fill set_vg (row_of_vg g) no_vg ≡ g
unfolding set_vg
filled_vg g p =
    rw
      (
        parse_uint64-show_uint g.pv_count p.pv_bound,
        parse_uint64-show_uint g.lv_count p.lv_bound,
        parse_uint64-show_uint g.vg_size p.size_bound,
        parse_uint64-show_uint g.vg_free p.free_bound,
      )
      (ap (λ pvs. record g { pvs = pvs }) (sym p.no_pvs))

filled_pv : (v : PvInfo) → PlainPv v → fill set_pv (row_of_pv v) no_pv ≡ v
unfolding set_pv
filled_pv v p =
    rw
      (parse_uint64-show_uint v.pv_size p.size_bound, parse_uint64-show_uint v.pv_free p.free_bound)

all_vgs :
    (groups : List VgGroup)
    → All PlainVg groups
    → All PlainRow (map row_of_vg groups)
      × (map (λ row. fill set_vg row no_vg) (map row_of_vg groups) ≡ groups)
all_vgs [] h = (tt, refl)
all_vgs (g ∷ groups) h =
    let rest = all_vgs groups h.1 in ((row_of_vg-Plain g h.0, rest.0), rw (filled_vg g h.0, rest.1))

all_pvs :
    (volumes : List PvInfo)
    → All PlainPv volumes
    → All PlainRow (map row_of_pv volumes)
      × (map (λ row. fill set_pv row no_pv) (map row_of_pv volumes) ≡ volumes)
all_pvs [] h = (tt, refl)
all_pvs (v ∷ volumes) h =
    let rest = all_pvs volumes h.1 in
    ((row_of_pv-Plain v h.0, rest.0), rw (filled_pv v h.0, rest.1))

parse_trimmed :
    (rows : List Row) → All PlainRow rows → parse_report (print_report (trimmed rows)) ≡ ok rows
parse_trimmed rows h =
    parse_report-print_report (trimmed rows) (subst (All PlainRow) (sym (trimmed-rows rows)) h)
    ∙ ap (λ rs. ok rs) (trimmed-rows rows)

-- parseVgs gives back the groups that vgs prints.
pub parse_vgs-print :
    (groups : List VgGroup)
    → All PlainVg groups
    → parse_vgs (print_report (trimmed (map row_of_vg groups))) ≡ ok groups
unfolding parse_vgs
parse_vgs-print groups h =
    let all = all_vgs groups h in
    rw (parse_trimmed (map row_of_vg groups) all.0) (ap (λ gs. ok gs) all.1)

-- parsePvs gives back the physical volumes that pvs prints.
pub parse_pvs-print :
    (volumes : List PvInfo)
    → All PlainPv volumes
    → parse_pvs (print_report (trimmed (map row_of_pv volumes))) ≡ ok volumes
unfolding parse_pvs
parse_pvs-print volumes h =
    let all = all_pvs volumes h in
    rw (parse_trimmed (map row_of_pv volumes) all.0) (ap (λ vs. ok vs) all.1)
