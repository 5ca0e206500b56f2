-- ===== src/Lvm/Report.antt =====
-- The parser of pkg/devicemanager/lvmd/parse.go. A report is a line per row, a row is fields between
-- commas, and a field is NAME='value'.
pub mod Printed
pub mod Layout
pub mod Roundtrip
use carina.Base.{
  String, ℕ, Bool, true, false, ◌||◌, List, [], ◌∷◌, map, split, parse_uint64, has_prefix, keep_if,
  nat_eq, ◌==◌, if◌then◌else◌,
}
use carina.Errors.{Error, panic, Result, ok, err, ◌>>=◌}
use carina.Api.{VgGroup, PvInfo}
use carina.Volume.{LvInfo}
use carina.Reconciler.{parse_uint32}
use Prim.Native.Char.{code}

-- strings.ReplaceAll(s, "'", "") and strings.ReplaceAll(s, " ", "")
unfoldable pub remove_all : ℕ → String → String
remove_all char String.[] = String.[]
remove_all char (String.◌∷◌ c s) =
    let rest = remove_all char s in if nat_eq (code c) char then rest else String.◌∷◌ c rest

-- A field and its value
abbrev pub Row : Type 0
Row = List (String × String)

-- `k[1]` of a field without "=" is out of range.
abbrev pub field_of : List String → Result (String × String)
field_of [] = err panic
field_of (k ∷ []) = err panic
field_of (k ∷ v ∷ _) = ok (k, v)

unfoldable pub row_of : List String → Result Row
row_of [] = ok []
row_of (v ∷ vs) = do field ← field_of (split b'=' v); fields ← row_of vs; ok (field ∷ fields)

unfoldable pub rows_of : List String → Result (List Row)
unfolding row_of
rows_of [] = ok []
rows_of (line ∷ lines) = do row ← row_of (split b',' line); rows ← rows_of lines; ok (row ∷ rows)

-- What the three parsers do with the text before they look at the names
unfoldable pub parse_report : String → Result (List Row)
unfolding rows_of remove_all
parse_report text =
    if text == "" then ok [] else rows_of (split b'\n' (remove_all b' ' (remove_all b'\'' text)))

-- The loop over the fields of a row
abbrev pub fill : {T : Type 0} → (String → String → T → T) → Row → T → T
fill set [] t = t
fill set ((k, v) ∷ row) t = fill set row (set k v t)

unfoldable pub set_vg : String → String → VgGroup → VgGroup
set_vg k v g =
    if k == "LVM2_VG_NAME"
    then record g { vg_name = v }
    else if k == "LVM2_PV_COUNT"
    then record g { pv_count = parse_uint64 v }
    else if k == "LVM2_LV_COUNT"
    then record g { lv_count = parse_uint64 v }
    else if k == "LVM2_VG_ATTR"
    then record g { vg_attr = v }
    else if k == "LVM2_VG_SIZE"
    then record g { vg_size = parse_uint64 v }
    else if k == "LVM2_VG_FREE"
    then record g { vg_free = parse_uint64 v }
    else g

unfoldable pub set_pv : String → String → PvInfo → PvInfo
set_pv k v p =
    if k == "LVM2_PV_NAME"
    then record p { pv_name = v }
    else if k == "LVM2_VG_NAME"
    then record p { vg_name = v }
    else if k == "LVM2_PV_FMT"
    then record p { pv_fmt = v }
    else if k == "LVM2_PV_ATTR"
    then record p { pv_attr = v }
    else if k == "LVM2_PV_SIZE"
    then record p { pv_size = parse_uint64 v }
    else if k == "LVM2_PV_FREE"
    then record p { pv_free = parse_uint64 v }
    else p

-- Without the fields that LvInfo here leaves out: path, origin, thin count, tags, attributes.
unfoldable pub set_lv : String → String → LvInfo → LvInfo
unfolding parse_uint32
set_lv k v l =
    if k == "LVM2_LV_NAME"
    then record l { lv_name = v }
    else if k == "LVM2_VG_NAME"
    then record l { vg_name = v }
    else if k == "LVM2_LV_SIZE"
    then record l { lv_size = parse_uint64 v }
    else if k == "LVM2_LV_KERNEL_MAJOR"
    then record l { lv_kernel_major = parse_uint32 v }
    else if k == "LVM2_LV_KERNEL_MINOR"
    then record l { lv_kernel_minor = parse_uint32 v }
    else if k == "LVM2_POOL_LV"
    then record l { pool_lv = v }
    else l

abbrev pub no_vg : VgGroup
no_vg = record {
  vg_name = "";
  pv_count = 0;
  lv_count = 0;
  vg_attr = "";
  vg_size = 0;
  vg_free = 0;
  pvs = [];
}

abbrev pub no_pv : PvInfo
no_pv = record { pv_name = ""; vg_name = ""; pv_fmt = ""; pv_attr = ""; pv_size = 0; pv_free = 0 }

abbrev pub no_lv : LvInfo
no_lv = record {
  lv_name = "";
  vg_name = "";
  lv_size = 0;
  lv_kernel_major = 0;
  lv_kernel_minor = 0;
  pool_lv = "";
}

unfoldable pub parse_vgs : String → Result (List VgGroup)
unfolding set_vg
parse_vgs text = do rows ← parse_report text; ok (map (λ row. fill set_vg row no_vg) rows)

unfoldable pub parse_pvs : String → Result (List PvInfo)
unfolding set_pv
parse_pvs text = do rows ← parse_report text; ok (map (λ row. fill set_pv row no_pv) rows)

-- Volumes of other programs are left out.
unfoldable pub is_ours : LvInfo → Bool
is_ours l = has_prefix l.lv_name "volume-" || has_prefix l.lv_name "thin-"

unfoldable pub parse_lvs : String → Result (List LvInfo)
unfolding set_lv is_ours
parse_lvs text = do
  rows ← parse_report text
  ok (keep_if is_ours (map (λ row. fill set_lv row no_lv) rows))
