-- ===== src/Lvm/Driver.antt =====
-- Lvm2Implement of lvm.go: the interface that the volume manager uses, over an executor.
use carina.Base.{
  String, ℕ, ◌/◌, ◌^◌, Option, none, some, List, [], ◌∷◌, ◌++◌, contains, show_uint, ◌<>◌, ◌==◌,
  if◌then◌else◌,
}
use carina.Errors.{Error, plain, Result, ok, err, ◌>>=◌}
use carina.Api.{VgGroup, PvInfo}
use carina.Volume.{Op, Lvm2, LvInfo, ◌>>◌}
use carina.Lvm.{Executor}
use carina.Lvm.Report.{parse_vgs, parse_pvs, parse_lvs}

-- `for ... { if x.Name == name { return &x } }`
abbrev pub named : {A : Type 0} → (A → String) → String → Error → List A → Result (Option A)
named name_of name missing [] = err missing
named name_of name missing (a ∷ rows) =
    let rest = named name_of name missing rows in if name_of a == name then ok (some a) else rest

-- fmt.Sprintf("%vg", size>>30)
abbrev pub in_gb : ℕ → String
in_gb size = show_uint (size / 2 ^ 30) <> "g"

abbrev pub path_of : (vg lv : String) → String
path_of vg lv = vg <> ("/" <> lv)

abbrev report_args : List String
report_args =
    "--noheadings" ∷ "--separator=," ∷ "--units=b" ∷ "--nosuffix" ∷ "--unbuffered"
    ∷ "--nameprefixes" ∷ []

-- Empty names are not passed to the commands.
abbrev optional : String → List String
optional name = if name == "" then [] else name ∷ []

add_tags : List String → List String
add_tags [] = []
add_tags (tag ∷ tags) =
    let rest = add_tags tags in if tag == "" then rest else ("--add-tag=" <> tag) ∷ rest

-- The output of a report, or its error
abbrev pub output_of : {A : Type 0} → (String → Result A) → String × Option Error → Result A
output_of parse (text, none) = parse text
output_of parse (text, some e) = err e

-- LVS hides one failure, and makes the output the text of any other.
abbrev pub lvs_output : String × Option Error → Result (List LvInfo)
lvs_output (text, none) = parse_lvs text
lvs_output (text, some e) =
    if contains text "Failed to find logical volume" then ok [] else err (plain text)

abbrev first_lv : List LvInfo → Result (Option LvInfo)
first_lv [] = err (plain "not found")
first_lv (lv ∷ _) = ok (some lv)

module _ {W : Type 0} (ex : Executor W) where
  open ex use {execute_command, execute_command_with_output}

  abbrev pub vgs_args : List String
  vgs_args = "-o" ∷ "VG_NAME,PV_COUNT,LV_COUNT,VG_ATTR,VG_SIZE,VG_FREE" ∷ report_args

  abbrev pub pvs_args : List String
  pvs_args = report_args

  unfoldable pub pvs : W → Result (List PvInfo)
  pvs w = output_of parse_pvs (execute_command_with_output "pvs" pvs_args w).0

  unfoldable pub pv_display : String → W → Result (Option PvInfo)
  unfolding pvs
  pv_display dev w = do infos ← pvs w; named (λ p. p.pv_name) dev (plain "disk not found") infos

  unfoldable pub vgs : W → Result (List VgGroup)
  vgs w = output_of parse_vgs (execute_command_with_output "vgs" vgs_args w).0

  unfoldable pub vg_display : String → W → Result (Option VgGroup)
  unfolding vgs
  vg_display vg w = do groups ← vgs w; named (λ g. g.vg_name) vg (plain "vg not found") groups

  unfoldable pub lvs : String → W → Result (List LvInfo)
  lvs lv_name w =
      lvs_output
        (execute_command_with_output "lvs"
          ("-o"
            ∷ "lv_name,vg_name,lv_path,lv_size,data_percent,lv_attr,lv_kernel_major,lv_kernel_minor,origin,origin_size,pool_lv,thin_count,lv_tags,lv_active"
            ∷ (report_args ++ optional lv_name))
          w).0

  unfoldable pub lv_display : (lv vg : String) → W → Result (Option LvInfo)
  unfolding lvs
  lv_display lv vg w = do infos ← lvs (path_of vg lv) w; first_lv infos

  unfoldable pub vg_create : (vg : String) → (tags pvs : List String) → Op W (Unit {0})
  unfolding add_tags
  vg_create vg tags pvs = execute_command "vgcreate" (add_tags tags ++ vg ∷ pvs)

  -- The data is moved away first; that there is none is no failure.
  abbrev moved : (String × Option Error) × W → Result (Unit {0}) × W
  moved ((text, none), w) = (ok tt, w)
  moved ((text, some e), w) = if contains text "No data to move" then (ok tt, w) else (err e, w)

  unfoldable pub vg_reduce : (vg pv : String) → Op W (Unit {0})
  vg_reduce vg pv = do
    (λ w. moved (execute_command_with_output "pvmove" (pv ∷ []) w))
    execute_command "vgreduce" (vg ∷ pv ∷ [])
    execute_command "pvremove" (pv ∷ [])

  unfoldable pub lv_remove : (lv vg : String) → Op W (Unit {0})
  lv_remove lv vg = execute_command "lvremove" ("-f" ∷ path_of vg lv ∷ [])

  -- The volume manager gives no tags, stripes and stripe size.
  unfoldable pub lv_create_from_vg : (lv vg : String) → ℕ → Op W (Unit {0})
  lv_create_from_vg lv vg size =
      execute_command "lvcreate" ("-n" ∷ lv ∷ "-L" ∷ in_gb size ∷ "-W" ∷ "y" ∷ "-y" ∷ vg ∷ [])

  unfoldable pub lv_resize : (lv vg : String) → ℕ → Op W (Unit {0})
  lv_resize lv vg size = execute_command "lvresize" ("-L" ∷ in_gb size ∷ path_of vg lv ∷ [])

  unfoldable pub resize_thin_pool : (lv vg : String) → ℕ → Op W (Unit {0})
  resize_thin_pool lv vg size =
      execute_command "lvresize" ("-f" ∷ "-L" ∷ in_gb size ∷ path_of vg lv ∷ [])

  unfoldable pub start_lvm2 : Op W (Unit {0})
  start_lvm2 w =
      if ex.file_exists "/run/lvm/lvmpolld.socket" w
      then (ok tt, w)
      else ex.execute_command_resident_binary "lvmpolld" w

  unfoldable pub lvm2_implement : Lvm2 W
  unfolding pvs pv_display vgs vg_display lvs lv_display vg_create vg_reduce lv_remove
      lv_create_from_vg lv_resize resize_thin_pool start_lvm2
  lvm2_implement = record {
    pv_display = pv_display;
    pvs = pvs;
    pv_create = λ dev. execute_command "pvcreate" (dev ∷ []);
    pv_remove = λ dev. execute_command "pvremove" (dev ∷ []);
    pv_scan = λ dev. execute_command "pvscan" ("--cache" ∷ optional dev);
    vg_display = vg_display;
    vgs = vgs;
    vg_create = vg_create;
    vg_remove = λ vg. execute_command "vgremove" ("-f" ∷ vg ∷ []);
    vg_scan = λ vg. execute_command "vgscan" ("--cache" ∷ optional vg);
    vg_extend = λ vg pv. execute_command "vgextend" (vg ∷ pv ∷ []);
    vg_reduce = vg_reduce;
    remove_unknown_device = λ vg. execute_command "vgreduce" ("--removemissing" ∷ vg ∷ []);
    start_lvm2 = start_lvm2;
    lv_display = lv_display;
    lvs = lvs;
    lv_create_from_vg = lv_create_from_vg;
    lv_remove = lv_remove;
    lv_resize = lv_resize;
    resize_thin_pool = resize_thin_pool;
    delete_thin_pool = lv_remove;
  }

  -- The operations of the Go interface that the volume manager does not call
  unfoldable pub pv_check : String → W → (String × Option Error) × W
  pv_check dev = execute_command_with_output "pvck" (dev ∷ [])

  unfoldable pub create_thin_pool : (lv vg : String) → ℕ → Op W (Unit {0})
  create_thin_pool lv vg size =
      execute_command "lvcreate" ("-T" ∷ path_of vg lv ∷ "--size" ∷ in_gb size ∷ [])

  unfoldable pub lv_create_from_pool : (lv thin vg : String) → ℕ → Op W (Unit {0})
  lv_create_from_pool lv thin vg size =
      execute_command "lvcreate" ("-T" ∷ path_of vg thin ∷ "-n" ∷ lv ∷ "-V" ∷ in_gb size ∷ [])

  unfoldable pub create_snapshot : (snap lv vg : String) → Op W (Unit {0})
  create_snapshot snap lv vg =
      execute_command "lvcreate" ("-s" ∷ path_of vg lv ∷ "-n" ∷ snap ∷ "-ay" ∷ "-Ky" ∷ [])

  unfoldable pub delete_snapshot : (snap vg : String) → Op W (Unit {0})
  unfolding lv_remove
  delete_snapshot snap vg = lv_remove snap vg

  unfoldable pub restore_snapshot : (snap vg : String) → Op W (Unit {0})
  restore_snapshot snap vg = execute_command "lvconvert" ("--merge" ∷ path_of vg snap ∷ [])
