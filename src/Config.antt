-- ===== src/Config.antt =====
-- The disk configuration: pkg/configuration/config.go, the device groups of
-- pkg/csidriver/driver/util/util.go and the scheduler's copy, scheduler/configuration/config.go.
-- Reading and watching the file is viper's; the decoded value is an argument here.
pub mod Validate
pub mod Strategy
pub mod Examples
use carina.Base.{
  String, ℤ, pos, ◌≡◌, refl, Bool, true, false, ◌&&◌, ◌||◌, List, [], ◌∷◌, any, to_lower, ltb_ℤ,
  leb_ℤ, ◌==◌, if◌then◌else◌,
}

pub record DiskSelectorItem : Type 0 where
  pub name : String
  pub re : List String
  pub policy : String
  pub node_label : String

pub record Disk : Type 0 where
  pub disk_selectors : List DiskSelectorItem
  pub disk_scan_interval : ℤ
  pub scheduler_strategy : String

-- utils.ContainsString; the scheduler has the same function in scheduler/utils/utils.go.
unfoldable pub contains_string : List String → String → Bool
contains_string [] s = false
contains_string (item ∷ slice) s = item == s || contains_string slice s

-- fmt.Sprintf("carina-vg-%s", group), for the two groups that old storage classes name
abbrev pub old_style : List String
old_style = "ssd" ∷ "hdd" ∷ []

unfoldable pub with_vg_prefix : String → String
unfolding contains_string
with_vg_prefix group =
    if group == "ssd" then "carina-vg-ssd" else if group == "hdd" then "carina-vg-hdd" else group

-- Does an item of this name and policy stand in the configuration?
unfoldable pub has_policy : String → String → List DiskSelectorItem → Bool
has_policy group policy [] = false
has_policy group policy (v ∷ selectors) =
    v.name == group && to_lower v.policy == policy || has_policy group policy selectors

-- DiskSelector(): empty while a test has set TestAssistDiskSelector
unfoldable pub disk_selector : (test_assist : List String) → Disk → List DiskSelectorItem
disk_selector [] disk = disk.disk_selectors
disk_selector (_ ∷ _) disk = []

-- The same function in util.go and in the scheduler's config.go
unfoldable pub check_raw_device_group : List DiskSelectorItem → String → Bool
unfolding with_vg_prefix has_policy
check_raw_device_group selectors disk_type =
    has_policy (with_vg_prefix (to_lower disk_type)) "raw" selectors

unfoldable pub check_host_device_group : List DiskSelectorItem → String → Bool
unfolding has_policy
check_host_device_group selectors disk_type = has_policy (to_lower disk_type) "host" selectors

-- The lower-cased names of the groups that are not raw
disk_class : List DiskSelectorItem → List String
disk_class [] = []
disk_class (v ∷ selectors) =
    if to_lower v.policy == "raw"
    then disk_class selectors
    else to_lower v.name ∷ disk_class selectors

-- GetDeviceGroup of pkg/csidriver/driver/util/util.go
unfoldable pub get_device_group : List DiskSelectorItem → String → String
unfolding disk_class contains_string with_vg_prefix
get_device_group selectors disk_type =
    let group = to_lower disk_type in
    if contains_string (disk_class selectors) group then group else with_vg_prefix group

-- Does a group that is not raw have exactly this name?
is_configured : String → List DiskSelectorItem → Bool
is_configured disk_type [] = false
is_configured disk_type (d ∷ selectors) =
    if to_lower d.policy == "raw"
    then is_configured disk_type selectors
    else d.name == disk_type || is_configured disk_type selectors

-- GetDeviceGroup of scheduler/configuration/config.go compares the names as they are written.
unfoldable pub plugin_device_group : List DiskSelectorItem → String → String
unfolding is_configured with_vg_prefix
plugin_device_group selectors disk_type =
    if is_configured disk_type selectors then disk_type else with_vg_prefix (to_lower disk_type)

-- GetHostDevicePath
abbrev first_path : List String → String
first_path [] = "/opt/carina-hostpath"
first_path (path ∷ _) = path

unfoldable pub get_host_device_path : List DiskSelectorItem → String → String
get_host_device_path [] disk_type = "/opt/carina-hostpath"
get_host_device_path (v ∷ selectors) disk_type =
    if v.name == to_lower disk_type && to_lower v.policy == "host"
    then first_path v.re
    else get_host_device_path selectors disk_type

-- GetRawDeviceGroupRe; the Go function returns nil where this one returns no pattern.
find_raw_re : String → List DiskSelectorItem → List String
find_raw_re group [] = []
find_raw_re group (v ∷ selectors) =
    if v.name == group && to_lower v.policy == "raw" then v.re else find_raw_re group selectors

unfoldable pub get_raw_device_group_re : List DiskSelectorItem → String → List String
unfolding find_raw_re with_vg_prefix
get_raw_device_group_re selectors disk_type =
    find_raw_re (with_vg_prefix (to_lower disk_type)) selectors

-- DiskScanInterval() of the configured number of seconds: 0 switches the scan off, and anything
-- else is at least 300.
unfoldable pub disk_scan_interval : ℤ → ℤ
disk_scan_interval configured =
    if leb_ℤ configured (pos 0) && leb_ℤ (pos 0) configured
    then pos 0
    else if ltb_ℤ configured (pos 300)
    then pos 300
    else configured

-- SchedulerStrategy() of pkg/configuration/config.go and of scheduler/configuration/config.go: they
-- differ in what they fall back to.
abbrev pub binpack : String
binpack = "binpack"

abbrev pub spreadout : String
spreadout = "spreadout"

strategy_or : String → String → String
strategy_or fallback configured =
    let lowered = to_lower configured in
    if contains_string (binpack ∷ spreadout ∷ []) lowered then lowered else fallback

unfoldable pub controller_strategy : String → String
unfolding strategy_or contains_string
controller_strategy configured = strategy_or spreadout configured

unfoldable pub plugin_strategy : String → String
unfolding strategy_or contains_string
plugin_strategy configured = strategy_or binpack configured
