-- ===== src/Config/Validate.antt =====
-- validate of pkg/configuration/config.go. The three patterns are written out: the interval in
-- decimal digits, a strategy or none, and a name of letters, digits, '-', '_' and '.' that starts
-- and ends with a letter or a digit. The message about the interval leaves out the number, and
-- (?i) is read on ASCII letters.
pub mod Accepts
use Prim.Native.Char.{Char, code}
use carina.Base.{
  ◌<>◌, String, ℤ, pos, ℕ, ◌≡◌, ◌≢◌, ◌≤ℤ◌, leb_ℤ, ltb_ℤ, leb, nat_eq, Bool, true, false, ◌&&◌, ◌||◌,
  not, List, [], ◌∷◌, All, In, any, to_lower, ◌==◌, if◌then◌else◌, arith, eq_iff, Bool-cases, ◌⊎◌,
  inl, inr, refl,
}
use carina.Errors.{Error, plain, Result, ok, err, fail_if, ◌>>◌}
use carina.Config.{Disk, DiskSelectorItem, contains_string, binpack, spreadout}

within : ℕ → ℕ → ℕ → Bool
within low high c = leb low c && leb c high

-- [A-Za-z0-9]
alphanumeric : Char → Bool
unfolding within
alphanumeric c = within 65 90 (code c) || within 97 122 (code c) || within 48 57 (code c)

-- [-A-Za-z0-9_.]
name_char : Char → Bool
unfolding alphanumeric
name_char c = alphanumeric c || nat_eq (code c) b'-' || nat_eq (code c) b'_' || nat_eq (code c) b'.'

-- The rest of a name after its first character
name_rest : Char → String → Bool
unfolding name_char
name_rest c String.[] = alphanumeric c
name_rest c (String.◌∷◌ d s) = name_char c && name_rest d s

unfoldable pub disk_name_matches : String → Bool
unfolding name_rest
disk_name_matches String.[] = false
disk_name_matches (String.◌∷◌ c s) = alphanumeric c && name_rest c s

-- The items in order, with the names seen before
unfoldable pub validate_selectors : List String → List DiskSelectorItem → Result (Unit {0})
validate_selectors vg_group [] = ok tt
validate_selectors vg_group (dc ∷ selectors) = do
  fail_if (dc.name == "") (plain "disk name should not be empty")
  fail_if (not (disk_name_matches dc.name)) (
      plain (
        "disk name should consist of alphanumeric characters, '-', '_' or '.', and should start and end with an alphanumeric character: "
        <> dc.name))
  fail_if (contains_string vg_group dc.name) (plain ("duplicate vg group: " <> dc.name))
  validate_selectors (dc.name ∷ vg_group) selectors

unfoldable pub validate : Disk → Result (Unit {0})
unfolding validate_selectors
validate disk = do
  fail_if (ltb_ℤ disk.disk_scan_interval (pos 0)) (plain "diskScanInterval must be a number")
  fail_if (not (contains_string ("" ∷ binpack ∷ spreadout ∷ []) (to_lower disk.scheduler_strategy)))
      (plain ("SchedulerStrategy must either binpack or spradout : " <> disk.scheduler_strategy))
  validate_selectors [] disk.disk_selectors
