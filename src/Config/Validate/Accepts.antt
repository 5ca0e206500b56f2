-- ===== src/Config/Validate/Accepts.antt =====
-- Which configurations validate accepts.
use carina.Base.{
  String, pos, ◌≡◌, ◌≢◌, ◌↔◌, ◌≤ℤ◌, true, false, List, [], ◌∷◌, All, to_lower, arith, eq_iff, ◌⊎◌,
  refl,
}
use carina.Errors.{ok}
use carina.Config.{Disk, DiskSelectorItem, contains_string, binpack, spreadout}
use carina.Config.Validate.{disk_name_matches, validate_selectors, validate}

-- No two items have the same name.
pub Distinct : List DiskSelectorItem → Type 0
Distinct [] = Unit
Distinct (d ∷ ds) = All (λ e. d.name ≢ e.name) ds × Distinct ds

abbrev Named : List String → DiskSelectorItem → Type 0
Named seen d =
    (d.name ≢ "") × (disk_name_matches d.name ≡ true) × (contains_string seen d.name ≡ false)

pub record IsValid (disk : Disk) : Type 0 where
  pub interval : pos 0 ≤ℤ disk.disk_scan_interval
  pub strategy :
      (to_lower disk.scheduler_strategy ≡ "")
      ⊎ ((to_lower disk.scheduler_strategy ≡ binpack)
          ⊎ (to_lower disk.scheduler_strategy ≡ spreadout))
  pub names : All (λ d. (d.name ≢ "") × (disk_name_matches d.name ≡ true)) disk.disk_selectors
  pub distinct : Distinct disk.disk_selectors

one_step :
    (seen : List String) (d : DiskSelectorItem) (ds : List DiskSelectorItem)
    → (validate_selectors seen (d ∷ ds) ≡ ok tt)
      ↔ Named seen d × (validate_selectors (d.name ∷ seen) ds ≡ ok tt)
unfolding validate_selectors
one_step seen d ds = ground (arith, eq_iff d.name "")

split_seen :
    (d : DiskSelectorItem) (seen : List String) (ds : List DiskSelectorItem)
    → All (Named (d.name ∷ seen)) ds
    → All (Named seen) ds × All (λ e. d.name ≢ e.name) ds
unfolding contains_string
split_seen d seen [] h = (tt, tt)
split_seen d seen (e ∷ ds) h =
    let rest = split_seen d seen ds h.1 in
    let here = h.0 in
    ((ground (arith, here), rest.0), (ground (arith, here, eq_iff d.name e.name), rest.1))

join_seen :
    (d : DiskSelectorItem) (seen : List String) (ds : List DiskSelectorItem)
    → All (Named seen) ds
    → All (λ e. d.name ≢ e.name) ds
    → All (Named (d.name ∷ seen)) ds
unfolding contains_string
join_seen d seen [] h other = tt
join_seen d seen (e ∷ ds) h other =
    let here = h.0 in
    let differs = other.0 in
    (ground (arith, here, differs, eq_iff d.name e.name), join_seen d seen ds h.1 other.1)

accepted :
    (seen : List String) (ds : List DiskSelectorItem)
    → validate_selectors seen ds ≡ ok tt
    → All (Named seen) ds × Distinct ds
unfolding Distinct
accepted seen [] h = (tt, tt)
accepted seen (d ∷ ds) h =
    let (here, later) = (one_step seen d ds).0 h in
    let (named, distinct) = accepted (d.name ∷ seen) ds later in
    let (old, new) = split_seen d seen ds named in ((here, old), (new, distinct))

accepts :
    (seen : List String) (ds : List DiskSelectorItem)
    → All (Named seen) ds
    → Distinct ds
    → validate_selectors seen ds ≡ ok tt
unfolding Distinct validate_selectors
accepts seen [] named distinct = refl
accepts seen (d ∷ ds) named distinct =
    (one_step seen d ds).1
      (named.0, accepts (d.name ∷ seen) ds (join_seen d seen ds named.1 distinct.0) distinct.1)

strip_seen :
    (ds : List DiskSelectorItem)
    → All (Named []) ds ↔ All (λ d. (d.name ≢ "") × (disk_name_matches d.name ≡ true)) ds
unfolding contains_string
strip_seen [] = (λ h. tt, λ h. tt)
strip_seen (d ∷ ds) =
    let rest = strip_seen ds in
    (λ h. ((h.0.0, h.0.1), rest.0 h.1), λ h. ((h.0.0, h.0.1, refl), rest.1 h.1))

settings :
    (disk : Disk)
    → (validate disk ≡ ok tt)
      ↔ (pos 0 ≤ℤ disk.disk_scan_interval)
        × ((to_lower disk.scheduler_strategy ≡ "")
            ⊎ ((to_lower disk.scheduler_strategy ≡ binpack)
                ⊎ (to_lower disk.scheduler_strategy ≡ spreadout)))
        × (validate_selectors [] disk.disk_selectors ≡ ok tt)
unfolding validate contains_string
settings disk = ground (
  arith,
  eq_iff "" (to_lower disk.scheduler_strategy),
  eq_iff "binpack" (to_lower disk.scheduler_strategy),
  eq_iff "spreadout" (to_lower disk.scheduler_strategy),
)

-- A configuration is accepted exactly when its interval is not negative, its strategy is empty or
-- one of the two up to case, and its groups have well-formed names, each its own.
pub validate-IsValid : (disk : Disk) → (validate disk ≡ ok tt) ↔ IsValid disk
validate-IsValid disk = (
  λ h.
      let (interval, strategy, rest) = (settings disk).0 h in
      let (named, distinct) = accepted [] disk.disk_selectors rest in
      record {
        interval = interval;
        strategy = strategy;
        names = (strip_seen disk.disk_selectors).0 named;
        distinct = distinct;
      },
  λ v. (settings disk).1 (
    v.interval,
    v.strategy,
    accepts [] disk.disk_selectors ((strip_seen disk.disk_selectors).1 v.names) v.distinct,
  ),
)
