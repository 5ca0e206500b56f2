-- ===== src/Plugin/Filter/Rooms.antt =====
-- The room for the requests of the device groups.
use carina.Base.{
  String, ℕ, ◌+◌, ◌/◌, ◌-◌, ◌^◌, ◌<◌, ℤ, pos, negsuc, pos_part, ◌≡◌, refl, ap, subst, ◌∙◌, inl, inr,
  true, false, List, [], ◌∷◌, Map, All, get_or, ◌≤ℤ◌, ◌+ℤ◌, leb_ℤ, leb_ℤ→le, add64, to_int64,
  contains, gb_up, gb_up-pos, Bool-cases, arith,
}
use carina.Config.{DiskSelectorItem, check_raw_device_group}
use carina.Plugin.Fit.{PvcRequest}
use carina.Plugin.Fit.Packing.{IsSize, Packs, all_placed-Packs}
use carina.Plugin.Filter.{
  success, insert_down, largest_first, matching_disks, total_bytes, group_fits, groups_fit,
}

-- The exact sum of the requests.
abbrev pub sum_bytes : List PvcRequest → ℕ
sum_bytes [] = 0
sum_bytes (r ∷ rs) = pos_part r.request + sum_bytes rs

-- Requests of sizes whose sum int64 holds too.
abbrev pub AreSizes : List PvcRequest → Type 0
AreSizes rs = All (λ r. IsSize r.request) rs × (sum_bytes rs < 2 ^ 63)

-- There is room for a group's requests: an assignment to the disks of a raw group, and otherwise
-- the whole GiB of the sum.
abbrev pub Room : List DiskSelectorItem → Map ℤ → String → List PvcRequest → Type 0
Room selectors m group rs =
    (check_raw_device_group selectors group ≡ true
      → Packs (matching_disks group m) (largest_first rs))
    × (check_raw_device_group selectors group ≡ false
        → pos ((sum_bytes rs + (2 ^ 30 - 1)) / 2 ^ 30) ≤ℤ get_or (pos 0) group m)

insert_down-sizes :
    (r : PvcRequest) (rs : List PvcRequest)
    → IsSize r.request
    → All (λ x. IsSize x.request) rs
    → All (λ x. IsSize x.request) (insert_down r rs)
      × (sum_bytes (insert_down r rs) ≡ pos_part r.request + sum_bytes rs)
unfolding insert_down
insert_down-sizes r [] h all = ((h, tt), refl)
insert_down-sizes r (x ∷ rs) h all = elim (Bool-cases (leb_ℤ x.request r.request)) [
  | inl le ↦ rw le ((h, all), refl)
  | inr gt ↦
      rw gt
        (let (sizes, sum) = insert_down-sizes r rs h all.1 in ((all.0, sizes), omega (arith, sum)))
]

largest_first-sizes :
    (rs : List PvcRequest)
    → All (λ x. IsSize x.request) rs
    → All (λ x. IsSize x.request) (largest_first rs) × (sum_bytes (largest_first rs) ≡ sum_bytes rs)
unfolding largest_first
largest_first-sizes [] all = (tt, refl)
largest_first-sizes (r ∷ rs) all =
    let (sizes, sum) = largest_first-sizes rs all.1 in
    let (sizes', sum') = insert_down-sizes r (largest_first rs) all.0 sizes in
    (sizes', omega (arith, sum, sum'))

add64-size :
    (n : ℕ) (a : ℤ) → IsSize a → n + pos_part a < 2 ^ 63 → add64 (pos n) a ≡ pos (n + pos_part a)
unfolding add64 ◌+ℤ◌ to_int64
add64-size n (pos m) h small = ground arith
add64-size n (negsuc m) h small = absurd (omega (arith, h.0))

total_bytes-eq :
    (n : ℕ) (rs : List PvcRequest)
    → All (λ x. IsSize x.request) rs
    → n + sum_bytes rs < 2 ^ 63
    → total_bytes (pos n) rs ≡ pos (n + sum_bytes rs)
unfolding total_bytes
total_bytes-eq n [] all small = ap pos (omega arith)
total_bytes-eq n (r ∷ rs) all small =
    rw (add64-size n r.request all.0 (omega (arith, small))) (
      total_bytes-eq (n + pos_part r.request) rs all.1 (omega (arith, small))
      ∙ ap pos (omega arith))

matching_disks-sizes :
    (group : String) (m : Map ℤ) → All (λ e. IsSize e.1) m → All IsSize (matching_disks group m)
unfolding matching_disks
matching_disks-sizes group [] sizes = tt
matching_disks-sizes group ((lv_group, a) ∷ m) sizes = elim (Bool-cases (contains lv_group group)) [
  | inl yes_ ↦ rw yes_ (sizes.0, matching_disks-sizes group m sizes.1)
  | inr no_ ↦ rw no_ (matching_disks-sizes group m sizes.1)
]

module _ (selectors : List DiskSelectorItem) (m : Map ℤ) (sizes : All (λ e. IsSize e.1) m) where
  group_fits-Room :
      (group : String) (rs : List PvcRequest)
      → AreSizes rs
      → group_fits selectors m group rs ≡ true
      → Room selectors m group rs
  unfolding group_fits
  group_fits-Room group rs asked fits = (
    λ raw.
        all_placed-Packs (largest_first rs) (matching_disks group m)
          (largest_first-sizes rs asked.0).0 (matching_disks-sizes group m sizes) (rw raw at fits),
    λ shared.
        subst (λ gb. gb ≤ℤ get_or (pos 0) group m) total
          (leb_ℤ→le (gb_up (total_bytes (pos 0) (largest_first rs))) (get_or (pos 0) group m)
            (rw shared at fits)),
  )
    where
      sum : sum_bytes (largest_first rs) ≡ sum_bytes rs
      sum = (largest_first-sizes rs asked.0).1

      small : 0 + sum_bytes (largest_first rs) < 2 ^ 63
      small = omega (arith, sum, asked.1)

      total :
          gb_up (total_bytes (pos 0) (largest_first rs))
          ≡ pos ((sum_bytes rs + (2 ^ 30 - 1)) / 2 ^ 30)
      total =
          ap gb_up (total_bytes-eq 0 (largest_first rs) (largest_first-sizes rs asked.0).0 small)
          ∙ ap (λ n. gb_up (pos n)) (omega (arith, sum))
          ∙ gb_up-pos (sum_bytes rs) asked.1

  pub groups_fit-Room :
      (groups : Map (List PvcRequest))
      → All (λ e. AreSizes e.1) groups
      → groups_fit selectors m groups ≡ success
      → All (λ e. Room selectors m e.0 e.1) groups
  unfolding groups_fit
  groups_fit-Room [] asked fits = tt
  groups_fit-Room ((group, rs) ∷ groups) asked fits =
      elim (Bool-cases (group_fits selectors m group rs)) [
        | inl room ↦ (
          group_fits-Room group rs asked.0 room,
          groups_fit-Room groups asked.1 (rw room at fits),
        )
        | inr full ↦ absurd (cc (full, fits))
      ]
