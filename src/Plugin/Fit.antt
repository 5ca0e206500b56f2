-- ===== src/Plugin/Fit.antt =====
-- `minimumValueMinus` of scheduler/schedulerplugin/localstorage/storage-plugins.go and the loop of
-- `Filter` that calls it: best fit of the requested volumes into the raw disks of a node.
pub mod Packing
use carina.Base.{
  ℕ, suc, ℤ, pos, negsuc, ◌≡◌, refl, Bool, true, false, Option, none, some, List, [], ◌∷◌, ltb_ℤ,
  leb_ℤ, gb_up, sub64, sort_by, if◌then◌else◌,
}

-- `request` in bytes
pub record PvcRequest : Type 0 where
  pub exclusive : Bool
  pub request : ℤ

-- The loop over the sorted list: the first value that is large enough is reduced, or set to 0 for
-- an exclusive request. The index comes back with the array.
abbrev next_index : ℤ → Option (ℕ × List ℤ) → Option (ℕ × List ℤ)
next_index a none = none
next_index a (some (i, rest)) = some (suc i, a ∷ rest)

take_first : Bool → ℤ → List ℤ → Option (ℕ × List ℤ)
take_first exclusive request_gb [] = none
take_first exclusive request_gb (a ∷ array) =
    if leb_ℤ request_gb a
    then some (0, (if exclusive then pos 0 else sub64 a request_gb) ∷ array)
    else next_index a (take_first exclusive request_gb array)

-- The array as the call leaves it, sorted and reduced, and the index or -1.
abbrev chosen : List ℤ → Option (ℕ × List ℤ) → List ℤ × ℤ
chosen sorted none = (sorted, negsuc 0)
chosen sorted (some (i, array)) = (array, pos i)

unfoldable pub minimum_value_minus : List ℤ → PvcRequest → List ℤ × ℤ
unfolding take_first
minimum_value_minus array pvc_r =
    let sorted = sort_by (λ a. a) array in
    chosen sorted (take_first pvc_r.exclusive (gb_up pvc_r.request) sorted)

-- `for _, pvcR := range pvcRequests`: false as soon as a request finds no disk
unfoldable pub all_placed : List ℤ → List PvcRequest → Bool
all_placed array [] = true
all_placed array (pvc_r ∷ requests) =
    let (array', index) = minimum_value_minus array pvc_r in
    elim (ltb_ℤ index (pos 0)) [ true ↦ false | false ↦ all_placed array' requests ]
