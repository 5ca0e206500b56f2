-- ===== src/Plugin/Fit/Packing.antt =====
-- What the best-fit loop guarantees: an assignment of requests to disks.
use mathlib.Core.List.Permᴰ
use carina.Base.{
  ℕ, ◌+◌, ◌-◌, ◌/◌, ◌^◌, ◌<◌, ℤ, pos, negsuc, ◌≡◌, ◌↔◌, refl, sym, ap, subst, ◌∙◌, inl, inr, Bool,
  true, false, Option, none, some, List, [], ◌∷◌, pos_part, neg_part, ltb_ℤ, leb_ℤ, gb_up,
  gb_up-pos, sub64, to_int64-eq, sort_by, sort_by-perm, All-perm, if◌then◌else◌, ◌-ℤ◌, ◌≤ℤ◌, ◌<ℤ◌,
  leb_ℤ→le, not_leb_ℤ→lt, Permᴰ, All, Bool-cases, arith,
}
use carina.Plugin.Fit.{PvcRequest, take_first, next_index, chosen, minimum_value_minus, all_placed}

-- The size of a request in whole GiB, rounded up.
abbrev pub gib : PvcRequest → ℤ
gib r = pos ((pos_part r.request + (2 ^ 30 - 1)) / 2 ^ 30)

abbrev pub left_on : ℤ → PvcRequest → ℤ
left_on disk r = if r.exclusive then pos 0 else disk -ℤ gib r

-- Each request has a disk that holds it beside the requests before it; the order of the disks is
-- free. An exclusive request leaves nothing of its disk.
pub data Packs : List ℤ → List PvcRequest → Type 0 where
  done : {disks : List ℤ} → Packs disks []
  place :
      {disks : List ℤ} {requests : List PvcRequest} (rest : List ℤ) (disk : ℤ) (r : PvcRequest)
      → Permᴰ disks (disk ∷ rest)
      → gib r ≤ℤ disk
      → Packs (left_on disk r ∷ rest) requests
      → Packs disks (r ∷ requests)

-- A size that int64 holds.
abbrev pub IsSize : ℤ → Type 0
IsSize a = (neg_part a ≡ 0) × (pos_part a < 2 ^ 63)

Packs-perm : {xs ys : List ℤ} {rs : List PvcRequest} → Permᴰ xs ys → Packs ys rs → Packs xs rs
Packs-perm p done = done
Packs-perm p (place rest disk r q fits packs) = place rest disk r (Permᴰ.trans p q) fits packs

abbrev left64 : Bool → ℤ → ℤ → ℤ
left64 exclusive disk gb = if exclusive then pos 0 else sub64 disk gb

-- What `take_first` finds: a disk, the others, and what it leaves.
record Taken (exclusive : Bool) (gb : ℤ) (array array' : List ℤ) : Type 0 where
  disk : ℤ
  rest : List ℤ
  before : Permᴰ array (disk ∷ rest)
  after : Permᴰ array' (left64 exclusive disk gb ∷ rest)
  fits : gb ≤ℤ disk

Taken-cons :
    {exclusive : Bool} {gb : ℤ} {array array' : List ℤ} (a : ℤ)
    → Taken exclusive gb array array'
    → Taken exclusive gb (a ∷ array) (a ∷ array')
Taken-cons a t = record {
  disk = t.disk;
  rest = a ∷ t.rest;
  before = Permᴰ.trans (Permᴰ.cons refl t.before) (Permᴰ.swap refl refl);
  after = Permᴰ.trans (Permᴰ.cons refl t.after) (Permᴰ.swap refl refl);
  fits = t.fits;
}

-- A disk is found, or every disk is too small.
abbrev Found : Bool → ℤ → List ℤ → Option (ℕ × List ℤ) → Type 0
Found exclusive gb array none = All (λ a. a <ℤ gb) array
Found exclusive gb array (some (i, array')) = Taken exclusive gb array array'

Found-next :
    (exclusive : Bool) (gb a : ℤ) (array : List ℤ) (o : Option (ℕ × List ℤ))
    → a <ℤ gb
    → Found exclusive gb array o
    → Found exclusive gb (a ∷ array) (next_index a o)
Found-next exclusive gb a array none small found = (small, found)
Found-next exclusive gb a array (some (i, array')) small found = Taken-cons a found

take_first-Found :
    (exclusive : Bool) (gb : ℤ) (array : List ℤ)
    → Found exclusive gb array (take_first exclusive gb array)
unfolding take_first
take_first-Found exclusive gb [] = tt
take_first-Found exclusive gb (a ∷ array) = elim (Bool-cases (leb_ℤ gb a)) [
  | inl le ↦ rw le (record {
    disk = a;
    rest = array;
    before = Permᴰ.refl _;
    after = Permᴰ.refl _;
    fits = leb_ℤ→le gb a le;
  })
  | inr gt ↦ rw gt (
      Found-next exclusive gb a array (take_first exclusive gb array) (not_leb_ℤ→lt gb a gt)
        (take_first-Found exclusive gb array))
]

-- On sizes the code's rounding and subtraction are the mathematical ones.
gb_up-gib : (r : PvcRequest) → IsSize r.request → gb_up r.request ≡ gib r
gb_up-gib r h = size r.request h
  where
    size : (a : ℤ) → IsSize a → gb_up a ≡ pos ((pos_part a + (2 ^ 30 - 1)) / 2 ^ 30)
    size (pos n) h = gb_up-pos n h.1
    size (negsuc n) h = absurd (omega (arith, h.0))

sub-IsSize : (a : ℤ) (n : ℕ) → IsSize a → pos n ≤ℤ a → IsSize (a -ℤ pos n)
unfolding ◌-ℤ◌
sub-IsSize (pos m) n h le = ground arith
sub-IsSize (negsuc m) n h le = absurd (omega (arith, h.0))

left64-eq :
    (disk : ℤ) (r : PvcRequest)
    → IsSize disk
    → gib r ≤ℤ disk
    → left64 r.exclusive disk (gib r) ≡ left_on disk r
unfolding sub64
left64-eq disk r h fits =
    let size : IsSize (disk -ℤ gib r) = sub-IsSize disk _ h fits in
    rw (to_int64-eq (disk -ℤ gib r) (omega (arith, size)))

left_on-IsSize : (disk : ℤ) (r : PvcRequest) → IsSize disk → gib r ≤ℤ disk → IsSize (left_on disk r)
left_on-IsSize disk r h fits = elim (Bool-cases r.exclusive) [
  | inl e ↦ rw e (omega arith)
  | inr e ↦ rw e (sub-IsSize disk _ h fits)
]

not_negative : (i : ℕ) → ltb_ℤ (pos i) (pos 0) ≡ false
not_negative i = ground arith

abbrev outcome : List ℤ × ℤ → List PvcRequest → Bool
outcome (array', index) requests = elim (ltb_ℤ index (pos 0)) [
  | true ↦ false
  | false ↦ all_placed array' requests
]

module _ (r : PvcRequest) (requests : List PvcRequest) (requested : IsSize r.request)
    (later : (disks : List ℤ)
      → All IsSize disks
      → all_placed disks requests ≡ true
      → Packs disks requests) where
  Packs-found :
      (array : List ℤ) (o : Option (ℕ × List ℤ))
      → All IsSize array
      → Found r.exclusive (gib r) array o
      → outcome (chosen array o) requests ≡ true
      → Packs array (r ∷ requests)
  Packs-found array none sizes found placed = cc
  Packs-found array (some (i, array')) sizes t placed =
      place t.rest t.disk r t.before t.fits
        (Packs-perm left_after (later array' after_sizes (rw (not_negative i, outcome) at placed)))
    where
      before_sizes : All IsSize (t.disk ∷ t.rest)
      before_sizes = All-perm IsSize t.before sizes

      left_after : Permᴰ (left_on t.disk r ∷ t.rest) array'
      left_after = Permᴰ.symm (rw (left64-eq t.disk r before_sizes.0 t.fits) at t.after)

      after_sizes : All IsSize array'
      after_sizes =
          All-perm IsSize left_after (left_on-IsSize t.disk r before_sizes.0 t.fits, before_sizes.1)

-- When the loop finds a disk for every request, the requests can be assigned to the disks, each
-- disk holding the whole GiB of its requests, for disks and requests of sizes that int64 holds.
pub all_placed-Packs :
    (requests : List PvcRequest) (disks : List ℤ)
    → All (λ r. IsSize r.request) requests
    → All IsSize disks
    → all_placed disks requests ≡ true
    → Packs disks requests
unfolding all_placed minimum_value_minus
all_placed-Packs [] disks asked sizes placed = done
all_placed-Packs (r ∷ requests) disks asked sizes placed =
    Packs-perm (sort_by-perm (λ a. a) disks) (
      Packs-found r requests asked.0 (λ ds. all_placed-Packs requests ds asked.1) sorted
        (take_first r.exclusive (gib r) sorted)
        (All-perm IsSize (sort_by-perm (λ a. a) disks) sizes)
        (take_first-Found r.exclusive (gib r) sorted)
        (subst (λ gb. outcome (chosen sorted (take_first r.exclusive gb sorted)) requests ≡ true)
          (gb_up-gib r asked.0) placed))
  where
    sorted : List ℤ
    sorted = sort_by (λ a. a) disks

Found-single :
    (exclusive : Bool) (gb : ℤ) (array : List ℤ) (o : Option (ℕ × List ℤ))
    → Found exclusive gb array o
    → (outcome (chosen array o) [] ≡ false) ↔ All (λ disk. disk <ℤ gb) array
unfolding all_placed
Found-single exclusive gb array none found = (λ _. found, λ _. refl)
Found-single exclusive gb array (some (i, array')) t = (
  λ refused. absurd (cc (refused, not_negative i)),
  λ small. absurd (omega (arith, t.fits, (All-perm (λ disk. disk <ℤ gb) t.before small).0)),
)

-- A single request is refused exactly when every disk is smaller than it, in whole GiB.
pub single_refused :
    (disks : List ℤ) (r : PvcRequest)
    → IsSize r.request
    → (all_placed disks (r ∷ []) ≡ false) ↔ All (λ disk. disk <ℤ gib r) disks
unfolding all_placed minimum_value_minus
single_refused disks r asked =
    let sorted = sort_by (λ (a : ℤ). a) disks in
    let p = sort_by-perm (λ (a : ℤ). a) disks in
    let single =
      Found-single r.exclusive (gib r) sorted (take_first r.exclusive (gib r) sorted)
        (take_first-Found r.exclusive (gib r) sorted) in
    let same : all_placed disks (r ∷ [])
        ≡ outcome (chosen sorted (take_first r.exclusive (gib r) sorted)) [] =
      ap (λ gb. outcome (chosen sorted (take_first r.exclusive gb sorted)) [])
        (gb_up-gib r asked) in
    (
      λ refused. All-perm (λ disk. disk <ℤ gib r) (Permᴰ.symm p) (single.0 (sym same ∙ refused)),
      λ small. same ∙ single.1 (All-perm (λ disk. disk <ℤ gib r) p small),
    )
