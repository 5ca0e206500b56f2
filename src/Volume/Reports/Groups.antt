-- ===== src/Volume/Reports/Groups.antt =====
-- Which physical volumes GetCurrentVgStruct lists in a group.
use mathlib.Core.List.{append_assoc}
use carina.Base.{
  String, ◌≡◌, ◌≢◌, refl, sym, ap, ◌∙◌, false, Option, none, some, List, [], ◌∷◌, ◌++◌, Map, lookup,
  lookup-insert, keep_if, arith, eq_iff, ◌==◌, if◌then◌else◌, Bool-cases, inl, inr,
}
use carina.Api.{VgGroup, PvInfo}
use carina.Volume.Reports.{with_pv, attach_pv, attach_pvs}

abbrev pub with_list : VgGroup → List PvInfo → VgGroup
with_list v pvs = record {
  vg_name = v.vg_name;
  pv_count = v.pv_count;
  lv_count = v.lv_count;
  vg_attr = v.vg_attr;
  vg_size = v.vg_size;
  vg_free = v.vg_free;
  pvs = pvs;
}

-- The group with these physical volumes at the end of its own
abbrev pub with_pvs : VgGroup → List PvInfo → VgGroup
with_pvs v more = with_list v (v.pvs ++ more)

-- Exactly the reported volumes of the group, in their order
pub of_group : String → List PvInfo → List PvInfo
of_group vg_name pvs = keep_if (λ pv. pv.vg_name == vg_name) pvs

-- A physical volume of another group
elsewhere :
    (pv : PvInfo) (tmp : Map VgGroup) (vg_name : String) (o : Option VgGroup)
    → (pv.vg_name == vg_name) ≡ false
    → lookup vg_name (attach_pv pv tmp o) ≡ lookup vg_name tmp
unfolding attach_pv
elsewhere pv tmp vg_name none differ = refl
elsewhere pv tmp vg_name (some g) differ =
    rw (lookup-insert pv.vg_name vg_name (with_pv g pv) tmp, differ) refl

attached :
    (pv : PvInfo) (tmp : Map VgGroup) (vg_name : String) (v : VgGroup)
    → vg_name ≢ ""
    → lookup vg_name tmp ≡ some v
    → lookup vg_name (if pv.vg_name == "" then tmp else attach_pv pv tmp (lookup pv.vg_name tmp))
      ≡ some (if pv.vg_name == vg_name then with_pv v pv else v)
unfolding attach_pv
attached pv tmp vg_name v named known = elim (Bool-cases (pv.vg_name == vg_name)) [
  | inl same ↦
      let name : pv.vg_name ≡ vg_name = (eq_iff pv.vg_name vg_name).0 same in
      let some_name : (pv.vg_name == "") ≡ false =
        ground (arith, name, named, eq_iff pv.vg_name "") in
      let there : lookup pv.vg_name tmp ≡ some v = rw name known in
      rw (some_name, there, lookup-insert pv.vg_name vg_name (with_pv v pv) tmp, same) refl
  | inr differ ↦ elim (Bool-cases (pv.vg_name == "")) [
    | inl free ↦ rw (free, differ) known
    | inr used ↦ rw (used, elsewhere pv tmp vg_name (lookup pv.vg_name tmp) differ, differ) known
  ]
]

append_none : (pvs : List PvInfo) → pvs ++ [] ≡ pvs
append_none [] = refl
append_none (pv ∷ pvs) = cc (append_none pvs)

next_pv :
    (v : VgGroup) (pv : PvInfo) (pvs : List PvInfo) (vg_name : String)
    → with_pvs (if pv.vg_name == vg_name then with_pv v pv else v) (of_group vg_name pvs)
      ≡ with_pvs v (of_group vg_name (pv ∷ pvs))
unfolding with_pv of_group
next_pv v pv pvs vg_name = elim (Bool-cases (pv.vg_name == vg_name)) [
  | inl same ↦ rw same (ap (with_list v) (append_assoc v.pvs (pv ∷ []) (of_group vg_name pvs)))
  | inr differ ↦ rw differ refl
]

-- In the map of groups, each named group gets exactly the reported physical volumes that carry its
-- name, in the order of the report, after those it has; nothing else of it changes.
pub attach_pvs_lem :
    (pvs : List PvInfo) (tmp : Map VgGroup) (vg_name : String) (v : VgGroup)
    → vg_name ≢ ""
    → lookup vg_name tmp ≡ some v
    → lookup vg_name (attach_pvs pvs tmp) ≡ some (with_pvs v (of_group vg_name pvs))
unfolding attach_pvs of_group
attach_pvs_lem [] tmp vg_name v named known =
    known ∙ ap (λ l. some (with_list v l)) (sym (append_none v.pvs))
attach_pvs_lem (pv ∷ pvs) tmp vg_name v named known =
    attach_pvs_lem pvs _ vg_name _ named (attached pv tmp vg_name v named known)
    ∙ ap (λ g. some g) (next_pv v pv pvs vg_name)
