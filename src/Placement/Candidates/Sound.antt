-- ===== src/Placement/Candidates/Sound.antt =====
-- Which entries of a node are candidates.
use carina.Base.{
  String, ℤ, ◌≤◌, ◌≡◌, refl, sym, ap, ◌∙◌, subst, ◌⊎◌, inl, inr, Bool, true, false, Option, none,
  some, List, [], ◌∷◌, Map, In, All, length, ◌≤ℤ◌, contains, before, strip_prefix, arith, eq_iff,
}
use carina.Api.{Disk}
use carina.Config.{DiskSelectorItem, contains_string, check_raw_device_group}
use carina.Placement.Candidates.{
  GroupPair, Wanted, lvm_volume_type, raw_volume_type, capacity_key_prefix, exist_partition,
  device_usable, node_usable, offer, add_offer, offers,
}

-- A candidate of a node, as an entry of its allocatable groups.
pub record Offered (usable : String → Bool) (request_gb : ℤ) (node_name : String) (entries : Map ℤ)
    (p : GroupPair) : Type 0 where
  pub key : String
  pub listed : In (key, p.allocatable) entries
  pub prefixed : strip_prefix capacity_key_prefix key ≡ some p.group
  pub enough : request_gb ≤ℤ p.allocatable
  pub fit : usable p.group ≡ true
  pub on_node : p.node_name ≡ node_name

module _ (usable : String → Bool) (request_gb : ℤ) (node_name : String) where
  offer_facts :
      (key : String) (a : ℤ) (p : GroupPair)
      → offer usable request_gb node_name (key, a) ≡ some p
      → (strip_prefix capacity_key_prefix key ≡ some p.group)
        × (a ≡ p.allocatable)
        × (request_gb ≤ℤ a)
        × (usable p.group ≡ true)
        × (p.node_name ≡ node_name)
  unfolding offer
  offer_facts key a p h = ground arith

  offer-Offered :
      (e : String × ℤ) (entries : Map ℤ) (p : GroupPair)
      → offer usable request_gb node_name e ≡ some p
      → Offered usable request_gb node_name (e ∷ entries) p
  offer-Offered (key, a) entries p h =
      let (prefixed, same, enough, fit, on_node) = offer_facts key a p h in
      record {
        key = key;
        listed = inl (ap (λ (v : ℤ). (key, v)) (sym same));
        prefixed = prefixed;
        enough = subst (λ v. request_gb ≤ℤ v) same enough;
        fit = fit;
        on_node = on_node;
      }

  Offered-cons :
      (e : String × ℤ) (entries : Map ℤ) (p : GroupPair)
      → Offered usable request_gb node_name entries p
      → Offered usable request_gb node_name (e ∷ entries) p
  Offered-cons e entries p o = record {
    key = o.key;
    listed = inr o.listed;
    prefixed = o.prefixed;
    enough = o.enough;
    fit = o.fit;
    on_node = o.on_node;
  }

  -- Each candidate is an entry that is large enough and usable.
  pub offers-Offered :
      (entries : Map ℤ) (p : GroupPair)
      → In p (offers usable request_gb node_name entries)
      → Offered usable request_gb node_name entries p
  unfolding offers
  offers-Offered [] p m = absurd m
  offers-Offered (e ∷ entries) p m =
      from_offer (offer usable request_gb node_name e) refl (offers-Offered entries p) m
    where
      from_offer :
          (o : Option GroupPair)
          → offer usable request_gb node_name e ≡ o
          → (In p (offers usable request_gb node_name entries)
              → Offered usable request_gb node_name entries p)
          → In p (add_offer o (offers usable request_gb node_name entries))
          → Offered usable request_gb node_name (e ∷ entries) p
      from_offer none eq ih m' = Offered-cons e entries p (ih m')
      from_offer (some q) eq ih (inl same) =
          offer-Offered e entries p (eq ∙ ap (λ r. some r) (sym same))
      from_offer (some q) eq ih (inr m') = Offered-cons e entries p (ih m')

  -- Each entry of a node's resources whose key names a usable group, with room for the request, is
  -- offered as a candidate.
  pub offers_complete :
      (entries : Map ℤ) (key group : String) (a : ℤ)
      → In (key, a) entries
      → strip_prefix capacity_key_prefix key ≡ some group
      → request_gb ≤ℤ a
      → usable group ≡ true
      → In
          (record { node_name = node_name; group = group; allocatable = a })
          (offers usable request_gb node_name entries)
  unfolding offers
  offers_complete [] key group a m prefixed enough fit = absurd m
  offers_complete (e ∷ entries) key group a (inl same) prefixed enough fit =
      let p : GroupPair = record { node_name = node_name; group = group; allocatable = a } in
      subst (λ o. In p (add_offer o (offers usable request_gb node_name entries)))
        (sym (ap (offer usable request_gb node_name) (sym same) ∙ made)) (inl refl)
    where
      made :
          offer usable request_gb node_name (key, a)
          ≡ some (record { node_name = node_name; group = group; allocatable = a })
      made = unfold offer in ground arith
  offers_complete (e ∷ entries) key group a (inr m) prefixed enough fit =
      later (offer usable request_gb node_name e) _ _
        (offers_complete entries key group a m prefixed enough fit)
    where
      later :
          (o : Option GroupPair) (p : GroupPair) (ps : List GroupPair)
          → In p ps
          → In p (add_offer o ps)
      later none p ps m' = m'
      later (some q) p ps m' = inr m'

-- What a group has to be for a raw and for an LVM volume.
pub record Suits (selectors : List DiskSelectorItem) (w : Wanted) (taken : List String)
    (disks : List Disk) (group : String) : Type 0 where
  pub raw :
      w.volume_type ≡ raw_volume_type
      → (check_raw_device_group selectors (before b'/' group) ≡ true)
        × ((w.sc_device_group ≡ "") ⊎ (w.sc_device_group ≡ before b'/' group))
        × (contains_string taken group ≡ false)
        × (w.exclusivity_disk ≡ true
            → All (λ d. contains group d.name ≡ true → length d.partitions ≤ 1) disks)
  pub lvm :
      w.volume_type ≡ lvm_volume_type → check_raw_device_group selectors (before b'/' group) ≡ false

few_partitions :
    (group : String) (disks : List Disk)
    → exist_partition true group disks ≡ false
    → All (λ d. contains group d.name ≡ true → length d.partitions ≤ 1) disks
unfolding exist_partition
few_partitions group [] h = tt
few_partitions group (d ∷ disks) h =
    (λ c. ground (arith, h, c), few_partitions group disks (ground (arith, h)))

module _ (selectors : List DiskSelectorItem) (w : Wanted) (taken : List String) (disks : List Disk)
    (group : String) where
  -- The tests of the loop, as equations.
  record Tests : Type 0 where
    raw_tests :
        w.volume_type ≡ raw_volume_type
        → (check_raw_device_group selectors (before b'/' group) ≡ true)
          × ((w.sc_device_group ≡ "") ⊎ (w.sc_device_group ≡ before b'/' group))
          × (contains_string taken group ≡ false)
          × (exist_partition w.exclusivity_disk group disks ≡ false)
    lvm_test :
        w.volume_type ≡ lvm_volume_type
        → check_raw_device_group selectors (before b'/' group) ≡ false

  Tests-Suits : Tests → Suits selectors w taken disks group
  Tests-Suits t = record {
    raw = λ r.
        let (is_raw, same, free, parts) = t.raw_tests r in
        (
          is_raw,
          same,
          free,
          λ e.
              few_partitions group disks
                (subst (λ b. exist_partition b group disks ≡ false) e parts),
        );
    lvm = t.lvm_test;
  }

  pub device_usable-Suits :
      device_usable selectors w taken disks group ≡ true → Suits selectors w taken disks group
  unfolding device_usable
  device_usable-Suits h = Tests-Suits (record {
    raw_tests = λ r. ground (
      arith,
      h,
      r,
      eq_iff w.volume_type "raw",
      eq_iff w.volume_type "lvm",
      eq_iff "raw" "lvm",
      eq_iff w.sc_device_group "",
      eq_iff w.sc_device_group (before b'/' group),
    );
    lvm_test = λ l.
        ground
          (arith, h, l, eq_iff w.volume_type "raw", eq_iff w.volume_type "lvm", eq_iff "raw" "lvm");
  })

  pub node_usable-Suits :
      node_usable selectors w taken disks group ≡ true → Suits selectors w taken disks group
  unfolding node_usable
  node_usable-Suits h = Tests-Suits (record {
    raw_tests = λ r. ground (
      arith,
      h,
      r,
      eq_iff w.volume_type "raw",
      eq_iff w.volume_type "lvm",
      eq_iff "raw" "lvm",
      eq_iff w.sc_device_group "",
      eq_iff w.sc_device_group (before b'/' group),
    );
    lvm_test = λ l.
        ground
          (arith, h, l, eq_iff w.volume_type "raw", eq_iff w.volume_type "lvm", eq_iff "raw" "lvm");
  })
