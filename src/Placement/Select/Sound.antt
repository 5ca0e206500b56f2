-- ===== src/Placement/Select/Sound.antt =====
-- What the selected node and device group offer.
use carina.Base.{
  String, ℤ, ◌≡◌, ◌≢◌, refl, sym, subst, ◌⊎◌, inl, inr, Bool, true, false, ◌&&◌, not, Option, none,
  some, List, [], ◌∷◌, In, In-append, ◌≤ℤ◌, Bool-cases, arith, eq_iff, ◌==◌, strip_prefix,
}
use carina.Errors.{Result, ok, err, ◌>>=◌, >>=-eq-ok}
use carina.Api.{NodeStorageResource}
use carina.Config.{DiskSelectorItem}
use carina.Placement.{
  Node, TopologyRequirement, Cluster, get_nsr, get_nodes, ready_node, topology_match_node_labels,
}
use carina.Placement.Candidates.{
  GroupPair, Wanted, lvm_volume_type, capacity_key_prefix, device_usable, node_usable, offers,
  choose,
}
use carina.Placement.Candidates.Sound.{
  Offered, offers-Offered, Suits, device_usable-Suits, node_usable-Suits,
}
use carina.Placement.Candidates.Best.{Best, choose-Best}
use carina.Placement.Select.{
  taken_disks, device_candidates, select_device_group, storage_offers, node_offers, nodes_offers,
  select_node,
}

-- An entry of a node's allocatable groups that can take the volume.
pub record Placed (selectors : List DiskSelectorItem) (w : Wanted) (taken : List String)
    (nsr : NodeStorageResource) (group : String) : Type 0 where
  pub key : String
  pub allocatable : ℤ
  pub listed : In (key, allocatable) nsr.allocatable
  pub prefixed : strip_prefix capacity_key_prefix key ≡ some group
  pub enough : w.request_gb ≤ℤ allocatable
  pub suits : Suits selectors w taken nsr.disks group

ok_injective : {A : Type 0} {a b : A} → ok a ≡ ok b → a ≡ b
ok_injective e = cc

module _ (selectors : List DiskSelectorItem) (strategy : String) (cluster : Cluster)
    (w : Wanted) where
  searched :
      ((w.volume_type ≢ lvm_volume_type) ⊎ (w.sc_device_group ≡ ""))
      → (w.volume_type == lvm_volume_type && not (w.sc_device_group == "")) ≡ false
  searched (inl other) = ground (arith, other, eq_iff w.volume_type lvm_volume_type)
  searched (inr unset) = ground (arith, unset, eq_iff w.sc_device_group "")

  from_Offered :
      (usable : String → Bool) (node_name : String) (taken : List String)
      (nsr : NodeStorageResource) (p : GroupPair)
      → Offered usable w.request_gb node_name nsr.allocatable p
      → Suits selectors w taken nsr.disks p.group
      → Placed selectors w taken nsr p.group
  from_Offered usable node_name taken nsr p o suits = record {
    key = o.key;
    allocatable = p.allocatable;
    listed = o.listed;
    prefixed = o.prefixed;
    enough = o.enough;
    suits = suits;
  }

  -- The device group selected on a node, when the storage class fixes none or the volume is raw, is a
  -- group of that node with room for the request and of the right kind: for a raw volume a raw disk
  -- of the storage class's group that no exclusive volume has taken and that, for an exclusive
  -- request, has at most one partition; for an LVM volume a group that is not raw.
  pub select_device_group-Placed :
      (node_name group : String)
      → ((w.volume_type ≢ lvm_volume_type) ⊎ (w.sc_device_group ≡ ""))
      → select_device_group selectors strategy cluster w node_name ≡ ok group
      → (nsr : NodeStorageResource) × (taken : List String) × (get_nsr cluster node_name ≡ ok nsr)
        × (taken_disks selectors strategy cluster w.volume_type node_name ≡ ok taken)
        × Placed selectors w taken nsr group
  unfolding select_device_group
  select_device_group-Placed node_name group open_choice h =
      let (pairs, collected, picked) =
        >>=-eq-ok (device_candidates selectors strategy cluster w node_name)
          (λ ps. choose strategy ps >>= λ chosen. ok chosen.group)
          (rw (searched open_choice) at h) in
      let (p, chosen, same) =
        >>=-eq-ok (choose strategy pairs) (λ chosen. ok chosen.group) picked in
      let (nsr, read, rest) =
        >>=-eq-ok (get_nsr cluster node_name)
          (λ nsr. taken_disks selectors strategy cluster w.volume_type node_name >>= λ taken.
            ok (offers (device_usable selectors w taken nsr.disks) w.request_gb "" nsr.allocatable))
          collected in
      let (taken, listed, made) =
        >>=-eq-ok (taken_disks selectors strategy cluster w.volume_type node_name)
          (λ taken.
            ok (offers (device_usable selectors w taken nsr.disks) w.request_gb "" nsr.allocatable))
          rest in
      let o =
        offers-Offered (device_usable selectors w taken nsr.disks) w.request_gb "" nsr.allocatable p
          (subst (In p) (sym (ok_injective made)) (choose-Best strategy pairs p chosen).listed) in
      (
        nsr,
        taken,
        read,
        listed,
        subst (Placed selectors w taken nsr) (ok_injective same) (
            from_Offered (device_usable selectors w taken nsr.disks) "" taken nsr p o
              (device_usable-Suits selectors w taken nsr.disks p.group o.fit)),
      )

  -- Where a candidate of the whole cluster comes from.
  pub record FromNode (requirement : Option TopologyRequirement) (nodes : List Node)
      (node_name group : String) : Type 0 where
    pub node : Node
    pub known : In node nodes
    pub ready : ready_node node ≡ true
    pub in_topology : topology_match_node_labels cluster node.labels requirement ≡ true
    pub named : node_name ≡ node.name
    pub nsr : NodeStorageResource
    pub taken : List String
    pub read : get_nsr cluster node.name ≡ ok nsr
    pub excluded : taken_disks selectors strategy cluster w.volume_type node.name ≡ ok taken
    pub placed : Placed selectors w taken nsr group

  FromNode-cons :
      {requirement : Option TopologyRequirement} {nodes : List Node} {node_name group : String}
      (n : Node)
      → FromNode requirement nodes node_name group
      → FromNode requirement (n ∷ nodes) node_name group
  FromNode-cons n f = record {
    node = f.node;
    known = inr f.known;
    ready = f.ready;
    in_topology = f.in_topology;
    named = f.named;
    nsr = f.nsr;
    taken = f.taken;
    read = f.read;
    excluded = f.excluded;
    placed = f.placed;
  }

  module _ (requirement : Option TopologyRequirement) (node : Node) (nodes : List Node)
      (p : GroupPair) (ready : ready_node node ≡ true)
      (in_topology : topology_match_node_labels cluster node.labels requirement ≡ true) where
    from_storage :
        (nsr : NodeStorageResource) (t : Result (List String))
        → get_nsr cluster node.name ≡ ok nsr
        → taken_disks selectors strategy cluster w.volume_type node.name ≡ t
        → In p (storage_offers selectors strategy cluster w node.name nsr t)
        → FromNode requirement (node ∷ nodes) p.node_name p.group
    unfolding storage_offers
    from_storage nsr (err e) read excluded m = absurd m
    from_storage nsr (ok taken) read excluded m =
        let o =
          offers-Offered (node_usable selectors w taken nsr.disks) w.request_gb node.name
            nsr.allocatable p m in
        record {
          node = node;
          known = inl refl;
          ready = ready;
          in_topology = in_topology;
          named = o.on_node;
          nsr = nsr;
          taken = taken;
          read = read;
          excluded = excluded;
          placed =
              from_Offered (node_usable selectors w taken nsr.disks) node.name taken nsr p o
                (node_usable-Suits selectors w taken nsr.disks p.group o.fit);
        }

    from_nsr :
        (r : Result NodeStorageResource)
        → get_nsr cluster node.name ≡ r
        → In p (node_offers selectors strategy cluster w node.name r)
        → FromNode requirement (node ∷ nodes) p.node_name p.group
    unfolding node_offers
    from_nsr (err e) read m = absurd m
    from_nsr (ok nsr) read m = from_storage nsr _ read refl m

  nodes_offers-FromNode :
      (requirement : Option TopologyRequirement) (nodes : List Node) (p : GroupPair)
      → In p (nodes_offers selectors strategy cluster w requirement nodes)
      → FromNode requirement nodes p.node_name p.group
  unfolding nodes_offers
  nodes_offers-FromNode requirement [] p m = absurd m
  nodes_offers-FromNode requirement (node ∷ nodes) p m =
      elim (Bool-cases
        (ready_node node && topology_match_node_labels cluster node.labels requirement)) [
          | inr skipped ↦
              FromNode-cons node (nodes_offers-FromNode requirement nodes p (rw skipped at m))
          | inl eligible ↦ split eligible (nodes_offers-FromNode requirement nodes p) (
              In-append p
                (node_offers selectors strategy cluster w node.name (get_nsr cluster node.name))
                (nodes_offers selectors strategy cluster w requirement nodes) (rw eligible at m))
        ]
    where
      split :
          (ready_node node && topology_match_node_labels cluster node.labels requirement) ≡ true
          → (In p (nodes_offers selectors strategy cluster w requirement nodes)
              → FromNode requirement nodes p.node_name p.group)
          → In p (node_offers selectors strategy cluster w node.name (get_nsr cluster node.name))
            ⊎ In p (nodes_offers selectors strategy cluster w requirement nodes)
          → FromNode requirement (node ∷ nodes) p.node_name p.group
      split eligible ih (inr later) = FromNode-cons node (ih later)
      split eligible ih (inl here) =
          from_nsr requirement node nodes p (ground (arith, eligible)) (ground (arith, eligible))
            (get_nsr cluster node.name) refl here

  -- The node and device group selected in the whole cluster are those of a candidate: a listed, ready
  -- node whose labels match the required topology, with a group that has room for the request and
  -- is of the right kind. No candidate has less space under binpack, or more under spreadout.
  pub select_node-Placed :
      (requirement : Option TopologyRequirement) (node_name group : String)
      → select_node selectors strategy cluster w requirement ≡ ok (node_name, group)
      → (nodes : List Node) × (p : GroupPair) × (get_nodes cluster none ≡ ok nodes)
        × ◌≡◌ {A = String × String} (p.node_name, p.group) (node_name, group)
        × FromNode requirement nodes node_name group
        × Best strategy (nodes_offers selectors strategy cluster w requirement nodes) p
  unfolding select_node
  select_node-Placed requirement node_name group h =
      let (nodes, listed, picked) =
        >>=-eq-ok (get_nodes cluster none)
          (λ nodes.
            choose strategy (nodes_offers selectors strategy cluster w requirement nodes)
            >>= λ chosen. ok (chosen.node_name, chosen.group))
          h in
      let (p, chosen, same) =
        >>=-eq-ok (choose strategy (nodes_offers selectors strategy cluster w requirement nodes))
          (λ chosen. ok (chosen.node_name, chosen.group)) picked in
      let best =
        choose-Best strategy (nodes_offers selectors strategy cluster w requirement nodes) p
          chosen in
      (
        nodes,
        p,
        listed,
        ok_injective same,
        subst (λ (q : String × String). FromNode requirement nodes q.0 q.1) (ok_injective same)
            (nodes_offers-FromNode requirement nodes p best.listed),
        best,
      )
