-- ===== src/Rebuild/Lost.antt =====
-- Which claims the node controller rebuilds.
use carina.Base.{
  String, ◌≡◌, refl, sym, ap, subst, Bool, true, false, not, Option, none, some, List, [], ◌∷◌, Map,
  All, In, lookup, insert, text_at, inl, inr, arith, ◌∙◌, eq_iff, ◌==◌, if◌then◌else◌,
}
use carina.Errors.{plain, status, panic, Result, ok, err}
use carina.Api.{LogicVolume}
use carina.Volume.{Op, ◌>>◌, give, read}
use carina.Csi.Ends.{AnyError, Ends, EndsIn, EndsIn-then, EndsIn-after, EndsIn-give, EndsIn-read}
use carina.Rebuild.{
  Pod, Node, NodeStatus, Cluster, ObjectKey, node_status_list, pv_map, allows_migration,
  skip_claims, skip_pods, skip_lv, is_normal, decided, put, strip_finalizer, remove_orphan,
  clear_pod, move, consider, visit, visit_all, examine, get_need_rebuild_volume,
}

-- A pod of the list has a volume for the claim and allows the migration.
pub record Allowed (pvc : String) (ps : List Pod) : Type 0 where
  pub pod : Pod
  pub listed : In pod ps
  pub uses : In (some pvc) pod.claims
  pub allows : allows_migration pod ≡ true

-- What a volume of a pod for the claim shows
abbrev Uses : String → Pod → List (Option String) → Type 0
Uses pvc p claims = In (some pvc) claims × (allows_migration p ≡ true)

not_skipped : (b : Bool) → some (ok (not b)) ≡ some (ok false) → b ≡ true
not_skipped true h = refl
not_skipped false h = cc

used_later :
    (pvc : String) (p : Pod) (o : Option String) (claims : List (Option String))
    → Uses pvc p claims
    → Uses pvc p (o ∷ claims)
used_later pvc p o claims (uses, allows) = (inr uses, allows)

used :
    (pvc name : String) (p : Pod) (claims : List (Option String)) (rest : Option (Result Bool))
    → (rest ≡ some (ok false) → Uses pvc p claims)
    → (b : Bool) → (name == pvc) ≡ b
    → (if b then some (ok (not (allows_migration p))) else rest) ≡ some (ok false)
    → Uses pvc p (some name ∷ claims)
used pvc name p claims rest later true same e =
    (inl (ap (λ x. some x) (sym ((eq_iff name pvc).0 same))), not_skipped (allows_migration p) e)
used pvc name p claims rest later false other e = used_later pvc p (some name) claims (later e)

skip_claims-Uses :
    (pvc : String) (p : Pod) (claims : List (Option String))
    → skip_claims pvc p claims ≡ some (ok false)
    → Uses pvc p claims
unfolding skip_claims
skip_claims-Uses pvc p [] e = cc
skip_claims-Uses pvc p (none ∷ claims) e = cc
skip_claims-Uses pvc p (some name ∷ claims) e =
    used pvc name p claims (skip_claims pvc p claims) (skip_claims-Uses pvc p claims) (name == pvc)
      refl e

Allowed-here :
    (pvc : String) (p : Pod) (ps : List Pod) (rest : Result Bool)
    → (rest ≡ ok false → Allowed pvc ps)
    → (o : Option (Result Bool)) → skip_claims pvc p p.claims ≡ o
    → elim o [ none ↦ rest | some r ↦ r ] ≡ ok false
    → Allowed pvc (p ∷ ps)
Allowed-here pvc p ps rest later none unused e =
    let found = later e in
    record { pod = found.pod; listed = inr found.listed; uses = found.uses; allows = found.allows }
Allowed-here pvc p ps rest later (some r) used_by e =
    let found = skip_claims-Uses pvc p p.claims (used_by ∙ ap (λ x. some x) e) in
    record { pod = p; listed = inl refl; uses = found.0; allows = found.1 }

skip_pods-Allowed : (pvc : String) (ps : List Pod) → skip_pods pvc ps ≡ ok false → Allowed pvc ps
unfolding skip_pods
skip_pods-Allowed pvc [] e = cc
skip_pods-Allowed pvc (p ∷ ps) e =
    Allowed-here pvc p ps (skip_pods pvc ps) (skip_pods-Allowed pvc ps) (skip_claims pvc p p.claims)
      refl e

-- A map keeps what holds of its entries.
All-insert :
    {V : Type 0} (P : String × V → Type 0) (k : String) (v : V) (m : Map V)
    → P (k, v)
    → All P m
    → All P (insert k v m)
unfolding insert
All-insert P k v [] h hs = (h, tt)
All-insert P k v ((j, u) ∷ m) h hs = replaced (j == k) refl (All-insert P k v m h hs.1)
  where
    replaced :
        (b : Bool)
        → (j == k) ≡ b
        → All P (insert k v m)
        → All P (if b then (j, v) ∷ m else (j, u) ∷ insert k v m)
    replaced true same rest = (subst (λ x. P (x, v)) (sym ((eq_iff j k).0 same)) h, hs.1)
    replaced false other rest = (hs.0, rest)

-- A test whose outcome the branches know
EndsIn-known :
    {W A : Type 0} (P : A → Type 0) (b : Bool) (x y : Op W A)
    → (b ≡ true → EndsIn AnyError P x)
    → (b ≡ false → EndsIn AnyError P y)
    → EndsIn AnyError P (if b then x else y)
EndsIn-known P true x y hx hy = hx refl
EndsIn-known P false x y hx hy = hy refl

module _ {W : Type 0} (c : Cluster W) (statuses : Map NodeStatus) (phases : Map String) where
  -- A volume without an owner and with a bound persistent volume, on a node that is not normal,
  -- whose claim a pod on the node uses that allows the migration
  pub record IsLost (lv : LogicVolume) : Type 0 where
    pub unowned : lv.owner ≡ ""
    pub bound : text_at lv.name phases ≡ "Bound"
    pub lost : is_normal (lookup lv.spec.node_name statuses) ≡ false
    pub at : W
    pub pods : List Pod
    pub on_node : c.pods lv.spec.node_name at ≡ ok pods
    pub allowed : Allowed lv.spec.pvc pods

  -- Such a volume of the list, with its claim, under its name
  pub record Rebuilds (lvs : List LogicVolume) (entry : String × ObjectKey) : Type 0 where
    pub lv : LogicVolume
    pub listed : In lv lvs
    pub key : ◌≡◌ {A = String × ObjectKey} entry (lv.name, (lv.spec.name_space, lv.spec.pvc))
    pub is_lost : IsLost lv

  -- What a visit may add
  abbrev Adds : LogicVolume → Option ObjectKey → Type 0
  Adds lv none = Unit
  Adds lv (some key) = (◌≡◌ {A = ObjectKey} key (lv.spec.name_space, lv.spec.pvc)) × IsLost lv

  Adds-none : (lv : LogicVolume) → EndsIn AnyError {W = W} (Adds lv) (give (ok none))
  Adds-none lv = EndsIn-give AnyError (Adds lv) (ok none) tt

  remove_orphan-Adds : (lv : LogicVolume) → EndsIn AnyError (Adds lv) (remove_orphan c lv)
  unfolding remove_orphan
  remove_orphan-Adds lv = EndsIn-then (Adds lv) _ (λ done. give (ok none)) (λ done. Adds-none lv)

  move-Adds : (lv : LogicVolume) → IsLost lv → EndsIn AnyError (Adds lv) (move c lv)
  unfolding move
  move-Adds lv h =
      EndsIn-then (Adds lv) (clear_pod c lv.spec.node_name)
        (λ done. strip_finalizer c lv >> give (ok (some (lv.spec.name_space, lv.spec.pvc))))
        (λ done.
          EndsIn-then (Adds lv) (strip_finalizer c lv)
            (λ done. give (ok (some (lv.spec.name_space, lv.spec.pvc))))
            (λ done.
              EndsIn-give AnyError (Adds lv) (ok (some (lv.spec.name_space, lv.spec.pvc)))
                (refl, h)))

  -- What skipLv has found where it says not to skip
  abbrev Clears : LogicVolume → Bool → Type 0
  Clears lv skip =
      skip ≡ false
      → (w : W) × (ps : List Pod) × (c.pods lv.spec.node_name w ≡ ok ps) × Allowed lv.spec.pvc ps

  decided-Clears :
      (lv : LogicVolume) (w : W) (r : Result Bool)
      → skip_lv c lv w ≡ r
      → Ends AnyError (Clears lv) (decided r)
  unfolding skip_lv
  decided-Clears lv w (err (plain e)) h = λ skipped. cc
  decided-Clears lv w (err (status code e)) h = λ skipped. cc
  decided-Clears lv w (err panic) h = tt
  decided-Clears lv w (ok skip) h =
      λ kept. listed_pods (c.pods lv.spec.node_name w) refl (h ∙ ap (λ b. ok b) kept)
    where
      listed_pods :
          (r : Result (List Pod))
          → c.pods lv.spec.node_name w ≡ r
          → elim r [ err e ↦ err e | ok ps ↦ skip_pods lv.spec.pvc ps ] ≡ ok false
          → (v : W) × (ps : List Pod) × (c.pods lv.spec.node_name v ≡ ok ps)
            × Allowed lv.spec.pvc ps
      listed_pods (err e) eq h' = cc
      listed_pods (ok ps) eq h' = (w, ps, eq, skip_pods-Allowed lv.spec.pvc ps h')

  module _ (lv : LogicVolume) (unowned : lv.owner ≡ "") (bound : text_at lv.name phases ≡ "Bound")
      (lost : is_normal (lookup lv.spec.node_name statuses) ≡ false) where
    IsLost-if : (skip : Bool) → Clears lv skip → skip ≡ false → IsLost lv
    IsLost-if skip clears kept =
        let found = clears kept in
        record {
          unowned = unowned;
          bound = bound;
          lost = lost;
          at = found.0;
          pods = found.1;
          on_node = found.2;
          allowed = found.3;
        }

    consider-Adds : EndsIn AnyError (Adds lv) (consider c lv)
    unfolding consider
    consider-Adds =
        EndsIn-after AnyError (Clears lv) (Adds lv) (read (λ w. decided (skip_lv c lv w)))
          (λ skip. if skip then give (ok none) else move c lv)
          (EndsIn-read AnyError (Clears lv) (λ w. decided (skip_lv c lv w))
            (λ w. decided-Clears lv w (skip_lv c lv w) refl))
          (λ skip clears.
            EndsIn-known (Adds lv) skip (give (ok none)) (move c lv) (λ skipped. Adds-none lv)
              (λ kept. move-Adds lv (IsLost-if skip clears kept)))

  not-false : (a b : String) → not (a == b) ≡ false → a ≡ b
  not-false a b h = ground (arith, h, eq_iff a b)

  visit-Adds : (lv : LogicVolume) → EndsIn AnyError (Adds lv) (visit c statuses phases lv)
  unfolding visit
  visit-Adds lv =
      EndsIn-known (Adds lv) _ _ _ (λ owned. Adds-none lv)
        (λ unowned.
          EndsIn-known (Adds lv) _ _ _ (λ orphan. remove_orphan-Adds lv)
            (λ kept.
              EndsIn-known (Adds lv) _ _ _ (λ unbound. Adds-none lv)
                (λ bound.
                  EndsIn-known (Adds lv) _ _ _ (λ fine. Adds-none lv)
                    (λ lost.
                      consider-Adds lv (not-false lv.owner "" unowned)
                        (not-false (text_at lv.name phases) "Bound" bound) lost))))

  put-Rebuilds :
      (all : List LogicVolume) (lv : LogicVolume) (key : Option ObjectKey) (m : Map ObjectKey)
      → In lv all
      → Adds lv key
      → All (Rebuilds all) m
      → All (Rebuilds all) (put lv key m)
  put-Rebuilds all lv none m listed adds before = before
  put-Rebuilds all lv (some key) m listed (same, is_lost) before =
      All-insert (Rebuilds all) lv.name key m
        (record { lv = lv; listed = listed; key = ap (λ k. (lv.name, k)) same; is_lost = is_lost })
        before

  visit_all-Rebuilds :
      (all lvs : List LogicVolume) (m : Map ObjectKey)
      → ((lv : LogicVolume) → In lv lvs → In lv all)
      → All (Rebuilds all) m
      → EndsIn AnyError (All (Rebuilds all)) (visit_all c statuses phases lvs m)
  unfolding visit_all
  visit_all-Rebuilds all [] m listed before =
      EndsIn-give AnyError (All (Rebuilds all)) (ok m) before
  visit_all-Rebuilds all (lv ∷ lvs) m listed before =
      EndsIn-after AnyError (Adds lv) (All (Rebuilds all)) (visit c statuses phases lv)
        (λ key. visit_all c statuses phases lvs (put lv key m)) (visit-Adds lv)
        (λ key adds.
          visit_all-Rebuilds all lvs (put lv key m) (λ x later. listed x (inr later))
            (put-Rebuilds all lv key m (listed lv (inl refl)) adds before))

module _ {W : Type 0} (c : Cluster W) (w : W) (lvs : List LogicVolume) (ns : List Node)
    (pvs : List (String × String)) (volumes : c.lvs w ≡ ok lvs) (nodes : c.nodes w ≡ ok ns)
    (phases : c.pvs w ≡ ok pvs) where
  -- When the lists can be read, each claim that is to be rebuilt is that of a listed volume, which
  -- has no owner and a bound persistent volume and is on a node that is not known to be normal,
  -- and a pod there has a volume for a claim of that name and allows its migration.
  pub get_need_rebuild_volume-Rebuilds :
      Ends AnyError
        (All (Rebuilds c (node_status_list ns []) (pv_map pvs []) lvs))
        (get_need_rebuild_volume c w).0
  unfolding get_need_rebuild_volume
  get_need_rebuild_volume-Rebuilds = rw (volumes) (examined lvs)
    where
      examined :
          (some_lvs : List LogicVolume)
          → Ends AnyError
              (All (Rebuilds c (node_status_list ns []) (pv_map pvs []) some_lvs))
              (examine c some_lvs w).0
      examined [] = tt
      examined (lv ∷ rest) =
          rw (nodes, phases)
            ((visit_all-Rebuilds c (node_status_list ns []) (pv_map pvs []) (lv ∷ rest) (lv ∷ rest)
                [] (λ x m. m) tt).ends
              w)
