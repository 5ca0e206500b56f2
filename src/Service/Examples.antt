-- ===== src/Service/Examples.antt =====
-- An API server whose world is a clock: at each time it shows one object or none.
use carina.Base.{
  run, String, ℕ, zero, suc, ℤ, pos, ◌<◌, ◌≡◌, refl, arith, false, Option, none, some, List, [],
  ◌∷◌,
}
use carina.Errors.{Code, code_ok, internal, plain, ok, err}
use carina.Api.{LogicVolume, is_compatible_with}
use carina.Placement.{Found, found, not_found}
use carina.Reconciler.Statuses.{is_code_ok}
use carina.Service.{Client, written, retried, returned, get_lv, get_node, context_done}
use carina.Service.Poll.{poll, again}
use carina.Service.Poll.Runs.{after}
use carina.Service.Getter.{count_id, from_cache, get_by_volume_id}
use carina.Service.Getter.Aliasing.{get_by_volume_id_last, delete_volume_last}
use carina.Service.Create.{
  Request, Device, new_lv, admit, judge_created, wait_created, create_volume,
}
use carina.Service.Create.Creates.{Admitted, IsSeen, create_volume-Created}
use carina.Service.Delete.{judge_deleted, wait_deleted, after_delete, delete_found, delete_volume}
use carina.Service.Delete.Gone.{Gone, delete_volume-Gone, delete_volume_done}
use carina.Service.Expand.{
  with_spec_size, judge_expanded, update_spec_size, wait_expanded, expand_found, expand_volume,
}
use carina.Service.Expand.Expands.{Expanded, expand_volume-Expanded, expand_failure_waits}

abbrev pub volume : String → (id : String) → Code → ℤ → Option ℤ → LogicVolume
volume name id code size current = record {
  name = name;
  annotations = [];
  finalizers = [];
  owner = "";
  deleting = false;
  spec = record {
    node_name = "n";
    size = size;
    device_group = "carina-vg-ssd";
    pvc = "data";
    name_space = "default";
  };
  status = record {
    volume_id = id;
    code = code;
    message = "";
    current_size = current;
    status = "";
    device_major = 253;
    device_minor = 3;
  };
}

abbrev pub two_gb : ℤ
two_gb = pos 2147483648

abbrev pub pending : LogicVolume
pending = volume "pvc-1" "" code_ok two_gb none

abbrev pub ready : LogicVolume
ready = volume "pvc-1" "volume-pvc-1" code_ok two_gb (some two_gb)

abbrev stuck : LogicVolume
stuck = volume "pvc-1" "volume-pvc-1" internal two_gb (some (pos 1073741824))

abbrev stranger : LogicVolume
stranger = volume "pvc-2" "volume-pvc-2" code_ok two_gb (some two_gb)

abbrev missing : Found LogicVolume
missing = not_found (plain "gone")

-- What the server shows, by the clock; its list is that of two objects.
abbrev pub showing : (ℕ → Found LogicVolume) → List LogicVolume → Client ℕ
showing view cached = record {
  pass = λ w. suc w;
  now = λ w. "now";
  cache_lv = λ name w. view w;
  api_lv = λ name w. view w;
  cache_node = λ name w. found tt;
  api_node = λ name w. found tt;
  cache_by_volume_id = λ id w. ok cached;
  api_list = λ w. ok (ready ∷ stranger ∷ []);
  create = λ lv w. (ok tt, suc w);
  delete = λ lv w. (found tt, suc w);
  update = λ lv w. (written, suc w);
  update_status = λ lv w. (written, suc w);
}

abbrev pub appears : ℕ → Found LogicVolume
appears zero = missing
appears (suc zero) = found pending
appears (suc (suc zero)) = found pending
appears (suc (suc (suc n))) = found ready

abbrev pub vanishes : ℕ → Found LogicVolume
vanishes zero = found ready
vanishes (suc zero) = found ready
vanishes (suc (suc zero)) = found ready
vanishes (suc (suc (suc n))) = missing

abbrev request : Request
request = record {
  name_space = "default";
  pvc = "data";
  node = "n";
  device_group = "carina-vg-ssd";
  pv_name = "pvc-1";
  request_gb = pos 2;
  owner = "";
  annotations = [];
}

abbrev pub device : Device
device = ("volume-pvc-1", (253, 3))

created_run : create_volume (showing appears []) request (5, 0) ≡ (ok device, (3, 3))
unfolding create_volume wait_created admit new_lv judge_created get_lv retried poll run
    is_compatible_with is_code_ok
created_run = refl

create_volume-Created_example :
    (v : ℕ) × Admitted (showing appears []) request 0 v
    × IsSeen (showing appears []) request v device
create_volume-Created_example =
    create_volume-Created (showing appears []) request 5 0 device (3, 3) created_run

cached_id : get_by_volume_id (showing vanishes (ready ∷ [])) "volume-pvc-1" 0 ≡ found ready
unfolding get_by_volume_id from_cache
cached_id = refl

deleted_run : delete_volume (showing vanishes (ready ∷ [])) "volume-pvc-1" (5, 0) ≡ (ok tt, (3, 3))
unfolding delete_volume delete_found after_delete wait_deleted judge_deleted get_by_volume_id
    from_cache get_lv get_node retried returned poll run
deleted_run = refl

delete_volume-Gone_example : Gone (showing vanishes (ready ∷ [])) "volume-pvc-1" 0
delete_volume-Gone_example =
    delete_volume-Gone (showing vanishes (ready ∷ [])) "volume-pvc-1" 5 0 (3, 3) deleted_run

delete_volume_done_example :
    delete_volume (showing vanishes (ready ∷ [])) "volume-pvc-1" (5, 0) ≡ (ok tt, (3, 3))
delete_volume_done_example =
    delete_volume_done (showing vanishes (ready ∷ [])) "volume-pvc-1" 5 0 1 ready (plain "gone") 1
      cached_id refl refl node (omega arith) waits gone
  where
    node : get_node (showing vanishes (ready ∷ [])) "n" 1 ≡ ok tt
    node = unfold get_node retried returned in refl

    waits :
        (j : ℕ)
        → j < 1
        → judge_deleted
            (get_lv (showing vanishes (ready ∷ [])) "pvc-1" (after (λ w. suc w) (suc j) 1))
          ≡ again
    waits zero lt = unfold judge_deleted get_lv retried in refl
    waits (suc j) lt = absurd (omega (arith, lt))

    gone :
        get_lv (showing vanishes (ready ∷ [])) "pvc-1" (after (λ w. suc w) 2 1)
        ≡ not_found (plain "gone")
    gone = unfold get_lv retried in refl

-- The API server lists the volume that has the id first, and another one last.
get_by_volume_id_last_run : get_by_volume_id (showing appears []) "volume-pvc-1" 0 ≡ found stranger
get_by_volume_id_last_run =
    get_by_volume_id_last (showing appears []) "volume-pvc-1" 0 (ready ∷ []) stranger refl refl
      (unfold count_id run in refl)

delete_volume_last_example :
    delete_volume (showing appears []) "volume-pvc-1" (5, 0)
    ≡ after_delete (showing appears []) stranger 5 (found tt, 1)
delete_volume_last_example =
    delete_volume_last (showing appears []) "volume-pvc-1" 0 (ready ∷ []) stranger refl refl
      (unfold count_id run in refl) 5 refl

expanded_run :
    expand_volume (showing vanishes (ready ∷ [])) "volume-pvc-1" (pos 2) (5, 0)
    ≡ (err (plain "gone"), (3, 3))
unfolding expand_volume expand_found update_spec_size wait_expanded judge_expanded with_spec_size
    get_by_volume_id from_cache get_lv get_node retried returned poll run is_code_ok
expanded_run = refl

abbrev pub steady : Client ℕ
steady = showing (λ w. found ready) (ready ∷ [])

grown_run : expand_volume steady "volume-pvc-1" (pos 2) (5, 0) ≡ (ok tt, (3, 3))
unfolding expand_volume expand_found update_spec_size wait_expanded judge_expanded with_spec_size
    get_by_volume_id from_cache get_lv get_node retried returned poll run is_code_ok
grown_run = refl

expand_volume-Expanded_example : Expanded steady "volume-pvc-1" (pos 2) 5 0
expand_volume-Expanded_example =
    expand_volume-Expanded steady "volume-pvc-1" (pos 2) 5 0 (3, 3) grown_run

abbrev failing : Client ℕ
failing = showing (λ w. found stuck) (stuck ∷ [])

expand_failure_waits_example : wait_expanded failing "pvc-1" 2 0 ≡ (err context_done, (0, 2))
expand_failure_waits_example = expand_failure_waits failing "pvc-1" 2 0 (λ j lt. record {
  lv = stuck;
  current = pos 1073741824;
  got = unfold get_lv retried in refl;
  known = refl;
  differs = refl;
})
