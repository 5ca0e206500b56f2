-- ===== src/Csi/Bcache/Unplaced.antt =====
-- The node of a volume with a cache.
use carina.Base.{String, ℤ, ◌≡◌, refl, subst}
use carina.Errors.{ok}
use carina.Service.{Timed}
use carina.Service.Getter.{get_by_volume_id}
use carina.Volume.{read}
use carina.Csi.{CreateVolumeRequest, Volume, Services, as_returned}
use carina.Csi.Bcache.{
  Wish, make, part, tolerated, looked_up, test_nodes, create_both, create_bcache_volume,
}
use carina.Csi.Ends.{AnyError, Ends, EndsIn, EndsIn-then, EndsIn-give}

module _ {W : Type 0} (s : Services W) where
  abbrev OnNode : String → Volume → Type 0
  OnNode node volume = volume.node ≡ node

  create_both-OnNode :
      (r : CreateVolumeRequest) (wish : Wish) (node : String)
      → EndsIn AnyError (OnNode node) (create_both s r wish node)
  unfolding create_both
  create_both-OnNode r wish node =
      EndsIn-then _
        (make s tolerated (part s r node wish.backend_group wish.backend_name wish.backend_gb "")) _
        (λ backend.
          EndsIn-then _
            (read (λ t. looked_up s backend.0 (get_by_volume_id s.client backend.0 t.1))) _
            (λ lv.
              EndsIn-then _
                (make s as_returned
                  (part s r node wish.cache_group wish.cache_name wish.cache_gb lv.name))
                _ (λ cache. EndsIn-give AnyError _ (ok _) refl)))

  create_bcache_volume-OnNode :
      (r : CreateVolumeRequest) (node : String) (gb : ℤ)
      → EndsIn AnyError (OnNode node) (create_bcache_volume s r node gb)
  unfolding create_bcache_volume
  create_bcache_volume-OnNode r node gb = EndsIn-then _ _ _ (λ wish.
      EndsIn-then _ (read (λ t. test_nodes s r wish node t.1)) _
        (λ done. create_both-OnNode r wish node))

  -- A volume with a cache for which the scheduler has chosen no node is answered without a node,
  -- whatever node SelectMultiVolumeNode selects for it.
  pub create_bcache_volume_unplaced :
      (r : CreateVolumeRequest) (gb : ℤ) (t : Timed W) (volume : Volume)
      → (create_bcache_volume s r "" gb t).0 ≡ ok volume
      → volume.node ≡ ""
  create_bcache_volume_unplaced r gb t volume created =
      subst (Ends AnyError (OnNode "")) created ((create_bcache_volume-OnNode r "" gb).ends t)
