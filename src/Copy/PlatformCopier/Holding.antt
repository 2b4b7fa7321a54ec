-- ===== src/Copy/PlatformCopier/Holding.antt =====
-- internal/image/copy/platforms.go: the blobs of a manifest, as a repository holds them.
use magic_mirror.Prelude.{All, List, [], ◌∷◌, ◌++◌, map, Bytes}
use magic_mirror.Image.Types.{Repository}
use magic_mirror.Image.Manifest.{Descriptor, ParsedManifest}
use magic_mirror.Registry.Outcome.{Outcome, done, failed, panics, Ends}
use magic_mirror.Copy.PlatformCopier.{copy_keys}
use magic_mirror.Copy.PlatformCopier.Complete.{HoldsAll, HoldsKeys, HoldsManifest}

module _ {S : Type 0} (Holds : S → Repository → Bytes → Type 0) where
  layers_imp :
      {P : Type 0} {s s' : S} {repo repo' : Repository} (layers : List (Descriptor P))
      → ((dgst : Bytes) → Holds s repo dgst → Holds s' repo' dgst)
      → All (λ layer. Holds s repo layer.digest) layers
      → All (λ layer. Holds s' repo' layer.digest) layers
  layers_imp [] f h = tt
  layers_imp (layer ∷ layers) f (h, hs) = (f layer.digest h, layers_imp layers f hs)

  pub HoldsAll-imp :
      {s s' : S} {repo : Repository}
      → ((dgst : Bytes) → Holds s repo dgst → Holds s' repo dgst)
      → (dgsts : List Bytes) → HoldsAll Holds s repo dgsts
      → HoldsAll Holds s' repo dgsts
  unfolding HoldsAll
  HoldsAll-imp f [] h = tt
  HoldsAll-imp f (dgst ∷ dgsts) (h, hs) = (f dgst h, HoldsAll-imp f dgsts hs)

  pub HoldsManifest-imp :
      {P : Type 0} {s s' : S} {repo repo' : Repository} (m : ParsedManifest P)
      → ((dgst : Bytes) → Holds s repo dgst → Holds s' repo' dgst)
      → HoldsManifest Holds s repo m
      → HoldsManifest Holds s' repo' m
  HoldsManifest-imp m f (layers, config) = (layers_imp m.layers f layers, f m.config.digest config)

  -- The digests that copyManifest collects are those of the manifest's blobs.
  pub HoldsAll-digests :
      {P : Type 0} {s : S} {repo : Repository} (config : Descriptor P)
      (layers : List (Descriptor P))
      → All (λ layer. Holds s repo layer.digest) layers
      → Holds s repo config.digest
      → HoldsAll Holds s repo (map (λ layer. layer.digest) layers ++ (config.digest ∷ []))
  unfolding HoldsAll
  HoldsAll-digests config [] held h = (h, tt)
  HoldsAll-digests config (layer ∷ layers) (held, others) h =
      (held, HoldsAll-digests config layers others h)

  pub digests-HoldsAll :
      {P : Type 0} {s : S} {repo : Repository} (config : Descriptor P)
      (layers : List (Descriptor P))
      → HoldsAll Holds s repo (map (λ layer. layer.digest) layers ++ (config.digest ∷ []))
      → All (λ layer. Holds s repo layer.digest) layers × Holds s repo config.digest
  unfolding HoldsAll
  digests-HoldsAll config [] (h, u) = (tt, h)
  digests-HoldsAll config (layer ∷ layers) (held, others) =
      let (rest, h) = digests-HoldsAll config layers others in ((held, rest), h)

  pub HoldsKeys-copy_keys :
      (s : S) (dst : Repository) (dgsts : List Bytes)
      → HoldsKeys Holds s (copy_keys dst dgsts)
      → HoldsAll Holds s dst dgsts
  unfolding HoldsAll HoldsKeys copy_keys
  HoldsKeys-copy_keys s dst [] h = tt
  HoldsKeys-copy_keys s dst (dgst ∷ dgsts) (h, hs) = (h, HoldsKeys-copy_keys s dst dgsts hs)

pub Ends-weaken :
    {S A : Type 0} (K R : S → Type 0) (Q Q' : A → S → Type 0)
    → ((s : S) → K s → R s)
    → ((a : A) (s : S) → Q a s → Q' a s)
    → (r : Outcome A × S) → Ends K Q r
    → Ends R Q' r
Ends-weaken K R Q Q' f g (done a, s) h = g a s h
Ends-weaken K R Q Q' f g (failed e, s) h = f s h
Ends-weaken K R Q Q' f g (panics, s) h = f s h
