-- ===== src/Copy/PlatformCopier/Complete.antt =====
-- internal/image/copy/platforms.go: what registries promise, so that no manifest is in a repository
-- without its blobs.
use magic_mirror.Prelude.{All, ◌≡◌, List, [], ◌∷◌, some, Bytes}
use magic_mirror.Image.Types.{Image, Repository}
use magic_mirror.Image.Manifest.{ManifestKind, ParsedManifest, Descriptor, as_manifest, encoded}
use magic_mirror.Registry.Outcome.{Outcome, done, Ends}
use magic_mirror.Registry.Client.{put}
use magic_mirror.Copy.Blobs.{BlobCopyKey, Outside}
use magic_mirror.Copy.Blobs.Sound.{IsSound, Extends}
use magic_mirror.Copy.Blobs.Keeps.{BlobsKeep}
use magic_mirror.Copy.Manifests.{Reading, manifest_url, put_request}
use magic_mirror.Copy.PlatformCopier.{Caches}

-- The repository holds all of the blobs.
unfoldable pub HoldsAll :
    {S : Type 0} → (S → Repository → Bytes → Type 0) → S → Repository → List Bytes → Type 0
HoldsAll Holds s repo [] = Unit
HoldsAll Holds s repo (dgst ∷ dgsts) = Holds s repo dgst × HoldsAll Holds s repo dgsts

unfoldable pub HoldsKeys :
    {S : Type 0} → (S → Repository → Bytes → Type 0) → S → List BlobCopyKey → Type 0
HoldsKeys Holds s [] = Unit
HoldsKeys Holds s (key ∷ keys) = Holds s key.dst key.digest × HoldsKeys Holds s keys

-- The repository holds the layers and the configuration.
abbrev pub HoldsManifest :
    {S P : Type 0} → (S → Repository → Bytes → Type 0) → S → Repository → ParsedManifest P → Type 0
HoldsManifest Holds s repo m =
    All (λ layer. Holds s repo layer.digest) m.layers × Holds s repo m.config.digest

-- `Holds`: a repository holds a blob; `HasManifest`: a repository has a manifest with this text.
module _ {S C P : Type 0} (out : Outside S C) (reading : Reading P) (caches : Caches S P)
    (Holds : S → Repository → Bytes → Type 0) (HasManifest : S → Repository → Bytes → Type 0) where
  open out use {net}
  open reading use {codecs}

  -- The repository holds the blobs of a manifest with this text.
  abbrev pub HoldsBlobs : S → Repository → Bytes → Type 0
  HoldsBlobs s repo body =
      (m : ParsedManifest P)
      → reading.unmarshal_manifest body ≡ some m
      → HoldsManifest Holds s repo m

  -- No manifest is in a repository without its blobs.
  abbrev pub IsComplete : S → Type 0
  IsComplete s =
      (repo : Repository) (body : Bytes) → HasManifest s repo body → HoldsBlobs s repo body

  -- Where the cache says that a blob was copied, it is.
  abbrev pub IsRecorded : S → Type 0
  IsRecorded s =
      (key : BlobCopyKey) → caches.blob_result key s ≡ some (done tt) → Holds s key.dst key.digest

  abbrev pub IsConsistent : S → Type 0
  IsConsistent s = IsComplete s × IsRecorded s

  abbrev pub IsGood : S → Type 0
  IsGood s = IsSound out Holds s × IsConsistent s

  -- A manifest as getManifest returns it, from a repository that holds its blobs.
  pub record IsOffered (s : S) (repo : Repository) (kind : ManifestKind P) : Type 0 where
    pub body : Bytes
    pub unchanged : encoded codecs kind ≡ some body
    pub parsed :
        (m : ParsedManifest P)
        → as_manifest kind ≡ some m
        → reading.unmarshal_manifest body ≡ some m
    pub held : HoldsBlobs s repo body

  pub record Keeping : Type 0 where
    -- The registry shows a manifest that it was sent, and other goroutines send and record only what
    -- is so.
    pub put_consistent :
        (client : C) (img : Image) (reference body : Bytes) (kind : ManifestKind P)
        (desc : Descriptor P) (s : S)
        → HoldsBlobs s img.repository body
        → IsConsistent s
        → IsConsistent
            (net.exchange client
              (put_request net reading
                (record {
                  method = put;
                  url = manifest_url net reading img reference;
                  headers = [];
                  body = body;
                })
                kind
                desc)
              s).1
    -- No manifest comes of a request for a blob, of a lock, or of what the program writes apart.
    pub blobs_consistent : BlobsKeep out IsConsistent
    pub result_Extends :
        (key : BlobCopyKey) (r : Outcome (Unit {0})) (s : S)
        → Extends out Holds s (caches.set_blob_result key r s)
    pub result_consistent :
        (key : BlobCopyKey) (r : Outcome (Unit {0})) (s : S)
        → (r ≡ done tt → Holds s key.dst key.digest)
        → IsConsistent s
        → IsConsistent (caches.set_blob_result key r s)
    -- the cache of manifests
    pub inform_good : (img : Image) (s : S) → IsGood s → IsGood (caches.inform_front img s)
    pub get_good :
        (img : Image) (s : S)
        → IsGood s
        → Ends IsGood
            (λ kind s'. IsGood s' × IsOffered s' img.repository kind)
            (caches.get_cached img s)
