-- ===== src/Copy/PlatformCopier/Examples.antt =====
-- internal/image/copy/platforms.go against a small registry, whose repositories share their blobs.
use magic_mirror.Prelude.{◌≡◌, refl, [], ◌∷◌, Bytes, bytes_eq, codes}
use magic_mirror.Image.Types.{Image}
use magic_mirror.Image.Manifest.{Descriptor, ManifestKind, raw_manifest, as_manifest}
use magic_mirror.Registry.Outcome.{Outcome, done}
use magic_mirror.Registry.Client.{Net, Response, Url, repository_eq}
use magic_mirror.Copy.Manifests.{Reading}
use magic_mirror.Copy.PlatformCopier.{PlatformCopyKey, copy_platform}
use magic_mirror.Copy.PlatformCopier.Complete.{IsConsistent}
use magic_mirror.Copy.PlatformCopier.Mock.{
  State, mem, Holds, HasManifest, serve, is_member, outside, parsed, reading, find_result,
  get_if_held, caches,
}

abbrev Consistent : State → Type 0
Consistent s = IsConsistent outside reading caches Holds HasManifest s

abbrev initial : State
initial = record {
  registered = [];
  blobs = codes "c" ∷ [];
  manifests = codes "text" ∷ [];
  results = [];
}

abbrev image : Bytes → Image
image name = record {
  repository = record { registry = codes "r"; namespace = name };
  tag = codes "t";
  digest = [];
}

abbrev request : PlatformCopyKey
request = record { src = image (codes "from"); dst = image (codes "to") }

copy_platform_returns :
    (copy_platform outside reading caches request initial).0
    ≡ done (raw_manifest parsed (codes "text"))
unfolding copy_platform get_if_held mem bytes_eq magic_mirror.Image.Manifest.is_manifest
    magic_mirror.Image.Manifest.get_media_type magic_mirror.Copy.Manifests.or_crash as_manifest
    magic_mirror.Image.Manifest.validate_manifest magic_mirror.Image.Manifest.descriptor
    magic_mirror.Copy.Manifests.upload_manifest magic_mirror.Registry.Client.get_client
    magic_mirror.Registry.Client.new_request magic_mirror.Registry.Client.do_expecting_no_body serve
    magic_mirror.Registry.Client.expects find_result magic_mirror.Copy.Blobs.copy_blob is_member
    magic_mirror.Copy.Blobs.ensure_sources repository_eq
    magic_mirror.Copy.Blobs.check_for_existing_blob magic_mirror.Copy.Blobs.request_blob_upload_url
    magic_mirror.Copy.Blobs.send_blob magic_mirror.Copy.Blobs.download_blob
    magic_mirror.Registry.Client.do_expecting
copy_platform_returns = refl
