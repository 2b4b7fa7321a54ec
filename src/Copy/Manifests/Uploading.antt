-- ===== src/Copy/Manifests/Uploading.antt =====
-- internal/image/copy/manifests.go: how uploadManifest ends.
use magic_mirror.Prelude.{◌≡◌, refl, Option, none, some, [], ◌∷◌, Bytes}
use magic_mirror.Image.Types.{Image}
use magic_mirror.Image.Manifest.{ManifestKind, Descriptor, descriptor, encoded}
use magic_mirror.Registry.Outcome.{Run, ◌>>=◌, Ends}
use magic_mirror.Registry.Client.{Net, push_scope, put}
use magic_mirror.Registry.Rules.{
  ClientsKeep, get_client-bind, new_request-bind, do_expecting_no_body-bind,
}
use magic_mirror.Copy.Manifests.{
  Reading, or_crash, or_else_bytes, manifest_url, put_request, upload_manifest,
}

module _ {S C P : Type 0} (net : Net S C) (reading : Reading P) where
  open reading use {codecs}

  pub or_crash-bind :
      {A B : Type 0} (K : S → Type 0) (Q : B → S → Type 0) (o : Option A) (f : A → Run S B) (s : S)
      → K s
      → ((a : A) → o ≡ some a → Ends K Q (f a s))
      → Ends K Q ((or_crash net reading o >>= f) s)
  unfolding or_crash
  or_crash-bind K Q none f s h k = h
  or_crash-bind K Q (some a) f s h k = k a refl

  -- What the upload's exchange keeps, uploadManifest keeps.
  pub upload_manifest-Ends :
      (K : S → Type 0) (img : Image) (kind : ManifestKind P) (s : S)
      → ClientsKeep net K
      → ((client : C) (reference body : Bytes) (desc : Descriptor P) (s' : S)
          → encoded codecs kind ≡ some body
          → K s'
          → K
              (net.exchange client
                (put_request net reading
                  (record {
                    method = put;
                    url = manifest_url net reading img reference;
                    headers = [];
                    body = body;
                  })
                  kind
                  desc)
                s').1)
      → K s
      → Ends K (λ u s'. K s') (upload_manifest net reading img kind s)
  unfolding upload_manifest
  upload_manifest-Ends K img kind s keep exchanged h =
      let Q : Unit {0} → S → Type 0 = λ u s'. K s' in
      get_client-bind keep Q img.repository push_scope _ s h λ client s1 h1.
        or_crash-bind K Q (descriptor codecs kind) _ s1 h1 λ desc e.
          or_crash-bind K Q (encoded codecs kind) _ s1 h1 λ body e'.
            let reference = or_else_bytes (or_else_bytes img.tag img.digest) desc.digest in
            let after = exchanged client reference body desc s1 e' h1 in
            new_request-bind net K Q put (manifest_url net reading img reference) body _ s1 h1 (
              do_expecting_no_body-bind net K Q (201 ∷ []) _ client _ s1 after
                λ resp e'' fine. after)
