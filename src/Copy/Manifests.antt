-- ===== src/Copy/Manifests.antt =====
-- internal/image/copy/manifests.go: manifests to and from registries.
pub mod Downloaded
pub mod Uploading
mod Examples
use magic_mirror.Prelude.{
  ℕ, Bool, true, false, List, [], ◌∷◌, ◌++◌, Option, none, some, Bytes, bytes_eq, codes,
  if◌then◌else◌, not,
}
use magic_mirror.Image.Types.{Image, Repository}
use magic_mirror.Image.Manifest.{
  MediaTypes, Codecs, Descriptor, ParsedIndex, ParsedManifest, ManifestKind, raw_index,
  raw_manifest, is_index, is_manifest, all_manifest_media_types, encoded, descriptor,
}
use magic_mirror.Registry.Outcome.{
  Outcome, done, Run, bad_answer, wrong_digest, unknown_type, bad_json, return, fail, crash, ◌>>=◌,
  ◌>>◌,
}
use magic_mirror.Registry.Client.{
  Net, Url, Request, Response, get, put, pull_scope, push_scope, header_get, api_base_url,
  new_request, do_expecting, do_expecting_no_body, get_client,
}

-- The packages besides the network. `verify` is a digest's verifier: whether the content has it, or
-- a panic. `read_all` may fail.
pub record Reading (P : Type 0) : Type 0 where
  pub types : MediaTypes
  pub codecs : Codecs P
  pub verify : Bytes → Bytes → Option Bool
  pub read_all : Response → Option Bytes
  -- The text of the value that Unmarshal passes to UnmarshalJSON, without the whitespace around it.
  pub value_text : Bytes → Bytes
  pub unmarshal_index : Bytes → Option (ParsedIndex P)
  pub unmarshal_manifest : Bytes → Option (ParsedManifest P)

unfoldable pub comma_join : List Bytes → Bytes
comma_join [] = []
comma_join (x ∷ []) = x
comma_join (x ∷ y ∷ r) = x ++ (b',' ∷ comma_join (y ∷ r))

unfoldable pub or_else_bytes : Bytes → Bytes → Bytes
or_else_bytes x y = if bytes_eq x [] then y else x

module _ {S C P : Type 0} (net : Net S C) (reading : Reading P) where
  open reading use {types, codecs}

  unfoldable pub or_crash : {A : Type 0} → Option A → Run S A
  or_crash none = crash
  or_crash (some a) = return a

  unfoldable pub manifest_url : Image → Bytes → Url
  manifest_url img reference = record (api_base_url net img.repository.registry) {
    path = codes "/v2/" ++ (img.repository.namespace ++ (codes "/manifests/" ++ reference));
  }

  unfoldable pub put_request : Request → ManifestKind P → Descriptor P → Request
  put_request req manifest desc = record req {
    headers = (codes "Content-Type", desc.media_type) ∷ [];
  }

  unfoldable pub upload_manifest : Image → ManifestKind P → Run S Unit
  unfolding or_crash manifest_url or_else_bytes put_request
  upload_manifest img manifest = do
    client ← get_client net img.repository push_scope
    desc ← or_crash (descriptor codecs manifest)
    body ← or_crash (encoded codecs manifest)
    req ←
        new_request net put
          (manifest_url img (or_else_bytes (or_else_bytes img.tag img.digest) desc.digest)) body
    resp ← do_expecting_no_body net client (put_request req manifest desc) (201 ∷ [])
    return tt

  unfoldable pub check_digest : Bytes → Option Bool → Run S Unit
  check_digest digest none = if bytes_eq digest [] then return tt else crash
  check_digest digest (some verified) =
      if bytes_eq digest [] then return tt else (if verified then return tt else fail wrong_digest)

  unfoldable pub or_bad_json : {A : Type 0} → Option A → Run S A
  or_bad_json none = fail bad_json
  or_bad_json (some a) = return a

  -- The last part: the content type decides how the body is read.
  unfoldable pub decode_manifest : Bytes → Bytes → Run S (ManifestKind P)
  unfolding or_bad_json
  decode_manifest content_type body =
      if is_index types content_type
      then (do
        index ← or_bad_json (reading.unmarshal_index body)
        return (raw_index index (reading.value_text body)))
      else (if is_manifest types content_type
          then (do
            manifest ← or_bad_json (reading.unmarshal_manifest body)
            return (raw_manifest manifest (reading.value_text body)))
          else fail (unknown_type content_type))

  unfoldable pub or_unread : Option Bytes → Run S Bytes
  or_unread none = fail bad_answer
  or_unread (some body) = return body

  unfoldable pub get_manifest : Image → Run S (ManifestKind P)
  unfolding manifest_url or_else_bytes comma_join or_unread check_digest decode_manifest
  get_manifest img = do
    client ← get_client net img.repository pull_scope
    req ← new_request net get (manifest_url img (or_else_bytes img.digest img.tag)) []
    resp ←
        do_expecting net client
          (record req {
            headers = (codes "Accept", comma_join (all_manifest_media_types types)) ∷ [];
          })
          (200 ∷ [])
    body ← or_unread (reading.read_all resp)
    check_digest img.digest (reading.verify img.digest body)
    decode_manifest (header_get resp.headers (codes "Content-Type")) body
