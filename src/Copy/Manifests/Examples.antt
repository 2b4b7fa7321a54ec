-- ===== src/Copy/Manifests/Examples.antt =====
-- internal/image/copy/manifests.go against a registry with one manifest.
use magic_mirror.Prelude.{◌≡◌, refl, true, false, [], ◌∷◌, some, none, bytes_eq, codes}
use magic_mirror.Image.Types.{Image}
use magic_mirror.Image.Manifest.{
  Descriptor, ParsedManifest, ManifestKind, raw_manifest, docker_manifest,
}
use magic_mirror.Registry.Outcome.{done, Ends}
use magic_mirror.Registry.Client.{answered, Net}
use magic_mirror.Copy.Manifests.{Reading, get_manifest}
use magic_mirror.Copy.Manifests.Downloaded.{IsDownloaded, get_manifest-IsDownloaded}

abbrev blob : Descriptor (Unit {0})
blob = record { media_type = []; digest = codes "c"; size = 1; annotations = []; platform = none }

abbrev parsed : ParsedManifest (Unit {0})
parsed = record { media_type = codes "m"; config = blob; layers = blob ∷ []; rest = [] }

abbrev net : Net (Unit {0}) (Unit {0})
net = record {
  exchange = λ client req s. (
    answered (record {
      status = 200;
      headers = (codes "Content-Type", codes "m") ∷ [];
      body = codes "text";
    }),
    tt,
  );
  new_transport = λ repo scope s. (tt, false, s);
  clients = λ s. [];
  set_clients = λ cs s. s;
  valid_url = λ url. true;
  registry_scheme = λ registry. none;
}

abbrev reading : Reading (Unit {0})
reading = record {
  types = record { oci_index = codes "i"; oci_manifest = codes "m" };
  codecs = record {
    marshal_index = λ i. none;
    marshal_manifest = λ m. some m.rest;
    digest_of = λ body. codes "d";
    is_valid_digest = λ digest. true;
  };
  verify = λ digest body. some (bytes_eq digest (codes "d"));
  read_all = λ resp. some resp.body;
  value_text = λ body. body;
  unmarshal_index = λ body. none;
  unmarshal_manifest = λ body. some parsed;
}

abbrev img : Image
img = record {
  repository = record { registry = codes "r"; namespace = codes "n" };
  tag = [];
  digest = codes "d";
}

get_manifest_returns :
    (get_manifest net reading img tt).0 ≡ done (raw_manifest parsed (codes "text"))
unfolding get_manifest magic_mirror.Registry.Client.get_client
    magic_mirror.Registry.Client.new_request magic_mirror.Registry.Client.do_expecting
    magic_mirror.Registry.Client.expects bytes_eq magic_mirror.Image.Manifest.is_index
    magic_mirror.Registry.Client.header_get magic_mirror.Image.Manifest.is_manifest
get_manifest_returns = refl

get_manifest-IsDownloaded_example :
    Ends (λ s'. Unit {0}) (λ m s'. IsDownloaded net reading img m) (get_manifest net reading img tt)
get_manifest-IsDownloaded_example = get_manifest-IsDownloaded net reading img tt
