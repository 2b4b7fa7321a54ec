-- ===== src/Copy/Manifests/Downloaded.antt =====
-- internal/image/copy/manifests.go: what getManifest returns.
use magic_mirror.Prelude.{
  ℕ, ◌≡◌, inl, inr, refl, Bool, true, false, [], ◌∷◌, Option, none, some, Bytes, bytes_eq, codes,
  Bool-cases, arith,
}
use magic_mirror.Image.Types.{Image}
use magic_mirror.Image.Manifest.{
  ManifestKind, ParsedIndex, ParsedManifest, raw_index, raw_manifest, is_index, is_manifest,
  encoded,
}
use magic_mirror.Registry.Outcome.{Ends-imp, Run, return, ◌>>=◌, ◌>>◌, Ends}
use magic_mirror.Registry.Client.{
  Request, Response, answered, expects, Net, get, pull_scope, header_get,
}
use magic_mirror.Registry.Rules.{ClientsKeep, get_client-bind, new_request-bind, do_expecting-bind}
use magic_mirror.Copy.Manifests.{
  Reading, manifest_url, or_else_bytes, check_digest, decode_manifest, or_unread, get_manifest,
  or_bad_json,
}

module _ {S C P : Type 0} (net : Net S C) (reading : Reading P) where
  open reading use {types, codecs}

  -- What the body of an answer with a content type is parsed to, with the text of the JSON value.
  pub data IsParsed (content_type body : Bytes) : ManifestKind P → Type 0 where
    an_index :
        {i : ParsedIndex P}
        → is_index types content_type ≡ true
        → reading.unmarshal_index body ≡ some i
        → IsParsed content_type body (raw_index i (reading.value_text body))
    a_manifest :
        {p : ParsedManifest P}
        → is_index types content_type ≡ false
        → is_manifest types content_type ≡ true
        → reading.unmarshal_manifest body ≡ some p
        → IsParsed content_type body (raw_manifest p (reading.value_text body))

  IsParsed-encoded :
      {content_type body : Bytes} {m : ManifestKind P}
      → IsParsed content_type body m
      → encoded codecs m ≡ some (reading.value_text body)
  unfolding encoded
  IsParsed-encoded (an_index e e') = refl
  IsParsed-encoded (a_manifest e e' e'') = refl

  -- The manifest is the parsed body of the registry's answer to a request for the image, and where
  -- the image has a digest, the body has it.
  pub record IsDownloaded (img : Image) (m : ManifestKind P) : Type 0 where
    pub client : C
    pub request : Request
    pub before : S
    pub response : Response
    pub body : Bytes
    pub asked :
        (request.method ≡ get)
        × (request.url ≡ manifest_url net reading img (or_else_bytes img.digest img.tag))
    pub got : (net.exchange client request before).0 ≡ answered response
    pub accepted : response.status ≡ 200
    pub has_body : reading.read_all response ≡ some body
    pub parsed : IsParsed (header_get response.headers (codes "Content-Type")) body m
    pub value : encoded codecs m ≡ some (reading.value_text body)
    pub verified : bytes_eq img.digest [] ≡ false → reading.verify img.digest body ≡ some true

  accepted_status : (status : ℕ) → expects (200 ∷ []) status ≡ true → status ≡ 200
  unfolding expects
  accepted_status status e = ground arith

  or_bad_json-bind :
      {A B : Type 0} (Q : B → S → Type 0) (o : Option A) (f : A → Run S B) (s : S)
      → ((a : A) → o ≡ some a → Ends (λ s'. Unit {0}) Q (f a s))
      → Ends (λ s'. Unit {0}) Q ((or_bad_json net reading o >>= f) s)
  unfolding or_bad_json
  or_bad_json-bind Q none f s k = tt
  or_bad_json-bind Q (some a) f s k = k a refl

  decode_manifest-Ends :
      (content_type body : Bytes) (s : S)
      → Ends
          (λ s'. Unit {0})
          (λ m s'. IsParsed content_type body m)
          (decode_manifest net reading content_type body s)
  unfolding decode_manifest
  decode_manifest-Ends content_type body s = elim (Bool-cases (is_index types content_type)) [
    | inl index ↦ rw index (
        or_bad_json-bind (λ m s'. IsParsed content_type body m) (reading.unmarshal_index body)
          (λ i. return (raw_index i (reading.value_text body))) s λ i e. an_index index e)
    | inr other ↦ elim (Bool-cases (is_manifest types content_type)) [
      | inl manifest ↦
          rw (other, manifest)
            (or_bad_json-bind (λ m s'. IsParsed content_type body m)
              (reading.unmarshal_manifest body)
              (λ p. return (raw_manifest p (reading.value_text body))) s
              λ p e. a_manifest other manifest e)
      | inr neither ↦ rw (other, neither) tt
    ]
  ]

  check_digest-bind :
      {B : Type 0} (Q : B → S → Type 0) (digest : Bytes) (verified : Option Bool) (k : Run S B)
      (s : S)
      → ((bytes_eq digest [] ≡ false → verified ≡ some true) → Ends (λ s'. Unit {0}) Q (k s))
      → Ends (λ s'. Unit {0}) Q ((check_digest net reading digest verified >> k) s)
  unfolding check_digest
  check_digest-bind Q digest none k s h = elim (Bool-cases (bytes_eq digest [])) [
    | inl empty ↦ rw empty (h (λ other. absurd (ground arith)))
    | inr other ↦ rw other tt
  ]
  check_digest-bind Q digest (some false) k s h = elim (Bool-cases (bytes_eq digest [])) [
    | inl empty ↦ rw empty (h (λ other. absurd (ground arith)))
    | inr other ↦ rw other tt
  ]
  check_digest-bind Q digest (some true) k s h = elim (Bool-cases (bytes_eq digest [])) [
    | inl empty ↦ rw empty (h (λ other. refl))
    | inr other ↦ rw other (h (λ _. refl))
  ]

  or_unread-bind :
      {B : Type 0} (Q : B → S → Type 0) (o : Option Bytes) (f : Bytes → Run S B) (s : S)
      → ((body : Bytes) → o ≡ some body → Ends (λ s'. Unit {0}) Q (f body s))
      → Ends (λ s'. Unit {0}) Q ((or_unread net reading o >>= f) s)
  unfolding or_unread
  or_unread-bind Q none f s k = tt
  or_unread-bind Q (some body) f s k = k body refl

  keep : ClientsKeep net (λ s. Unit {0})
  keep = record { new_transport-keeps = λ repo scope s h. tt; set_clients-keeps = λ cs s h. tt }

  -- A manifest that getManifest returns is the body of an answer with status 200 to a GET for the
  -- image's digest or tag, parsed as its content type says; its encoding is the text of the JSON
  -- value in the body; and where the image has a digest, the body was verified to have it.
  pub get_manifest-IsDownloaded :
      (img : Image) (s : S)
      → Ends (λ s'. Unit {0}) (λ m s'. IsDownloaded img m) (get_manifest net reading img s)
  unfolding get_manifest
  get_manifest-IsDownloaded img s =
      let Q : ManifestKind P → S → Type 0 = λ m s'. IsDownloaded img m in
      get_client-bind keep Q img.repository pull_scope _ s tt λ client s1 _.
        new_request-bind net (λ s'. Unit {0}) Q get
          (manifest_url net reading img (or_else_bytes img.digest img.tag)) [] _ s1 tt
          (do_expecting-bind net (λ s'. Unit {0}) Q (200 ∷ []) _ client _ s1 tt
            λ resp e fine. or_unread-bind Q (reading.read_all resp) _ _ λ body e'.
              check_digest-bind Q img.digest (reading.verify img.digest body) _ _ λ verified.
                Ends-imp (λ s'. Unit {0})
                  (λ m s'. IsParsed (header_get resp.headers (codes "Content-Type")) body m) Q
                  (λ m s' p. record {
                    client = client;
                    request = _;
                    before = s1;
                    response = resp;
                    body = body;
                    asked = (refl, refl);
                    got = e;
                    accepted = accepted_status resp.status fine;
                    has_body = e';
                    parsed = p;
                    value = IsParsed-encoded p;
                    verified = verified;
                  })
                  _ (decode_manifest-Ends (header_get resp.headers (codes "Content-Type")) body _))
