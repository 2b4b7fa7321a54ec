-- ===== src/Copy/IndexEdit/Edited.antt =====
-- internal/image/copy/copier.go, copyIndex: what its loops do to the entries of an index, by
-- descriptors.
use magic_mirror.Prelude.{
  ◌≡◌, inl, inr, refl, sym, ap, Bool, false, ◌||◌, List, [], ◌∷◌, map, length, Option, none, some,
  Bytes, bytes_eq, if◌then◌else◌, not, Bool-cases, arith, bytes_eq_sound,
}
use magic_mirror.Image.Manifest.{
  Codecs, Descriptor, ManifestKind, get_media_type, encoded, describe, descriptor,
}
use magic_mirror.Copy.IndexEdit.{replaced, replace_each, any_changed}

module _ {P : Type 0} where
  abbrev pub digests_of : List (Descriptor P) → List Bytes
  digests_of ds = map (λ d. d.digest) ds

  abbrev pub platforms_of : List (Descriptor P) → List (Option P)
  platforms_of ds = map (λ d. d.platform) ds

  unfoldable pub edited :
      Bool → List (Descriptor P) → List (Descriptor P) → List (Descriptor P) → List (Descriptor P)
  unfolding replaced
  edited shared entries selected [] = entries
  edited shared [] selected (desc ∷ descs) = []
  edited shared (entry ∷ entries) [] (desc ∷ descs) = entry ∷ entries
  edited shared (entry ∷ entries) (old ∷ selected) (desc ∷ descs) =
      (if bytes_eq desc.digest old.digest then entry else replaced shared old desc)
      ∷ edited shared entries selected descs

  -- The entry's platform where the digest is the same; else the old one, or none if it was hidden.
  unfoldable pub kept_platforms : Bool → List (Descriptor P) → List (Descriptor P) → List (Option P)
  kept_platforms shared [] descs = []
  kept_platforms shared (old ∷ selected) [] = old.platform ∷ platforms_of selected
  kept_platforms shared (old ∷ selected) (desc ∷ descs) =
      (if bytes_eq desc.digest old.digest
        then old.platform
        else (if shared then none else old.platform))
      ∷ kept_platforms shared selected descs

  unfoldable pub differs : List (Descriptor P) → List (Descriptor P) → Bool
  differs selected [] = false
  differs [] (desc ∷ descs) = false
  differs (old ∷ selected) (desc ∷ descs) =
      not (bytes_eq desc.digest old.digest) || differs selected descs

  -- The manifests have these descriptors.
  pub data Described (codecs : Codecs P)
      : List (ManifestKind P) → List (Descriptor P) → Type 0 where
    all_described : Described codecs [] []
    next_described :
        {m : ManifestKind P} {ms : List (ManifestKind P)} {d : Descriptor P}
        {ds : List (Descriptor P)}
        → descriptor codecs m ≡ some d
        → Described codecs ms ds
        → Described codecs (m ∷ ms) (d ∷ ds)

  module _ (codecs : Codecs P) where
    some-inj : {A : Type 0} {a b : A} → some a ≡ some b → a ≡ b
    some-inj e = cc

    describe-platform :
        (media_type : Bytes) (o : Option Bytes) (d : Descriptor P)
        → describe codecs media_type o ≡ some d
        → d.platform ≡ none
    unfolding describe
    describe-platform media_type none d e = absurd cc
    describe-platform media_type (some body) d e = sym (ap (λ w. w.platform) (some-inj e))

    pub descriptor-platform :
        (m : ManifestKind P) (d : Descriptor P) → descriptor codecs m ≡ some d → d.platform ≡ none
    unfolding descriptor
    descriptor-platform m d e = describe-platform (get_media_type m) (encoded codecs m) d e

    pub replace_each-edited :
        {ms : List (ManifestKind P)} {descs : List (Descriptor P)}
        → Described codecs ms descs
        → (shared : Bool) (entries selected : List (Descriptor P))
        → length entries ≡ length selected
        → length descs ≡ length selected
        → replace_each codecs shared entries selected ms
          ≡ some (edited shared entries selected descs)
    unfolding replace_each edited
    replace_each-edited all_described shared entries selected l k = refl
    replace_each-edited (next_described e h) shared (entry ∷ entries) (old ∷ selected) l k =
        rw (e, replace_each-edited h shared entries selected (omega arith) (omega arith)) refl
    replace_each-edited (next_described e h) shared [] selected l k = absurd (omega arith)
    replace_each-edited (next_described e h) shared (entry ∷ entries) [] l k = absurd (omega arith)

    pub any_changed-differs :
        {ms : List (ManifestKind P)} {descs : List (Descriptor P)}
        → Described codecs ms descs
        → (selected : List (Descriptor P)) → length descs ≡ length selected
        → any_changed codecs selected ms ≡ some (differs selected descs)
    unfolding any_changed differs
    any_changed-differs all_described selected k = refl
    any_changed-differs (next_described e h) (old ∷ selected) k =
        rw (e, any_changed-differs h selected (omega arith)) refl
    any_changed-differs (next_described e h) [] k = absurd (omega arith)

  pub edited-same :
      (shared : Bool) (selected descs : List (Descriptor P))
      → differs selected descs ≡ false
      → edited shared selected selected descs ≡ selected
  unfolding edited differs
  edited-same shared selected [] e = refl
  edited-same shared [] (desc ∷ descs) e = refl
  edited-same shared (old ∷ selected) (desc ∷ descs) e =
      ground (arith, edited-same shared selected descs)

  pub edited-digests :
      (shared : Bool) (selected descs : List (Descriptor P))
      → length descs ≡ length selected
      → digests_of (edited shared selected selected descs) ≡ digests_of descs
  unfolding edited replaced
  edited-digests shared [] [] e = refl
  edited-digests shared [] (desc ∷ descs) e = absurd (omega arith)
  edited-digests shared (old ∷ selected) [] e = absurd (omega arith)
  edited-digests shared (old ∷ selected) (desc ∷ descs) e =
      let rest = edited-digests shared selected descs (omega arith) in
      elim (Bool-cases (bytes_eq desc.digest old.digest)) [
        | inl same ↦ rw (same, rest, bytes_eq_sound desc.digest old.digest same) refl
        | inr other ↦ rw (other, rest) refl
      ]

  pub edited-platforms :
      {codecs : Codecs P} {ms : List (ManifestKind P)} {descs : List (Descriptor P)}
      → Described codecs ms descs
      → (shared : Bool) (selected : List (Descriptor P))
      → platforms_of (edited shared selected selected descs) ≡ kept_platforms shared selected descs
  unfolding edited replaced kept_platforms
  edited-platforms all_described shared [] = refl
  edited-platforms all_described shared (old ∷ selected) = refl
  edited-platforms (next_described e h) shared [] = refl
  edited-platforms {codecs = codecs} (next_described {m = m} {d = desc} e h) shared
        (old ∷ selected) =
      let rest = edited-platforms h shared selected in
      elim (Bool-cases (bytes_eq desc.digest old.digest)) [
        | inl same ↦ rw (same, rest) refl
        | inr other ↦ elim (Bool-cases shared) [
          | inl hidden ↦ rw (other, hidden, rest, descriptor-platform codecs m desc e) refl
          | inr apart ↦ rw (other, apart, rest) refl
        ]
      ]
