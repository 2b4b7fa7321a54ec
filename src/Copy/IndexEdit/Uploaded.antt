-- ===== src/Copy/IndexEdit/Uploaded.antt =====
-- internal/image/copy/copier.go, copyIndex: the index that is uploaded.
use magic_mirror.Prelude.{
  ◌≡◌, inl, inr, refl, sym, ap, subst, ◌∙◌, ◌>>=◌, Bool, true, false, List, [], ◌∷◌, length, Option,
  none, some, Bool-cases,
}
use magic_mirror.StringKeyed.Operations.{Set}
use magic_mirror.Image.Manifest.{
  Codecs, Descriptor, ParsedIndex, ManifestKind, parsed_index, as_index,
}
use magic_mirror.Copy.Platforms.{to_platforms}
use magic_mirror.Copy.IndexEdit.{
  PlatformCode, Selection, matching, select_for, select, changed_index, upload_index,
}
use magic_mirror.Copy.IndexEdit.Edited.{
  digests_of, platforms_of, edited, kept_platforms, differs, Described, replace_each-edited,
  any_changed-differs, edited-same, edited-digests, edited-platforms,
}

is_some : {A : Type 0} → Option A → Bool
is_some none = false
is_some (some a) = true

-- Whether the slice of the selected descriptors is that of the uploaded index.
unfoldable pub is_limited : {P : Type 0} → Selection P → Bool
unfolding is_some
is_limited selection = is_some selection.limited

some-inj : {A : Type 0} {a b : A} → some a ≡ some b → a ≡ b
some-inj e = cc

module _ {P : Type 0} (codecs : Codecs P) (code : PlatformCode P) where
  -- The entries of the slices agree.
  Agrees : ParsedIndex P → List (Descriptor P) → Option (ParsedIndex P) → Type 0
  Agrees index selected none = selected ≡ index.manifests
  Agrees index selected (some dst) = dst.manifests ≡ selected

  matched-Agrees :
      (index copy : ParsedIndex P) (o : Option (List (Descriptor P))) (selection : Selection P)
      → (o >>= λ ds.
          some (record { selected = ds; limited = some (record copy { manifests = ds }) }))
        ≡ some selection
      → Agrees index selection.selected selection.limited
  unfolding Agrees
  matched-Agrees index copy none selection e = absurd cc
  matched-Agrees index copy (some ds) selection e =
      subst (λ w. Agrees index w.selected w.limited) (some-inj e) refl

  select_for-Agrees :
      (index : ParsedIndex P) (limits : List P) (selection : Selection P)
      → code.deep_copy index ≡ some index
      → select_for code index limits ≡ some selection
      → Agrees index selection.selected selection.limited
  unfolding select_for Agrees
  select_for-Agrees index [] selection copied e =
      subst (λ w. Agrees index w.selected w.limited) (some-inj e) refl
  select_for-Agrees index (p ∷ ps) selection copied e =
      matched-Agrees index index (matching code (p ∷ ps) index.manifests) selection (
        subst
          (λ o.
            (o >>= λ copy. matching code (p ∷ ps) copy.manifests >>= λ ds.
            some (record { selected = ds; limited = some (record copy { manifests = ds }) }))
            ≡ some selection)
          copied e)

  limits-Agrees :
      (index : ParsedIndex P) (o : Option (List P)) (selection : Selection P)
      → code.deep_copy index ≡ some index
      → (o >>= select_for code index) ≡ some selection
      → Agrees index selection.selected selection.limited
  limits-Agrees index none selection copied e = absurd cc
  limits-Agrees index (some limits) selection copied e =
      select_for-Agrees index limits selection copied e

  -- The index that is uploaded: it has these entries.
  pub record Uploads (kind : ManifestKind P) (index : ParsedIndex P) (selection : Selection P)
      (manifests : List (ManifestKind P)) (entries : List (Descriptor P)) : Type 0 where
    pub upload : ManifestKind P
    pub uploaded : ParsedIndex P
    pub returns :
        upload_index code codecs kind index selection.selected selection.limited manifests
        ≡ some upload
    pub is_index : as_index upload ≡ some uploaded
    pub has_entries : uploaded.manifests ≡ entries

  upload_index-edited :
      (kind : ManifestKind P) (index : ParsedIndex P) (selected : List (Descriptor P))
      (limited : Option (ParsedIndex P)) (manifests : List (ManifestKind P))
      (descs : List (Descriptor P))
      → code.deep_copy index ≡ some index
      → as_index kind ≡ some index
      → Agrees index selected limited
      → Described codecs manifests descs
      → length descs ≡ length selected
      → Uploads kind index
          (record { selected = selected; limited = limited })
          manifests
          (edited (is_some limited) selected selected descs)
  unfolding upload_index Agrees changed_index is_some as_index
  upload_index-edited kind index selected none manifests descs copied is_index agrees described e =
      elim (Bool-cases (differs selected descs)) [
        | inl changed ↦ record {
          upload = parsed_index (record index { manifests = edited false selected selected descs });
          uploaded = record index { manifests = edited false selected selected descs };
          returns =
              rw
                (
                  any_changed-differs codecs described selected e,
                  changed,
                  copied,
                  sym agrees,
                  replace_each-edited codecs described false selected selected refl e,
                )
                refl;
          is_index = refl;
          has_entries = refl;
        }
        | inr same ↦ record {
          upload = kind;
          uploaded = index;
          returns = rw (any_changed-differs codecs described selected e, same) refl;
          is_index = is_index;
          has_entries = sym agrees ∙ sym (edited-same false selected descs same);
        }
      ]
  upload_index-edited kind index selected (some dst) manifests descs copied is_index agrees
        described e =
      record {
        upload = parsed_index (record dst { manifests = edited true selected selected descs });
        uploaded = record dst { manifests = edited true selected selected descs };
        returns =
            rw (agrees, replace_each-edited codecs described true selected selected refl e) refl;
        is_index = refl;
        has_entries = refl;
      }

  module _ (kind : ManifestKind P) (index : ParsedIndex P) (limit_platforms : Set)
      (selection : Selection P) (manifests : List (ManifestKind P)) (descs : List (Descriptor P))
      (copied : code.deep_copy index ≡ some index) (is_index : as_index kind ≡ some index)
      (selects : select code limit_platforms index ≡ some selection)
      (described : Described codecs manifests descs)
      (one_each : length descs ≡ length selection.selected) where
    upload :
        Uploads kind index selection manifests
          (edited (is_limited selection) selection.selected selection.selected descs)
    unfolding is_limited select
    upload =
        upload_index-edited kind index selection.selected selection.limited manifests descs copied
          is_index
          (limits-Agrees index (to_platforms code.parse_platform limit_platforms) selection copied
            selects)
          described one_each

    -- An index is uploaded, with no panic, and it lists the manifests that were copied: its digests
    -- are theirs, in order. This is where copies of indexes equal them, the index is the parsed
    -- source, the descriptors were selected from it, and one manifest was copied for each, with or
    -- without a limit on platforms, and whether or not a digest changed.
    pub upload_index-digests :
        (up : ManifestKind P) × (uploaded : ParsedIndex P) × (upload_index code codecs kind index
            selection.selected selection.limited manifests
          ≡ some up)
        × (as_index up ≡ some uploaded)
        × (digests_of uploaded.manifests ≡ digests_of descs)
    upload_index-digests = (
      upload.upload,
      upload.uploaded,
      upload.returns,
      upload.is_index,
      ap digests_of upload.has_entries
          ∙ edited-digests (is_limited selection) selection.selected descs one_each,
    )

    -- In the same situation, each entry of the uploaded index has the platform of the descriptor
    -- that was selected, unless there is a limit on platforms and the digest changed: that entry
    -- has no platform.
    pub upload_index-platforms :
        (up : ManifestKind P) × (uploaded : ParsedIndex P) × (upload_index code codecs kind index
            selection.selected selection.limited manifests
          ≡ some up)
        × (as_index up ≡ some uploaded)
        × (platforms_of uploaded.manifests
            ≡ kept_platforms (is_limited selection) selection.selected descs)
    upload_index-platforms = (
      upload.upload,
      upload.uploaded,
      upload.returns,
      upload.is_index,
      ap platforms_of upload.has_entries
          ∙ edited-platforms described (is_limited selection) selection.selected,
    )
