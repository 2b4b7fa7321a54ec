-- ===== src/Image/RoundTrip.antt =====
-- internal/image/image.go: what Parse returns is well formed, and prints as a string that it reads
-- back.
use magic_mirror.Prelude.{
  ℕ, suc, ◌≡◌, ◌≤◌, refl, sym, ap, ◌∙◌, Bool, true, false, ◌&&◌, [], ◌∷◌, ◌++◌, Bytes, bytes_eq,
  arith, leb, not, some, length, append_assoc, append-nil,
}
use magic_mirror.StringKeyed.Encoding.{contains}
use magic_mirror.Image.Types.{Image, image_string}
use magic_mirror.Image.Parse.{
  is_slash, ends_name, ends_tag, is_registry, match_digest, match_tag, match_name, with_digest,
  or_else, after_registry, find_submatch, complete, parse, default_registry, Match,
}
use magic_mirror.Image.Scan.{Passes, Stops, take_until-append, drop_until-append, no_slash}

-- the end of a reference, by its digest
digest_part : Bytes → Bytes
digest_part [] = []
digest_part (c ∷ d) = b'@' ∷ c ∷ d

tag_part : Bytes → Bytes
tag_part [] = []
tag_part (c ∷ t) = b':' ∷ c ∷ t

abbrev pub IsTag : Bytes → Type 0
IsTag t = Passes ends_tag t × (length t ≤ 128)

module _ (registry namespace tag digest : Bytes) where
  abbrev pub assembled : Match
  assembled = record { registry = registry; namespace = namespace; tag = tag; digest = digest }

match_digest_part : (d : Bytes) → contains d 10 ≡ false → match_digest (digest_part d) ≡ some d
unfolding match_digest digest_part bytes_eq
match_digest_part [] h = refl
match_digest_part (c ∷ d) h = rw h refl

digest_part-Stops : (d : Bytes) → Stops ends_tag (digest_part d)
unfolding digest_part ends_tag
digest_part-Stops [] = tt
digest_part-Stops (c ∷ d) = refl

tag_part-Stops : (t d : Bytes) → Stops ends_name (tag_part t ++ digest_part d)
unfolding digest_part tag_part ends_name
tag_part-Stops [] [] = tt
tag_part-Stops [] (c ∷ d) = refl
tag_part-Stops (c ∷ t) d = refl

leb_one : (n : ℕ) → leb 1 (suc n) ≡ true
leb_one n = ground arith

leb-true : (m n : ℕ) → m ≤ n → leb m n ≡ true
leb-true m n h = ground arith

slash_stops : is_slash b'/' ≡ true
unfolding is_slash
slash_stops = refl

module _ (r n : Bytes) where
  match_tag_part :
      (t d : Bytes)
      → IsTag t
      → contains d 10 ≡ false
      → match_tag r n (tag_part t ++ digest_part d) ≡ some (assembled r n t d)
  unfolding match_tag tag_part with_digest digest_part match_digest
  match_tag_part [] [] h k = refl
  match_tag_part [] (c ∷ d) h k = rw (match_digest_part (c ∷ d) k) refl
  match_tag_part (c ∷ t) d (h, short) k =
      rw
        (
          take_until-append ends_tag (c ∷ t) (digest_part d) h (digest_part-Stops d),
          drop_until-append ends_tag (c ∷ t) (digest_part d) h (digest_part-Stops d),
          leb_one (length t),
          leb-true (suc (length t)) 128 short,
          match_digest_part d k,
        )
        refl

  match_name_part :
      (t d : Bytes)
      → bytes_eq n [] ≡ false
      → Passes ends_name n
      → IsTag t
      → contains d 10 ≡ false
      → match_name r (n ++ (tag_part t ++ digest_part d)) ≡ some (assembled r n t d)
  unfolding match_name
  match_name_part t d full pass h k =
      rw
        (
          take_until-append ends_name n (tag_part t ++ digest_part d) pass (tag_part-Stops t d),
          drop_until-append ends_name n (tag_part t ++ digest_part d) pass (tag_part-Stops t d),
          full,
        )
        (match_tag_part t d h k)

  find_submatch_part :
      (t d : Bytes)
      → contains r b'/' ≡ false
      → is_registry r ≡ true
      → bytes_eq n [] ≡ false
      → Passes ends_name n
      → IsTag t
      → contains d 10 ≡ false
      → find_submatch (r ++ (b'/' ∷ (n ++ (tag_part t ++ digest_part d))))
        ≡ some (assembled r n t d)
  unfolding find_submatch or_else after_registry
  find_submatch_part t d clear marked full pass h k =
      rw
        (
          take_until-append is_slash r (b'/' ∷ (n ++ (tag_part t ++ digest_part d)))
              (no_slash r clear) slash_stops,
          drop_until-append is_slash r (b'/' ∷ (n ++ (tag_part t ++ digest_part d)))
              (no_slash r clear) slash_stops,
          marked,
          match_name_part t d full pass h k,
        )
        refl

  string_shape :
      (t d : Bytes)
      → image_string
          (record { repository = record { registry = r; namespace = n }; tag = t; digest = d })
        ≡ r ++ (b'/' ∷ (n ++ (tag_part t ++ digest_part d)))
  unfolding image_string tag_part digest_part bytes_eq
  string_shape [] [] = rw (append-nil n) refl
  string_shape [] (c ∷ d) = append_assoc r (b'/' ∷ n) (b'@' ∷ c ∷ d)
  string_shape (e ∷ t) [] =
      append_assoc r (b'/' ∷ n) (b':' ∷ e ∷ t)
      ∙ ap (λ w. r ++ (b'/' ∷ (n ++ (b':' ∷ e ∷ w)))) (sym (append-nil t))
  string_shape (e ∷ t) (c ∷ d) =
      append_assoc (r ++ (b'/' ∷ n)) (b':' ∷ e ∷ t) (b'@' ∷ c ∷ d)
      ∙ append_assoc r (b'/' ∷ n) (b':' ∷ e ∷ (t ++ (b'@' ∷ c ∷ d)))

-- What Parse promises of an image: its registry is one that the pattern takes, on the default one a
-- namespace has two parts, and it has a tag or a digest, which is valid.
module _ (validate : Bytes → Bool) where
  pub record IsImage (i : Image) : Type 0 where
    pub registry_clear : contains i.repository.registry b'/' ≡ false
    pub registry_marked : is_registry i.repository.registry ≡ true
    pub namespace_full : bytes_eq i.repository.namespace [] ≡ false
    pub namespace_clear : Passes ends_name i.repository.namespace
    pub library_added :
        (bytes_eq i.repository.registry default_registry
          && not (contains i.repository.namespace b'/'))
        ≡ false
    pub tag_allowed : IsTag i.tag
    pub digest_line : contains i.digest 10 ≡ false
    pub digest_valid : (not (bytes_eq i.digest []) && not (validate i.digest)) ≡ false
    pub tagged : (bytes_eq i.tag [] && bytes_eq i.digest []) ≡ false

  pub registry_full : (r : Bytes) → is_registry r ≡ true → bytes_eq r [] ≡ false
  unfolding bytes_eq is_registry
  registry_full [] h = absurd (cc)
  registry_full (c ∷ r) h = refl

  -- A well-formed image is read back from what it prints as.
  pub parse-image_string : (i : Image) → IsImage i → parse validate (image_string i) ≡ some i
  unfolding parse complete
  parse-image_string i h =
      let found =
        find_submatch_part i.repository.registry i.repository.namespace i.tag i.digest
          h.registry_clear h.registry_marked h.namespace_full h.namespace_clear h.tag_allowed
          h.digest_line in
      rw
        (
          string_shape i.repository.registry i.repository.namespace i.tag i.digest,
          found,
          h.digest_valid,
          registry_full i.repository.registry h.registry_marked,
          h.library_added,
          h.tagged,
        )
        refl
