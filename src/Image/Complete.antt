-- ===== src/Image/Complete.antt =====
-- internal/image/image.go: what Parse adds to a match.
use magic_mirror.Prelude.{
  ◌≡◌, refl, sym, ap, ◌∙◌, subst, Bool, true, false, ◌&&◌, [], ◌++◌, Bytes, codes, bytes_eq,
  if◌then◌else◌, arith, not, Option, none, some, Bool-cases, inl, inr, ◌>>=◌,
}
use magic_mirror.StringKeyed.Encoding.{contains}
use magic_mirror.Image.Types.{Image, image_string}
use magic_mirror.Image.Parse.{
  ends_name, ends_tag, is_registry, find_submatch, complete, parse, unmarshal_text, marshal_text,
  replace_parsed, default_registry, Match,
}
use magic_mirror.Image.Scan.{Passes}
use magic_mirror.Image.RoundTrip.{assembled, IsTag, IsImage, parse-image_string, registry_full}
use magic_mirror.Image.Parsed.{if_some, none-some, find_submatch-some}

module _ (r n : Bytes) where
  with_library : Bytes
  with_library =
      if bytes_eq r default_registry && not (contains n b'/') then codes "library/" ++ n else n

  library_full : bytes_eq n [] ≡ false → bytes_eq with_library [] ≡ false
  unfolding with_library bytes_eq
  library_full full = elim (Bool-cases (bytes_eq r default_registry && not (contains n b'/'))) [
    | inl added ↦ rw added refl
    | inr kept ↦ rw kept full
  ]

  library-Passes : Passes ends_name n → Passes ends_name with_library
  unfolding with_library ends_name
  library-Passes pass = elim (Bool-cases (bytes_eq r default_registry && not (contains n b'/'))) [
    | inl added ↦ rw added (refl, (refl, (refl, (refl, (refl, (refl, (refl, (refl, pass))))))))
    | inr kept ↦ rw kept pass
  ]

  and_false : (b : Bool) → (b && false) ≡ false
  and_false true = refl
  and_false false = refl

  library_once : (bytes_eq r default_registry && not (contains with_library b'/')) ≡ false
  unfolding with_library contains
  library_once = elim (Bool-cases (bytes_eq r default_registry && not (contains n b'/'))) [
    | inl added ↦ rw added (and_false (bytes_eq r default_registry))
    | inr kept ↦ rw kept kept
  ]

module _ (t d : Bytes) where
  with_latest : Bytes
  with_latest = if bytes_eq t [] && bytes_eq d [] then codes "latest" else t

  latest-IsTag : IsTag t → IsTag with_latest
  unfolding with_latest ends_tag
  latest-IsTag h = elim (Bool-cases (bytes_eq t [] && bytes_eq d [])) [
    | inl bare ↦ rw bare ((refl, (refl, (refl, (refl, (refl, (refl, tt)))))), omega arith)
    | inr given ↦ rw given h
  ]

  latest_tagged : (bytes_eq with_latest [] && bytes_eq d []) ≡ false
  unfolding with_latest bytes_eq
  latest_tagged = elim (Bool-cases (bytes_eq t [] && bytes_eq d [])) [
    | inl bare ↦ rw bare refl
    | inr given ↦ rw given given
  ]

module _ (validate : Bytes → Bool) where
  completed : (r n t d : Bytes) → Image
  unfolding with_library with_latest
  completed r n t d = record {
    repository = record { registry = r; namespace = with_library r n };
    tag = with_latest t d;
    digest = d;
  }

  completed-IsImage :
      (r n t d : Bytes)
      → contains r b'/' ≡ false
      → is_registry r ≡ true
      → bytes_eq n [] ≡ false
      → Passes ends_name n
      → IsTag t
      → contains d 10 ≡ false
      → (not (bytes_eq d []) && not (validate d)) ≡ false
      → IsImage validate (completed r n t d)
  unfolding completed
  completed-IsImage r n t d clear marked full pass tag line valid = record {
    registry_clear = clear;
    registry_marked = marked;
    namespace_full = library_full r n full;
    namespace_clear = library-Passes r n pass;
    library_added = library_once r n;
    tag_allowed = latest-IsTag t d tag;
    digest_line = line;
    digest_valid = valid;
    tagged = latest_tagged t d;
  }

  default_clear : contains default_registry b'/' ≡ false
  unfolding contains
  default_clear = refl

  default_marked : is_registry default_registry ≡ true
  unfolding is_registry
  default_marked = refl

  complete_default :
      (n t d : Bytes) → complete (assembled [] n t d) ≡ completed default_registry n t d
  unfolding complete completed bytes_eq
  complete_default n t d = refl

  complete_given :
      (r n t d : Bytes) → is_registry r ≡ true → complete (assembled r n t d) ≡ completed r n t d
  unfolding complete completed
  complete_given r n t d marked = rw (registry_full validate r marked) refl

  complete-IsImage :
      (s : Bytes) (m : Match)
      → find_submatch s ≡ some m
      → (not (bytes_eq m.digest []) && not (validate m.digest)) ≡ false
      → IsImage validate (complete m)
  complete-IsImage s m e valid = elim (find_submatch-some s m e) [
    | inl (n, full, pass, (t, d, made, tag, line)) ↦
        subst (λ i. IsImage validate i) (sym (ap complete made ∙ complete_default n t d))
          (completed-IsImage default_registry n t d default_clear default_marked full pass tag line
            (subst (λ w. (not (bytes_eq w.digest []) && not (validate w.digest)) ≡ false) made
              valid))
    | inr (r, clear, marked, (n, full, pass, (t, d, made, tag, line))) ↦
        subst (λ i. IsImage validate i) (sym (ap complete made ∙ complete_given r n t d marked))
          (completed-IsImage r n t d clear marked full pass tag line (
            subst (λ w. (not (bytes_eq w.digest []) && not (validate w.digest)) ≡ false) made
              valid))
  ]

  bind_some :
      (o : Option Match) (f : Match → Option Image) (i : Image)
      → (o >>= f) ≡ some i
      → (m : Match) × (o ≡ some m) × (f m ≡ some i)
  bind_some none f i e = absurd (none-some i e)
  bind_some (some m) f i e = (m, refl, e)

  -- Whatever the check of digests, every image that Parse returns has a registry without a
  -- slash that has a dot or a colon inside, a non-empty namespace without colon and at sign,
  -- which has a slash on docker.io, a tag of at most 128 allowed bytes, a one-line digest
  -- which is valid or empty, and a tag or a digest.
  pub parse-IsImage : (s : Bytes) (i : Image) → parse validate s ≡ some i → IsImage validate i
  unfolding parse
  parse-IsImage s i e =
      let (m, found, e') = bind_some (find_submatch s) _ i e in
      elim (if_some (not (bytes_eq m.digest []) && not (validate m.digest)) none (some (complete m))
        i e') [
          | inl (invalid, e'') ↦ absurd (none-some i e'')
          | inr (valid, e'') ↦
              subst (λ w. IsImage validate w) (cc) (complete-IsImage s m found valid)
        ]

  -- What Parse returns prints as a string that Parse reads as the same image.
  pub parse_again :
      (s : Bytes) (i : Image) → parse validate s ≡ some i → parse validate (image_string i) ≡ some i
  parse_again s i e = parse-image_string validate i (parse-IsImage s i e)

  -- The text of an image that Parse returns is unmarshalled as that image, over any other.
  pub unmarshal_text-marshal_text :
      (s : Bytes) (i j : Image)
      → parse validate s ≡ some i
      → unmarshal_text validate j (marshal_text i) ≡ (i, false)
  unfolding unmarshal_text marshal_text replace_parsed
  unmarshal_text-marshal_text s i j e = rw (parse_again s i e) refl
