-- ===== src/Image/Examples.antt =====
-- Runs of internal/image/image.go on references, and the theorems applied to them.
use magic_mirror.Prelude.{false, ◌≡◌, refl, Bool, none, some, Bytes, codes, bytes_eq, []}
use magic_mirror.StringKeyed.Encoding.{contains}
use magic_mirror.Image.Types.{Image, image_string}
use magic_mirror.Image.Parse.{
  unmarshal_text, marshal_text, take_until, drop_until, is_slash, ends_name, ends_tag, is_registry,
  match_digest, match_tag, match_name, parse,
}
use magic_mirror.Image.RoundTrip.{IsImage, parse-image_string}
use magic_mirror.Image.Complete.{parse-IsImage, parse_again, unmarshal_text-marshal_text}

-- digests with an algorithm
abbrev validate : Bytes → Bool
validate d = contains d b':'

abbrev alpine : Image
alpine = record {
  repository = record { registry = codes "docker.io"; namespace = codes "library/alpine" };
  tag = codes "latest";
  digest = [];
}

abbrev other_image : Image
other_image = record alpine { tag = [] }

run_alpine : parse validate (codes "alpine") ≡ some alpine
unfolding parse take_until drop_until is_slash ends_name is_registry match_name match_tag
    match_digest bytes_eq contains
run_alpine = refl

run_print : image_string alpine ≡ codes "docker.io/library/alpine:latest"
unfolding image_string bytes_eq
run_print = refl

-- A registry with a port is told from a tag.
run_port :
    parse validate (codes "localhost:5000/a:b@x:y")
    ≡ some (record {
      repository = record { registry = codes "localhost:5000"; namespace = codes "a" };
      tag = codes "b";
      digest = codes "x:y";
    })
unfolding parse take_until drop_until is_slash ends_name ends_tag is_registry match_name match_tag
    match_digest bytes_eq contains
run_port = refl

run_refused : parse validate (codes "a@xy") ≡ none
unfolding parse take_until drop_until is_slash ends_name ends_tag is_registry match_name match_tag
    match_digest bytes_eq contains
run_refused = refl

alpine-IsImage : IsImage validate alpine
alpine-IsImage = parse-IsImage validate (codes "alpine") alpine run_alpine

parse-IsImage_example : IsImage validate alpine
parse-IsImage_example = parse-IsImage validate (codes "alpine") alpine run_alpine

parse-image_string_example : parse validate (image_string alpine) ≡ some alpine
parse-image_string_example = parse-image_string validate alpine alpine-IsImage

parse_again_example : parse validate (image_string alpine) ≡ some alpine
parse_again_example = parse_again validate (codes "alpine") alpine run_alpine

unmarshal_text-marshal_text_example :
    unmarshal_text validate other_image (marshal_text alpine) ≡ (alpine, false)
unmarshal_text-marshal_text_example =
    unmarshal_text-marshal_text validate (codes "alpine") alpine other_image run_alpine
