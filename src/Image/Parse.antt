-- ===== src/Image/Parse.antt =====
-- internal/image/image.go: Parse. The pattern imageRegexp is matched by hand: each of its parts
-- ends where its class of bytes ends, so a string has one match with a registry at most, and one
-- without, which counts when the first fails.
use magic_mirror.Prelude.{
  ◌>>=◌, ℕ, Bool, true, false, ◌&&◌, ◌||◌, [], ◌∷◌, ◌++◌, Bytes, codes, bytes_eq, if◌then◌else◌,
  ◌==◌, leb, not, Option, none, some, length,
}
use magic_mirror.StringKeyed.Encoding.{contains}
use magic_mirror.Image.Types.{image_string, Image}

-- the longest prefix of bytes that do not stop the scan, and what follows
unfoldable pub take_until : (ℕ → Bool) → Bytes → Bytes
take_until stop [] = []
take_until stop (c ∷ s) = let rest = take_until stop s in if stop c then [] else c ∷ rest

unfoldable pub drop_until : (ℕ → Bool) → Bytes → Bytes
drop_until stop [] = []
drop_until stop (c ∷ s) = let rest = drop_until stop s in if stop c then c ∷ s else rest

unfoldable pub is_slash : ℕ → Bool
is_slash c = c == b'/'

-- `[:@]`
unfoldable pub ends_name : ℕ → Bool
ends_name c = c == b':' || c == b'@'

-- not in `[a-zA-Z0-9-_.]`
unfoldable pub ends_tag : ℕ → Bool
ends_tag c = not (
    leb 97 c && leb c 122
    || (leb 65 c && leb c 90 || (leb 48 c && leb c 57 || (c == b'-' || (c == b'_' || c == b'.')))))

-- `[.:]`
is_mark : ℕ → Bool
is_mark c = c == b'.' || c == b':'

mark_before_last : Bytes → Bool
unfolding is_mark
mark_before_last [] = false
mark_before_last (c ∷ []) = false
mark_before_last (c ∷ d ∷ s) = is_mark c || mark_before_last (d ∷ s)

-- `[^/]+[.:][^/]+` on a string without a slash: a mark that is neither the first nor the last byte
unfoldable pub is_registry : Bytes → Bool
unfolding mark_before_last
is_registry [] = false
is_registry (c ∷ s) = mark_before_last s

-- `(?:@(?P<digest>.+))?$`: no line break in a digest
unfoldable pub match_digest : Bytes → Option Bytes
match_digest [] = some []
match_digest (c ∷ s) =
    if c == b'@' && (not (bytes_eq s []) && not (contains s 10)) then some s else none

pub record Match : Type 0 where
  pub registry : Bytes
  pub namespace : Bytes
  pub tag : Bytes
  pub digest : Bytes

unfoldable pub with_digest : Bytes → Bytes → Bytes → Option Bytes → Option Match
with_digest registry namespace tag none = none
with_digest registry namespace tag (some digest) =
    some (record { registry = registry; namespace = namespace; tag = tag; digest = digest })

-- `(?::(?P<tag>[a-zA-Z0-9-_.]{1,128}))?` and the digest
unfoldable pub match_tag : Bytes → Bytes → Bytes → Option Match
unfolding with_digest
match_tag registry namespace [] = with_digest registry namespace [] (match_digest [])
match_tag registry namespace (c ∷ s) =
    let tag = take_until ends_tag s in
    if c == b':'
    then (if leb 1 (length tag) && leb (length tag) 128
        then with_digest registry namespace tag (match_digest (drop_until ends_tag s))
        else none)
    else with_digest registry namespace [] (match_digest (c ∷ s))

-- `(?P<namespace>[^:@]+)` and the rest
unfoldable pub match_name : Bytes → Bytes → Option Match
match_name registry s =
    let namespace = take_until ends_name s in
    if bytes_eq namespace [] then none else match_tag registry namespace (drop_until ends_name s)

unfoldable pub or_else : Option Match → Option Match → Option Match
or_else none m = m
or_else (some m) n = some m

unfoldable pub after_registry : Bytes → Bytes → Option Match
after_registry registry [] = none
after_registry registry (slash ∷ rest) =
    if is_registry registry then match_name registry rest else none

-- `imageRegexp.FindStringSubmatch(s)`
unfoldable pub find_submatch : Bytes → Option Match
unfolding or_else after_registry
find_submatch s =
    or_else (after_registry (take_until is_slash s) (drop_until is_slash s)) (match_name [] s)

abbrev pub default_registry : Bytes
default_registry = codes "docker.io"

-- What `Parse` makes of a match, before it looks at the digest.
unfoldable pub complete : Match → Image
complete m =
    let registry = if bytes_eq m.registry [] then default_registry else m.registry in
    let namespace =
      if bytes_eq registry default_registry && not (contains m.namespace b'/')
      then codes "library/" ++ m.namespace
      else m.namespace in
    let tag = if bytes_eq m.tag [] && bytes_eq m.digest [] then codes "latest" else m.tag in
    record {
      repository = record { registry = registry; namespace = namespace };
      tag = tag;
      digest = m.digest;
    }

unfoldable pub replace_parsed : Image → Option Image → Image × Bool
replace_parsed i none = (i, true)
replace_parsed i (some result) = (result, false)

-- `MarshalText`, which reports no error
unfoldable pub marshal_text : Image → Bytes
unfolding image_string
marshal_text i = image_string i

-- The package of digests decides which are valid.
module _ (validate : Bytes → Bool) where
  unfoldable pub parse : Bytes → Option Image
  unfolding find_submatch complete
  parse s = do
    m ← find_submatch s
    (if not (bytes_eq m.digest []) && not (validate m.digest) then none else some (complete m))

  -- `UnmarshalText`: the image afterwards, and whether there is an error.
  unfoldable pub unmarshal_text : Image → Bytes → Image × Bool
  unfolding parse replace_parsed
  unmarshal_text i b = replace_parsed i (parse b)
