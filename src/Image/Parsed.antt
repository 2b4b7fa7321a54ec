-- ===== src/Image/Parsed.antt =====
-- internal/image/image.go: the parts of a match of imageRegexp.
use magic_mirror.Prelude.{
  ℕ, ◌≡◌, ◌≤◌, refl, Bool, true, false, ◌&&◌, [], ◌∷◌, Bytes, bytes_eq, if◌then◌else◌, arith, ◌==◌,
  leb, Option, none, some, length, inl, inr, ◌⊎◌,
}
use magic_mirror.StringKeyed.Encoding.{contains}
use magic_mirror.Image.Parse.{
  take_until, drop_until, is_slash, ends_name, ends_tag, is_registry, match_digest, match_tag,
  match_name, with_digest, or_else, after_registry, find_submatch, Match,
}
use magic_mirror.Image.Scan.{Passes, take_until-Passes}
use magic_mirror.Image.RoundTrip.{assembled, IsTag}

module _ {A : Type 0} where
  pub if_some :
      (b : Bool) (x y : Option A) (a : A)
      → (if b then x else y) ≡ some a
      → ((b ≡ true) × (x ≡ some a)) ⊎ ((b ≡ false) × (y ≡ some a))
  if_some true x y a e = inl (refl, e)
  if_some false x y a e = inr (refl, e)

  pub none-some : (a : A) → none ≡ some a → ⊥
  none-some a e = cc

or_else-some : (x y : Option Match) (m : Match) → or_else x y ≡ some m → (x ≡ some m) ⊎ (y ≡ some m)
unfolding or_else
or_else-some none y m e = inr e
or_else-some (some n) y m e = inl e

match_digest-line : (s d : Bytes) → match_digest s ≡ some d → contains d 10 ≡ false
unfolding match_digest contains
match_digest-line [] d e = ground arith
match_digest-line (c ∷ s) d e = ground arith

short_tag : (n : ℕ) → (leb 1 n && leb n 128) ≡ true → n ≤ 128
short_tag n h = ground arith

module _ (r n : Bytes) where
  abbrev pub Assembles : Match → Type 0
  Assembles m =
      (t : Bytes) × (d : Bytes) × (m ≡ assembled r n t d) × IsTag t × (contains d 10 ≡ false)

  with_digest_option :
      (t : Bytes) (o : Option Bytes) (m : Match)
      → IsTag t
      → ((d : Bytes) → o ≡ some d → contains d 10 ≡ false)
      → with_digest r n t o ≡ some m
      → Assembles m
  unfolding with_digest
  with_digest_option t none m h line e = absurd (none-some m e)
  with_digest_option t (some d) m h line e = (t, d, cc, h, line d refl)

  with_digest-some :
      (t s : Bytes) (m : Match)
      → IsTag t
      → with_digest r n t (match_digest s) ≡ some m
      → Assembles m
  unfolding with_digest
  with_digest-some t s m h e = with_digest_option t (match_digest s) m h (match_digest-line s) e

  match_tag-some : (s : Bytes) (m : Match) → match_tag r n s ≡ some m → Assembles m
  unfolding match_tag
  match_tag-some [] m e = with_digest-some [] [] m (tt, omega arith) e
  match_tag-some (c ∷ s) m e =
      let t = take_until ends_tag s in
      let fits = leb 1 (length t) && leb (length t) 128 in
      let tagged = with_digest r n t (match_digest (drop_until ends_tag s)) in
      let untagged = with_digest r n [] (match_digest (c ∷ s)) in
      elim (if_some (c == b':') (if fits then tagged else none) untagged m e) [
        | inr (other, e') ↦ with_digest-some [] (c ∷ s) m (tt, omega arith) e'
        | inl (colon, e') ↦ elim (if_some fits tagged none m e') [
          | inr (long, e'') ↦ absurd (none-some m e'')
          | inl (short, e'') ↦
              with_digest-some t (drop_until ends_tag s) m
                (take_until-Passes ends_tag s, short_tag (length t) short) e''
        ]
      ]

-- The parts of a match that its registry does not decide.
abbrev pub Named : Bytes → Match → Type 0
Named r m = (n : Bytes) × (bytes_eq n [] ≡ false) × Passes ends_name n × Assembles r n m

match_name-some : (r s : Bytes) (m : Match) → match_name r s ≡ some m → Named r m
unfolding match_name
match_name-some r s m e =
    let n = take_until ends_name s in
    elim (if_some (bytes_eq n []) none (match_tag r n (drop_until ends_name s)) m e) [
      | inl (empty, e') ↦ absurd (none-some m e')
      | inr (full, e') ↦
          (n, full, take_until-Passes ends_name s, match_tag-some r n (drop_until ends_name s) m e')
    ]

after_registry-some :
    (r s : Bytes) (m : Match) → after_registry r s ≡ some m → (is_registry r ≡ true) × Named r m
unfolding after_registry
after_registry-some r [] m e = absurd (none-some m e)
after_registry-some r (c ∷ s) m e = elim (if_some (is_registry r) (match_name r s) none m e) [
  | inl (marked, e') ↦ (marked, match_name-some r s m e')
  | inr (plain, e') ↦ absurd (none-some m e')
]

take_slash : (s : Bytes) → contains (take_until is_slash s) b'/' ≡ false
unfolding contains take_until is_slash
take_slash [] = refl
take_slash (c ∷ s) = ground (arith, take_slash s)

pub find_submatch-some :
    (s : Bytes) (m : Match)
    → find_submatch s ≡ some m
    → Named [] m ⊎ ((r : Bytes) × (contains r b'/' ≡ false) × (is_registry r ≡ true) × Named r m)
unfolding find_submatch
find_submatch-some s m e =
    let r = take_until is_slash s in
    elim (or_else-some (after_registry r (drop_until is_slash s)) (match_name [] s) m e) [
      | inl e' ↦
          let (marked, named) = after_registry-some r (drop_until is_slash s) m e' in
          inr (r, take_slash s, marked, named)
      | inr e' ↦ inl (match_name-some [] s m e')
    ]
