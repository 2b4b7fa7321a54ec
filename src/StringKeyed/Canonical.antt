-- ===== src/StringKeyed/Canonical.antt =====
-- Lists of strings in strict order, and duplicates: what decides two such lists equal.
use magic_mirror.Prelude.{
  ◌≡◌, refl, sym, ap₂, ◌∙◌, subst, true, false, List, [], ◌∷◌, arith, Bytes, Bool-cases, inl, inr,
  bytes_eq, bytes_eq_refl, bytes_eq_sound, bytes_lt, bytes_lt_irrefl, bytes_lt_total,
}
use magic_mirror.StringKeyed.Order.{elem?, IsStrict, All-elem?, lt_asym, or_right, true_not_false}

head_member : (x : Bytes) (xs : List Bytes) → elem? x (x ∷ xs) ≡ true
unfolding elem?
head_member x xs = rw (bytes_eq_refl x) refl

head_least :
    (x y : Bytes) (ys : List Bytes)
    → IsStrict (y ∷ ys)
    → elem? x (y ∷ ys) ≡ true
    → bytes_lt x y ≡ false
unfolding elem?
head_least x y ys (above, h) e = elim (Bool-cases (bytes_eq x y)) [
  | inl same ↦ subst (λ w. bytes_lt w y ≡ false) (sym (bytes_eq_sound x y same)) (bytes_lt_irrefl y)
  | inr other ↦ lt_asym y x (
      All-elem? (λ w. bytes_lt y w ≡ true) ys above x
        (or_right (bytes_eq x y) (elem? x ys) other e))
]

head_once : (x : Bytes) (xs : List Bytes) → IsStrict (x ∷ xs) → elem? x xs ≡ false
head_once x xs (above, h) = elim (Bool-cases (elem? x xs)) [
  | inl again ↦ absurd (
      true_not_false
        (sym (All-elem? (λ w. bytes_lt x w ≡ true) xs above x again) ∙ bytes_lt_irrefl x))
  | inr once ↦ once
]

tail_members :
    (x : Bytes) (xs ys : List Bytes)
    → IsStrict (x ∷ xs)
    → IsStrict (x ∷ ys)
    → ((z : Bytes) → elem? z (x ∷ xs) ≡ elem? z (x ∷ ys))
    → (z : Bytes) → elem? z xs ≡ elem? z ys
unfolding elem?
tail_members x xs ys hx hy same z = elim (Bool-cases (bytes_eq z x)) [
  | inl here ↦
      subst (λ w. elem? w xs ≡ elem? w ys) (sym (bytes_eq_sound z x here))
        (head_once x xs hx ∙ sym (head_once x ys hy))
  | inr other ↦ ground (arith, same z)
]

-- Two lists in strict order with the same members are equal.
pub strict_ext :
    (xs ys : List Bytes)
    → IsStrict xs
    → IsStrict ys
    → ((z : Bytes) → elem? z xs ≡ elem? z ys)
    → xs ≡ ys
unfolding elem?
strict_ext [] [] hx hy same = refl
strict_ext [] (y ∷ ys) hx hy same = absurd (true_not_false (sym (head_member y ys) ∙ sym (same y)))
strict_ext (x ∷ xs) [] hx hy same = absurd (true_not_false (sym (head_member x xs) ∙ same x))
strict_ext (x ∷ xs) (y ∷ ys) hx hy same =
    let heads : x ≡ y =
      bytes_lt_total x y (head_least x y ys hy (sym (same x) ∙ head_member x xs))
        (head_least y x xs hx (same y ∙ head_member y ys)) in
    let hx' : IsStrict (y ∷ xs) = subst (λ w. IsStrict (w ∷ xs)) heads hx in
    let same' : (z : Bytes) → elem? z (y ∷ xs) ≡ elem? z (y ∷ ys) =
      subst (λ w. (z : Bytes) → elem? z (w ∷ xs) ≡ elem? z (y ∷ ys)) heads same in
    ap₂ (λ w ws. w ∷ ws) heads (strict_ext xs ys (hx'.1) (hy.1) (tail_members y xs ys hx' hy same'))
