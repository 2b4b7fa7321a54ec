-- ===== src/Parka/Deque.antt =====
-- github.com/gammazero/deque, a package that internal/parka/map.go calls: its operations and their
-- documented behaviour, as an interface. `items` lists the entries, the front first.
use magic_mirror.Prelude.{
  ℕ, ◌≡◌, refl, ◌⊎◌, inl, inr, List, [], ◌∷◌, ◌++◌, Option, none, some, length, get_elem?,
}

-- `pop_front` is `none` where PopFront panics, on an empty queue; `at` is `none` where At panics,
-- out of range.
pub record DequeOps {ℓ} (K : Type ℓ) : Type (ℓ + 1) where
  pub Deque : Type ℓ
  pub empty : Deque
  pub len : Deque → ℕ
  pub at : Deque → ℕ → Option K
  pub push_back : Deque → K → Deque
  pub push_front : Deque → K → Deque
  pub pop_front : Deque → Option (K × Deque)

pub record DequeLaws {ℓ} {K : Type ℓ} (ops : DequeOps K) : Type ℓ where
  pub items : ops.Deque → List K
  pub items-empty : items ops.empty ≡ []
  pub len-items : (d : ops.Deque) → ops.len d ≡ length (items d)
  pub at-items : (d : ops.Deque) (i : ℕ) → ops.at d i ≡ get_elem? (items d) i
  pub items-push_back : (d : ops.Deque) (k : K) → items (ops.push_back d k) ≡ items d ++ k ∷ []
  pub items-push_front : (d : ops.Deque) (k : K) → items (ops.push_front d k) ≡ k ∷ items d
  pub pop_front-items :
      (d : ops.Deque)
      → ((items d ≡ []) × (ops.pop_front d ≡ none))
        ⊎ ((k : K) × (rest : ops.Deque) × (items d ≡ k ∷ items rest)
            × (ops.pop_front d ≡ some (k, rest)))

-- A list, front first, behaves so.
module _ {ℓ} {K : Type ℓ} where
  abbrev uncons : List K → Option (K × List K)
  uncons [] = none
  uncons (k ∷ ks) = some (k, ks)

  abbrev pub list_deque : DequeOps K
  list_deque = record {
    Deque = List K;
    empty = [];
    len = length;
    at = get_elem?;
    push_back = λ d k. d ++ k ∷ [];
    push_front = λ d k. k ∷ d;
    pop_front = uncons;
  }

  pub uncons-items :
      (d : List K)
      → ((d ≡ []) × (uncons d ≡ none))
        ⊎ ((k : K) × (rest : List K) × (d ≡ k ∷ rest) × (uncons d ≡ some (k, rest)))
  uncons-items [] = inl (refl, refl)
  uncons-items (k ∷ ks) = inr (k, ks, refl, refl)

  abbrev pub list_deque-laws : DequeLaws list_deque
  list_deque-laws = record {
    items = λ d. d;
    items-empty = refl;
    len-items = λ d. refl;
    at-items = λ d i. refl;
    items-push_back = λ d k. refl;
    items-push_front = λ d k. refl;
    pop_front-items = uncons-items;
  }
