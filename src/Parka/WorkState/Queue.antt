-- ===== src/Parka/WorkState/Queue.antt =====
-- The loops of map.go over the key queue, by the entries of the queue.
use magic_mirror.Prelude.{
  ℕ, zero, suc, ◌+◌, ◌≡◌, refl, sym, inl, inr, List, [], ◌∷◌, ◌++◌, append-nil, append_assoc, take,
  drop, length, arith, drop_all, drop-get_elem?, get_elem?_below,
}
use magic_mirror.Parka.Deque.{DequeOps, DequeLaws}
use magic_mirror.Parka.WorkState.{
  Enqueue, back, front, push_all_back, push_all_front, enqueue, pop_keys, keys_from,
}

-- What a queue of `old` entries holds once `new` ones are enqueued.
abbrev pub enqueued {ℓ} : {K : Type ℓ} → Enqueue → List K → List K → List K
enqueued back old new = old ++ new
enqueued front old new = new ++ old

module _ {ℓ} {K : Type ℓ} {ops : DequeOps K} (laws : DequeLaws ops) where
  open ops use {Deque, len, push_back, push_front, pop_front, at}
  open laws use {items, items-push_back, items-push_front, pop_front-items, at-items, len-items}

  items-push_all_back :
      (all : List K) (d : Deque) → items (push_all_back ops d all) ≡ items d ++ all
  unfolding push_all_back
  items-push_all_back [] d = sym (append-nil (items d))
  items-push_all_back (v ∷ all) d = simp (items-push_all_back all, items-push_back, append_assoc)

  items-push_all_front :
      (all : List K) (d : Deque) → items (push_all_front ops d all) ≡ all ++ items d
  unfolding push_all_front
  items-push_all_front [] d = refl
  items-push_all_front (v ∷ all) d = simp (items-push_front, items-push_all_front all)

  pub items-enqueue :
      (e : Enqueue) (d : Deque) (all : List K)
      → items (enqueue ops e d all) ≡ enqueued e (items d) all
  unfolding enqueue
  items-enqueue back d all = items-push_all_back all d
  items-enqueue front d all = items-push_all_front all d

  -- `n` rounds of PopFront split the queue after its first `n` entries.
  pub pop_keys-items :
      (n : ℕ) (d : Deque)
      → ((pop_keys ops n d).0 ≡ take n (items d)) × (items (pop_keys ops n d).1 ≡ drop n (items d))
  unfolding pop_keys
  pop_keys-items zero d = (refl, refl)
  pop_keys-items (suc n) d = elim (pop_front-items d) [
    | inl (e, p) ↦ ground arith
    | inr (k, rest, e, p) ↦ ground (arith, pop_keys-items n rest)
  ]

  keys_from-items :
      (n i : ℕ) (d : Deque) → i + n ≡ length (items d) → keys_from ops d i n ≡ drop i (items d)
  unfolding keys_from
  keys_from-items zero i d h = sym (drop_all (items d) i (omega arith))
  keys_from-items (suc n) i d h = elim (drop-get_elem? (items d) i) [
    | inl (e, rest) ↦ absurd (get_elem?_below (items d) i (omega arith) e)
    | inr (k, e, rest) ↦ ground (arith, at-items d i, keys_from-items n (suc i) d)
  ]

  pub keys_from-len : (d : Deque) → keys_from ops d 0 (len d) ≡ items d
  keys_from-len d = keys_from-items (len d) 0 d (omega (arith, len-items d))
