-- ===== src/Parka/Tasks/Pending.antt =====
-- The task set of map.go by its keys: which are pending, and what each operation does to them.
use magic_mirror.Prelude.{
  ℕ, ◌+◌, ◌≤◌, ◌<◌, ◌≡◌, ◌≢◌, sym, subst, ◌∙◌, ap, ite, List, [], ◌∷◌, Option, none, some, length,
  get_elem?, arith, weigh, get_elem?-append_lt, get_elem?-snoc, get_elem?-set_self,
  get_elem?-set_ne, length-append, length-set, ℕ_discrete, inl, inr, Option-cases,
}
use magic_mirror.Parka.Tasks.{TaskTable, create, finish_task, lookup, get_or_create}

-- 1 at a gate that is still closed.
abbrev pub closed_gate {ℓ} : {R : Type ℓ} → Option (Option R) → ℕ
closed_gate none = 0
closed_gate (some none) = 1
closed_gate (some (some r)) = 0

module _ {ℓ} {K : Type ℓ} (same : Discrete K) where
  -- 1 if the second key is the first.
  abbrev pub hit : K → K → ℕ
  hit k j = ite (same j k) 1 0

  pub hit_self : (k : K) → hit k k ≡ 1
  hit_self k = ground arith

  module _ {R : Type ℓ} where
    abbrev pub pending_at : Option ℕ → List (Option R) → ℕ
    pending_at none heap = 0
    pending_at (some id) heap = closed_gate (get_elem? heap id)

    -- 1 for a key that has a task with a closed gate, and 0 for any other.
    abbrev pub pending : K → TaskTable K R → ℕ
    pending k t = pending_at (lookup same k t.tasks) t.heap

    -- Every task of the set is on the heap, and no two keys share one.
    pub record IsSound (t : TaskTable K R) : Type ℓ where
      pub bounded : (k : K) (id : ℕ) → lookup same k t.tasks ≡ some id → id < length t.heap
      pub distinct :
          (j k : K) (id : ℕ)
          → lookup same j t.tasks ≡ some id
          → lookup same k t.tasks ≡ some id
          → hit k j ≡ 1

    -- A task on the heap that the key does not have.
    abbrev pub IsLoose : K → TaskTable K R → ℕ → Type 0
    IsLoose k t id = (id < length t.heap) × (lookup same k t.tasks ≢ some id)

    abbrev pub AllLoose : K → TaskTable K R → List ℕ → Type 0
    AllLoose k t [] = Unit
    AllLoose k t (id ∷ ids) = IsLoose k t id × AllLoose k t ids

    pub create-pending :
        (k j : K) (t : TaskTable K R)
        → IsSound t
        → lookup same k t.tasks ≡ none
        → pending j (create k t) ≡ pending j t + hit j k
    unfolding lookup
    create-pending k j t v fresh = elim (same k j) [
      | yes e ↦
          ground
            (arith, get_elem?-snoc t.heap none, subst (λ x. lookup same x t.tasks ≡ none) e fresh)
      | no ne ↦ elim (Option-cases (lookup same j t.tasks)) [
        | inl missing ↦ ground arith
        | inr (id, found) ↦
            ground (arith, get_elem?-append_lt t.heap (none ∷ []) id (v.bounded j id found))
      ]
    ]

    pub create-IsSound :
        (k : K) (t : TaskTable K R)
        → IsSound t
        → lookup same k t.tasks ≡ none
        → IsSound (create k t)
    unfolding lookup
    create-IsSound k t v fresh = record {
      bounded = λ j id e. ground (arith, v.bounded j id, length-append t.heap (none ∷ []));
      distinct = λ i j id e f. ground (arith, v.bounded i id, v.bounded j id, v.distinct i j id);
    }

    -- getOrCreateTasks makes exactly the new keys pending, and leaves the other tasks as they were.
    pub record Creates (t : TaskTable K R) (new : List K) (t' : TaskTable K R) : Type ℓ where
      pub sound : IsSound t'
      pub made : (j : K) → pending j t' ≡ pending j t + weigh (hit j) new
      pub kept :
          (j : K) (id : ℕ) → lookup same j t.tasks ≡ some id → lookup same j t'.tasks ≡ some id
      pub loose : (j : K) (id : ℕ) → IsLoose j t id → IsLoose j t' id

    create-IsLoose :
        (k j : K) (t : TaskTable K R) (id : ℕ) → IsLoose j t id → IsLoose j (create k t) id
    unfolding lookup
    create-IsLoose k j t id (below, off) =
        (omega (arith, length-append t.heap (none ∷ [])), λ e. ground (arith, off))

    create-kept :
        (k j : K) (t : TaskTable K R) (id : ℕ)
        → lookup same k t.tasks ≡ none
        → lookup same j t.tasks ≡ some id
        → lookup same j (create k t).tasks ≡ some id
    unfolding lookup
    create-kept k j t id fresh e = elim (same k j) [
      | yes eq ↦ ground (arith, ap (λ x. lookup same x t.tasks) eq)
      | no ne ↦ ground arith
    ]

    pub get_or_create-Creates :
        (ks : List K) (t : TaskTable K R)
        → IsSound t
        → (let (ids, new, t') = get_or_create same ks t in Creates t new t')
    unfolding get_or_create weigh
    get_or_create-Creates [] t v = record {
      sound = v;
      made = λ j. omega arith;
      kept = λ j id e. e;
      loose = λ j id l. l;
    }
    get_or_create-Creates (k ∷ ks) t v = elim (Option-cases (lookup same k t.tasks)) [
      | inr (id, found) ↦ rw (found, get_or_create) (get_or_create-Creates ks t v)
      | inl fresh ↦
          let rest = get_or_create-Creates ks (create k t) (create-IsSound k t v fresh) in
          rw (fresh, get_or_create)
            (record {
              sound = rest.sound;
              made = λ j. omega (arith, rest.made j, create-pending k j t v fresh);
              kept = λ j id e. rest.kept j id (create-kept k j t id fresh e);
              loose = λ j id l. rest.loose j id (create-IsLoose k j t id l);
            })
    ]

    -- The gate of a pending key's task is unlocked: the key is pending no more, and no other changes.
    pub finish-pending :
        (k j : K) (id : ℕ) (r : R) (t : TaskTable K R)
        → IsSound t
        → lookup same k t.tasks ≡ some id
        → pending k t ≡ 1
        → pending j (finish_task id r t) + hit j k ≡ pending j t
    finish-pending k j id r t v found open_gate = elim (Option-cases (lookup same j t.tasks)) [
      | inl missing ↦ elim (same k j) [
        | yes eq ↦ ground (arith, ap (λ x. lookup same x t.tasks) eq)
        | no ne ↦ ground arith
      ]
      | inr (other, at) ↦ elim (ℕ_discrete id other) [
        | yes eq ↦
            let shared = subst (λ x. lookup same j t.tasks ≡ some x) (sym eq) at in
            ground (
              arith,
              v.distinct k j id found shared,
              get_elem?-set_self t.heap id (some r) (v.bounded k id found),
            )
        | no ne ↦ elim (same k j) [
          | yes eq ↦ ground (arith, ap (λ x. lookup same x t.tasks) eq)
          | no apart ↦ ground (arith, get_elem?-set_ne t.heap id other (some r) ne)
        ]
      ]
    ]

    pub finish_loose-pending :
        (j : K) (id : ℕ) (r : R) (t : TaskTable K R)
        → IsLoose j t id
        → pending j (finish_task id r t) ≡ pending j t
    finish_loose-pending j id r t (below, off) = elim (Option-cases (lookup same j t.tasks)) [
      | inl missing ↦ ground arith
      | inr (other, found) ↦ ground (
        arith,
        get_elem?-set_ne t.heap id other (some r) (λ same_id. off (found ∙ ap some (sym same_id))),
      )
    ]

    pub finish-IsSound :
        (id : ℕ) (r : R) (t : TaskTable K R) → IsSound t → IsSound (finish_task id r t)
    finish-IsSound id r t v = record {
      bounded = λ k i e. omega (arith, v.bounded k i e, length-set t.heap id (some r));
      distinct = v.distinct;
    }

    pub pending-le : (j : K) (t : TaskTable K R) → pending j t ≤ 1
    pending-le j t = ground arith
