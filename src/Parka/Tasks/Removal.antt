-- ===== src/Parka/Tasks/Removal.antt =====
-- The task set of map.go under DequeueAll: the tasks of the dequeued keys leave the set.
use magic_mirror.Prelude.{
  ◌+◌, ◌≤◌, ℕ, ◌<◌, ◌≡◌, refl, ◌∙◌, ap, ite, if_pos, if_neg, List, [], ◌∷◌, none, some, length,
  arith, weigh, inl, inr, Option-cases, dec_lt,
}
use magic_mirror.Parka.Tasks.{TaskTable, lookup, delete, remove_tasks}
use magic_mirror.Parka.Tasks.Pending.{pending, pending-le, hit, IsSound, IsLoose, AllLoose}

module _ {ℓ} {K : Type ℓ} (same : Discrete K) where
  lookup-delete :
      (k j : K) (m : List (K × ℕ))
      → lookup same j (delete same k m) ≡ ite (same k j) none (lookup same j m)
  unfolding lookup delete
  lookup-delete k j [] = ground arith
  lookup-delete k j ((i, id) ∷ m) = elim (same i k) [
    | yes p ↦ rw (if_pos _ p) (ground (arith, lookup-delete k j m))
    | no n ↦ rw (if_neg _ n) (ground (arith, lookup-delete k j m))
  ]

  module _ {R : Type ℓ} where
    -- The keys that are listed leave the set, and all others stay as they were; the tasks that are
    -- returned belong to no key.
    pub record Removes (t : TaskTable K R) (ks : List K) (ids : List ℕ) (t' : TaskTable K R)
        : Type ℓ where
      pub sound : IsSound same t'
      pub gone : (j : K) → 0 < weigh (hit same j) ks → lookup same j t'.tasks ≡ none
      pub kept :
          (j : K) → weigh (hit same j) ks ≡ 0 → lookup same j t'.tasks ≡ lookup same j t.tasks
      pub heap : t'.heap ≡ t.heap
      pub fewer :
          (j : K) (id : ℕ) → lookup same j t'.tasks ≡ some id → lookup same j t.tasks ≡ some id
      pub loose : (j : K) → AllLoose same j t' ids

    abbrev without : K → TaskTable K R → TaskTable K R
    without k t = record t { tasks = delete same k t.tasks }

    without-fewer :
        (k j : K) (id : ℕ) (t : TaskTable K R)
        → lookup same j (without k t).tasks ≡ some id
        → lookup same j t.tasks ≡ some id
    without-fewer k j id t e = ground (arith, lookup-delete k j t.tasks)

    without-IsSound : (k : K) (t : TaskTable K R) → IsSound same t → IsSound same (without k t)
    without-IsSound k t v = record {
      bounded = λ j id e. v.bounded j id (without-fewer k j id t e);
      distinct =
          λ i j id e f. v.distinct i j id (without-fewer k i id t e) (without-fewer k j id t f);
    }

    -- What was the task of a key that has left the set belongs to no key.
    without-IsLoose :
        (k j : K) (id : ℕ) (t : TaskTable K R)
        → IsSound same t
        → lookup same k t.tasks ≡ some id
        → IsLoose same j (without k t) id
    without-IsLoose k j id t v found = (
      v.bounded k id found,
      λ e.
          ground
            (arith, lookup-delete k j t.tasks, v.distinct k j id found (without-fewer k j id t e)),
    )

    pub fewer-IsLoose :
        (j : K) (id : ℕ) (t t' : TaskTable K R)
        → t'.heap ≡ t.heap
        → ((i : ℕ) → lookup same j t'.tasks ≡ some i → lookup same j t.tasks ≡ some i)
        → IsLoose same j t id
        → IsLoose same j t' id
    fewer-IsLoose j id t t' heap fewer (below, off) =
        (omega (arith, ap length heap), λ e. off (fewer id e))

    -- One round of the loop, whether or not the key had a task.
    Removes-cons :
        (k : K) (ks : List K) (ids : List ℕ) (t t' : TaskTable K R)
        → Removes (without k t) ks ids t'
        → (ids' : List ℕ) → ((j : K) → AllLoose same j t' ids')
        → Removes t (k ∷ ks) ids' t'
    unfolding weigh
    Removes-cons k ks ids t t' r ids' loose = record {
      sound = r.sound;
      gone = λ j h. elim (dec_lt 0 (weigh (hit same j) ks)) [
        | yes later ↦ r.gone j later
        | no now ↦ r.kept j (omega arith) ∙ ground (arith, lookup-delete k j t.tasks)
      ];
      kept = λ j h. r.kept j (omega arith) ∙ ground (arith, lookup-delete k j t.tasks);
      heap = r.heap;
      fewer = λ j id e. without-fewer k j id t (r.fewer j id e);
      loose = loose;
    }

    pub remove_tasks-Removes :
        (ks : List K) (t : TaskTable K R)
        → IsSound same t
        → (let (ids, t') = remove_tasks same ks t in Removes t ks ids t')
    unfolding remove_tasks weigh
    remove_tasks-Removes [] t v = record {
      sound = v;
      gone = λ j h. absurd (omega arith);
      kept = λ j h. refl;
      heap = refl;
      fewer = λ j id e. e;
      loose = λ j. tt;
    }
    remove_tasks-Removes (k ∷ ks) t v =
        let (ids, t') = remove_tasks same ks (without k t) in
        let r = remove_tasks-Removes ks (without k t) (without-IsSound k t v) in
        elim (Option-cases (lookup same k t.tasks)) [
          | inl missing ↦ rw (missing, remove_tasks) (Removes-cons k ks ids t t' r ids r.loose)
          | inr (id, found) ↦
              rw (found, remove_tasks)
                (Removes-cons k ks ids t t' r (id ∷ ids) λ j. (
                  fewer-IsLoose j id (without k t) t' r.heap (r.fewer j)
                      (without-IsLoose k j id t v found),
                  r.loose j,
                ))
        ]

    -- A key that is dequeued is pending no more.
    pub remove_tasks-pending :
        (ks : List K) (j : K) (t : TaskTable K R)
        → IsSound same t
        → weigh (hit same j) ks ≤ pending same j t
        → pending same j (remove_tasks same ks t).1 + weigh (hit same j) ks ≡ pending same j t
    remove_tasks-pending ks j t v le =
        let r = remove_tasks-Removes ks t v in
        elim (dec_lt 0 (weigh (hit same j) ks)) [
          | yes hit_it ↦ ground (arith, r.gone j hit_it, pending-le same j t)
          | no missed ↦ ground (arith, r.kept j (omega arith), r.heap)
        ]
