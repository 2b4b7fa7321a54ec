-- ===== src/Parka/Tasks.antt =====
-- The task set of internal/parka/map.go. A `*task` is a position in the heap of tasks, where `none`
-- means that the gate is closed and `some r` that it is unlocked with the result `r`.
pub mod Pending
pub mod Removal
use magic_mirror.Prelude.{ℕ, ite, List, [], ◌∷◌, ◌++◌, Option, none, some, length, get_elem?, set}

pub record TaskTable {ℓ} (K R : Type ℓ) : Type ℓ where
  pub tasks : List (K × ℕ)
  pub heap : List (Option R)

module _ {ℓ} {K R : Type ℓ} where
  -- `task := &task[V]{}; task.gate.Init(); m.tasks[key] = task`
  abbrev pub create : K → TaskTable K R → TaskTable K R
  create k t = record { tasks = (k, length t.heap) ∷ t.tasks; heap = t.heap ++ none ∷ [] }

  -- `task.result = r; task.gate.Unlock()`
  abbrev pub finish_task : ℕ → R → TaskTable K R → TaskTable K R
  finish_task id r t = record t { heap = set t.heap id (some r) }

  -- `<-*g`, and the result behind the gate; `none` blocks.
  abbrev pub task_result : ℕ → TaskTable K R → Option R
  task_result id t = elim (get_elem? t.heap id) [ some r ↦ r | none ↦ none ]

module _ {ℓ} {K : Type ℓ} (same : Discrete K) where
  -- `m.tasks[key]`
  unfoldable pub lookup : K → List (K × ℕ) → Option ℕ
  lookup k [] = none
  lookup k ((j, id) ∷ m) = ite (same j k) (some id) (lookup k m)

  -- `delete(m.tasks, key)`
  unfoldable pub delete : K → List (K × ℕ) → List (K × ℕ)
  delete k [] = []
  delete k ((j, id) ∷ m) = ite (same j k) (delete k m) ((j, id) ∷ delete k m)

  module _ {R : Type ℓ} where
    -- `getOrCreateTasks`: the tasks of the keys, the new keys, and the table.
    unfoldable pub get_or_create : List K → TaskTable K R → List ℕ × List K × TaskTable K R
    unfolding lookup
    get_or_create [] t = ([], [], t)
    get_or_create (k ∷ ks) t = elim (lookup k t.tasks) [
      | some id ↦ let (ids, new, t') = get_or_create ks t in (id ∷ ids, new, t')
      | none ↦
          let (ids, new, t') = get_or_create ks (create k t) in (length t.heap ∷ ids, k ∷ new, t')
    ]

    -- The loop of `DequeueAll` over the dequeued keys: their tasks leave the set. A key with no
    -- task would give a nil pointer, which is left out.
    unfoldable pub remove_tasks : List K → TaskTable K R → List ℕ × TaskTable K R
    unfolding lookup delete
    remove_tasks [] t = ([], t)
    remove_tasks (k ∷ ks) t =
        let (ids, t') = remove_tasks ks (record t { tasks = delete k t.tasks }) in
        elim (lookup k t.tasks) [ some id ↦ (id ∷ ids, t') | none ↦ (ids, t') ]
