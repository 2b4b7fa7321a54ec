-- ===== src/Parka/Schedule.antt =====
-- Runs by evaluation: a map's goroutines moved in a given order. A command that cannot be followed
-- is skipped.
use magic_mirror.Prelude.{
  ℕ, inl, inr, List, [], ◌∷◌, get_elem?, Bool-cases, Option-cases, ℕ_discrete,
}
use magic_mirror.Parka.Deque.{list_deque}
use magic_mirror.Parka.Goroutine.{Setup, Pc, Choice, detaches, send_grant_to, receive_grant}
use magic_mirror.Parka.System.{act}
use magic_mirror.Parka.System.Runs.{
  World, Reach, start, later, steps, transfers, calls, new_map, is_call,
}

-- Keys, values, errors and panic values are numbers; the queue is a list.
abbrev pub numbers : Setup ℕ ℕ ℕ ℕ
numbers = record {
  same = ℕ_discrete;
  deque = list_deque;
  zero_value = 0;
  task_ejected = 404;
  handler_goexit = 500;
}

abbrev pub Routine : Type 0
Routine = Pc ℕ ℕ ℕ ℕ

pub data Command : Type 0 where
  go : ℕ → Command
  chosen : ℕ → Choice ℕ ℕ ℕ → Command
  pass : ℕ → ℕ → Command
  call : Routine → Command

pub record Run (max_int : ℕ) : Type 0 where
  pub last : World numbers
  pub open last use *
  pub reach : Reach numbers max_int last

step : {n : ℕ} → Run n → ℕ → Choice ℕ ℕ ℕ → Run n
unfolding Option-cases
step r i c = elim (Option-cases (get_elem? r.threads i)) [
  | inl _ ↦ r
  | inr (p, at) ↦ elim (Option-cases (act numbers c r.shared p)) [
    | inl _ ↦ r
    | inr (e, does) ↦ record { last = _; reach = later r.reach (steps c i p e at does) }
  ]
]

transfer : {n : ℕ} → Run n → ℕ → ℕ → Run n
unfolding Option-cases
transfer r i j = elim (Option-cases (get_elem? r.threads i)) [
  | inl _ ↦ r
  | inr (p, at_i) ↦ elim (Option-cases (get_elem? r.threads j)) [
    | inl _ ↦ r
    | inr (q, at_j) ↦ elim (Option-cases (send_grant_to p)) [
      | inl _ ↦ r
      | inr (p', sent) ↦ elim (Option-cases (receive_grant q)) [
        | inl _ ↦ r
        | inr (q', got) ↦ record {
          last = _;
          reach = later r.reach (transfers i j p p' q q' at_i sent at_j got);
        }
      ]
    ]
  ]
]

follow : {n : ℕ} → Run n → Command → Run n
unfolding step transfer Bool-cases
follow r (go i) = step r i detaches
follow r (chosen i c) = step r i c
follow r (pass i j) = transfer r i j
follow r (call p) = elim (Bool-cases (is_call p)) [
  | inl c ↦ record { last = _; reach = later r.reach (calls p c) }
  | inr _ ↦ r
]

unfoldable pub run_from : {n : ℕ} → Run n → List Command → Run n
unfolding follow
run_from r [] = r
run_from r (c ∷ cs) = run_from (follow r c) cs

unfoldable pub run : (n : ℕ) → List Command → Run n
unfolding run_from
run n cs = run_from (record { last = new_map numbers n; reach = start }) cs
