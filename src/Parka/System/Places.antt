-- ===== src/Parka/System/Places.antt =====
-- Where the pending keys of a map are: in the queue, or in the hands of a goroutine. One step of one
-- goroutine moves them, and makes or finishes their tasks.
use magic_mirror.Prelude.{
  ℕ, ◌+◌, ◌<◌, ◌≡◌, ap, Bool, Option, none, some, arith, weigh, weigh-append,
}
use magic_mirror.Catch.{Result}
use magic_mirror.Parka.Deque.{DequeLaws}
use magic_mirror.Parka.WorkState.{Next, retire, send_grant, take_key, try_get_section}
use magic_mirror.Parka.WorkState.Accounts.{takes, try_get_section-account}
use magic_mirror.Parka.Tasks.{TaskTable, lookup}
use magic_mirror.Parka.Tasks.Pending.{hit, pending, IsSound, AllLoose, finish-pending}
use magic_mirror.Parka.Handle.{Handle}
use magic_mirror.Parka.Goroutine.{
  Setup, Pc, Effect, Caller, worker, handler, work, handling, settling, receiving, scheduling,
  granting, ejecting,
}
use magic_mirror.Parka.System.{MapState, try_get, settle, finish}
use magic_mirror.Parka.System.Weights.{weight_of}

module _ {ℓ} {K V E P : Type ℓ} (setup : Setup K V E P) (j : K) where
  open setup use {same}

  abbrev pub Table : Type ℓ
  Table = TaskTable K (Result V E P)

  abbrev pub caller_carries : Caller K → ℕ
  caller_carries worker = 0
  caller_carries (handler k id h) = hit same j k

  -- How often a goroutine has the key in its hands: to work on it, or to schedule it.
  abbrev pub carries : Pc K V E P → ℕ
  carries (work (some k)) = hit same j k
  carries (handling k id h) = hit same j k
  carries (receiving k id h) = hit same j k
  carries (settling next c) = weigh (hit same j) (takes next) + caller_carries c
  carries (scheduling e ks after) = weigh (hit same j) ks
  carries (granting ks t after) = weigh (hit same j) ks
  carries _ = 0

  abbrev pub CallerOwns : Table → Caller K → Type 0
  CallerOwns t worker = Unit
  CallerOwns t (handler k id h) = lookup same k t.tasks ≡ some id

  -- A goroutine in a handler has the very task that the set has for its key, and one that ejects
  -- tasks has none that the set has for the key `j`.
  abbrev pub Owns : Table → Pc K V E P → Type 0
  Owns t (handling k id h) = lookup same k t.tasks ≡ some id
  Owns t (receiving k id h) = lookup same k t.tasks ≡ some id
  Owns t (settling next c) = CallerOwns t c
  Owns t (ejecting ids cleanup) = AllLoose same j t ids
  Owns t _ = Unit

  abbrev pub OptOwns : Table → Option (Pc K V E P) → Type 0
  OptOwns t none = Unit
  OptOwns t (some p) = Owns t p

  module _ (laws : DequeLaws setup.deque) where
    abbrev pub queued : MapState setup → ℕ
    queued sh = weigh (hit same j) (laws.items sh.state.keys)

    -- A step moves the key, and makes it pending or finishes it: what is carried and queued changes
    -- as what is pending. Whom the step leaves in a handler owns its task.
    pub record Moved (sh : MapState setup) (p : Pc K V E P)
        (e : Effect (MapState setup) (Pc K V E P)) : Type 0 where
      pub place :
          queued e.shared + carries e.next + weight_of carries e.spawned + pending same j sh.table
          ≡ queued sh + carries p + pending same j e.shared.table
      pub owns : Owns e.shared.table e.next
      pub owns_new : OptOwns e.shared.table e.spawned

    abbrev pub MovedIf :
        MapState setup → Pc K V E P → Option (Effect (MapState setup) (Pc K V E P)) → Type 0
    MovedIf sh p none = Unit
    MovedIf sh p (some e) = Moved sh p e

    pub try_get-Moved :
        (c : Caller K) (sh : MapState setup) (p : Pc K V E P)
        → 0 < sh.state.grants
        → carries p ≡ caller_carries c
        → CallerOwns sh.table c
        → MovedIf sh p (try_get setup c sh)
    unfolding try_get
    try_get-Moved c sh p pos same_keys own =
        let a = try_get_section-account laws sh.state pos in
        record {
          place = omega (
            arith,
            ap (weigh (hit same j)) a.queue,
            weigh-append (hit same j) (takes (try_get_section setup.deque sh.state).1)
                (laws.items (try_get_section setup.deque sh.state).0.keys),
          );
          owns = own;
          owns_new = tt;
        }

    pub finish-Moved :
        (k : K) (id : ℕ) (h : Handle) (r : Result V E P) (detached : Bool) (sh : MapState setup)
        → IsSound same sh.table
        → lookup same k sh.table.tasks ≡ some id
        → pending same k sh.table ≡ 1
        → MovedIf sh (handling k id h) (finish setup id r detached sh)
    unfolding finish weigh
    finish-Moved k id h r detached sh v own open_gate =
        ground (arith, finish-pending same k j id r sh.table v own open_gate)

    pub settle-Moved :
        (next : Next K) (c : Caller K) (sh : MapState setup)
        → CallerOwns sh.table c
        → MovedIf sh (settling next c) (settle setup next c sh)
    unfolding settle weigh
    settle-Moved (retire none) worker sh own = ground arith
    settle-Moved (retire none) (handler k id h) sh own = ground arith
    settle-Moved (retire (some ch)) worker sh own = ground arith
    settle-Moved (retire (some ch)) (handler k id h) sh own = ground arith
    settle-Moved send_grant c sh own = tt
    settle-Moved (take_key k) worker sh own = ground arith
    settle-Moved (take_key k) (handler i id h) sh own = ground arith
