-- ===== src/Parka/System/Runs.antt =====
-- A map and its goroutines, interleaved in any order, with calls from outside at any time.
use magic_mirror.Prelude.{
  ℕ, ◌≡◌, Bool, true, false, List, [], ◌∷◌, ◌++◌, Option, none, some, set, get_elem?,
}
use magic_mirror.Parka.Goroutine.{
  Setup, Pc, Choice, Effect, informing, limiting, dequeuing, joining, send_grant_to, receive_grant,
}
use magic_mirror.Parka.System.{MapState, act}

-- A goroutine that has just called a method of the map: Inform, InformFront, Get, Collect, Limit,
-- DequeueAll, Cleanup or Wait.
abbrev pub is_call {ℓ} : {K V E P : Type ℓ} → Pc K V E P → Bool
is_call (informing e ks wants) = true
is_call (limiting limit) = true
is_call (dequeuing cleanup) = true
is_call joining = true
is_call _ = false

abbrev pub listed {ℓ} : {A : Type ℓ} → Option A → List A
listed none = []
listed (some a) = a ∷ []

module _ {ℓ} {K V E P : Type ℓ} (setup : Setup K V E P) where
  pub record World : Type ℓ where
    pub shared : MapState setup
    pub threads : List (Pc K V E P)

  abbrev pub advance : World → ℕ → Effect (MapState setup) (Pc K V E P) → World
  advance w i e = record { shared = e.shared; threads = set w.threads i e.next ++ listed e.spawned }

  -- `NewMap`, with `max_int` for math.MaxInt.
  abbrev pub new_map : ℕ → World
  new_map max_int = record {
    shared = record {
      state = record {
        grants = 0;
        grant_limit = max_int;
        reattachers = 0;
        keys = setup.deque.empty;
        emptied = none;
      };
      table = record { tasks = []; heap = [] };
      tasks_handled = 0;
      next_chan = 0;
      closed = λ c. false;
    };
    threads = [];
  }

  pub data Moves (w : World) : World → Type ℓ where
    steps :
        (c : Choice V E P) (i : ℕ) (p : Pc K V E P) (e : Effect (MapState setup) (Pc K V E P))
        → get_elem? w.threads i ≡ some p
        → act setup c w.shared p ≡ some e
        → Moves w (advance w i e)
    transfers :
        (i j : ℕ) (p p' q q' : Pc K V E P)
        → get_elem? w.threads i ≡ some p
        → send_grant_to p ≡ some p'
        → get_elem? w.threads j ≡ some q
        → receive_grant q ≡ some q'
        → Moves w (record w { threads = set (set w.threads i p') j q' })
    calls :
        (p : Pc K V E P) → is_call p ≡ true → Moves w (record w { threads = w.threads ++ p ∷ [] })

  pub data Reach (max_int : ℕ) : World → Type ℓ where
    start : Reach max_int (new_map max_int)
    later : {w w' : World} → Reach max_int w → Moves w w' → Reach max_int w'
