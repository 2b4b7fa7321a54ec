-- ===== src/Parka/System/Keys.antt =====
-- Every pending key of a map is in exactly one place, in every state that the map can reach.
use magic_mirror.Prelude.{
  ℕ, zero, suc, ◌+◌, ◌≤◌, ◌≡◌, ◌≢◌, refl, ap, true, [], ◌∷◌, Option, none, some, arith, set,
  get_elem?, weigh, weigh-get_elem?, weigh-snoc, weigh-set_two, subst, get_elem?-append_elim,
  get_elem?-set_elim, some-injective,
}
use magic_mirror.Catch.{Result}
use magic_mirror.Parka.Deque.{DequeLaws}
use magic_mirror.Parka.WorkState.{send_grant}
use magic_mirror.Parka.Tasks.{TaskTable, lookup}
use magic_mirror.Parka.Tasks.Pending.{hit, hit_self, pending, pending-le, IsSound}
use magic_mirror.Parka.Goroutine.{
  Setup, Pc, Choice, Effect, settling, granting, receiving, handling, informing, limiting,
  dequeuing, joining, worker, handler, send_grant_to, receive_grant,
}
use magic_mirror.Parka.System.{MapState, act}
use magic_mirror.Parka.System.Runs.{
  World, Moves, steps, transfers, calls, Reach, start, later, new_map, advance, is_call, listed,
}
use magic_mirror.Parka.System.Weights.{holds, stale}
use magic_mirror.Parka.System.Grants.{
  IsSteady, Reach-IsSteady, weigh-advance, apart, send-weights, receive-weights,
}
use magic_mirror.Parka.System.Places.{carries, Owns, OptOwns, queued, Moved, MovedIf}
use magic_mirror.Parka.System.Moved.{Ready, IsUnfinished, act-Moved}
use magic_mirror.Parka.System.Changes.{
  Changes, ChangesIf, act-Changes, Changes-IsSound, Changes-Owns,
}

module _ {ℓ} {K V E P : Type ℓ} (setup : Setup K V E P) (laws : DequeLaws setup.deque) where
  open setup use {same}

  -- A key is in the queue or in the hands of goroutines as often as it is pending: once or not at
  -- all.
  pub record IsKeyed (w : World setup) : Type ℓ where
    pub sound : IsSound same w.shared.table
    pub located :
        (j : K)
        → queued setup j laws w.shared + weigh (carries setup j) w.threads
          ≡ pending same j w.shared.table
    pub owned :
        (j : K) (i : ℕ) (p : Pc K V E P)
        → get_elem? w.threads i ≡ some p
        → Owns setup j w.shared.table p

  listed-Owns :
      (j : K) (t : TaskTable K (Result V E P)) (o : Option (Pc K V E P))
      → OptOwns setup j t o
      → (m : ℕ) (b : Pc K V E P) → get_elem? (listed o) m ≡ some b
      → Owns setup j t b
  listed-Owns j t none own m b at = absurd (cc)
  listed-Owns j t (some p) own zero b at = subst (Owns setup j t) (some-injective p b at) own
  listed-Owns j t (some p) own (suc m) b at = absurd (cc)

  IsUnfinished-carries :
      (j : K) (p : Pc K V E P) (sh : MapState setup)
      → ((k : K) → carries setup k p ≤ pending same k sh.table)
      → IsUnfinished setup j laws sh p
  IsUnfinished-carries j (handling k id h) sh le =
      omega (arith, le k, hit_self same k, pending-le same k sh.table)
  IsUnfinished-carries j p sh le = tt

  module _ {w : World setup} (a : IsSteady setup laws w) (v : IsKeyed w) where
    ready :
        (j : K) (i : ℕ) (p : Pc K V E P)
        → get_elem? w.threads i ≡ some p
        → Ready setup j laws w.shared p
    ready j i p at = record {
      sound = v.sound;
      owned = v.owned j i p at;
      unfinished =
          IsUnfinished-carries j p w.shared
            (λ k. omega (arith, v.located k, weigh-get_elem? (carries setup k) w.threads i p at));
      queued_once = omega (arith, v.located j);
      held = λ h. omega (arith, a.counted, weigh-get_elem? holds w.threads i p at);
      fresh = omega (arith, a.fresh, weigh-get_elem? stale w.threads i p at);
    }

    -- No key that a goroutine has in its hands is queued.
    once :
        (i : ℕ) (q : Pc K V E P)
        → get_elem? w.threads i ≡ some q
        → (k : K) → carries setup k q + queued setup k laws w.shared ≤ 1
    once i q at k = omega (
      arith,
      v.located k,
      pending-le same k w.shared.table,
      weigh-get_elem? (carries setup k) w.threads i q at,
    )

    step-IsKeyed :
        (c : Choice V E P) (i : ℕ) (p : Pc K V E P) (e : Effect (MapState setup) (Pc K V E P))
        → get_elem? w.threads i ≡ some p
        → act setup c w.shared p ≡ some e
        → IsKeyed (advance setup w i e)
    step-IsKeyed c i p e at does = record {
      sound = Changes-IsSound setup laws w.shared e.shared.table changes v.sound;
      located = λ j. omega (
        arith,
        (moved j).place,
        v.located j,
        weigh-advance setup laws (carries setup j) w.threads i p e.next e.spawned at,
      );
      owned = λ j n q found.
          get_elem?-append_elim (Owns setup j e.shared.table) (set w.threads i e.next)
            (listed e.spawned) n q
            (λ m b at_m.
              get_elem?-set_elim (Owns setup j e.shared.table) w.threads i m e.next b
                (λ m' b' at'.
                  Changes-Owns setup laws w.shared e.shared.table j b' changes v.sound
                    (once m' b' at') (v.owned j m' b' at'))
                (moved j).owns at_m)
            (λ m b at_m. listed-Owns j e.shared.table e.spawned (moved j).owns_new m b at_m) found;
    }
      where
        changes : Changes setup laws w.shared e.shared.table
        changes = subst (ChangesIf setup laws w.shared) does (act-Changes setup laws c w.shared p)

        moved : (j : K) → Moved setup j laws w.shared p e
        moved j =
            subst (MovedIf setup j laws w.shared p) does
              (act-Moved setup j laws c w.shared p (ready j i p at))

  -- The goroutines of a transfer keep their keys and their tasks.
  send-carries :
      (j : K) (p p' : Pc K V E P) (t : TaskTable K (Result V E P))
      → send_grant_to p ≡ some p'
      → (carries setup j p ≡ carries setup j p') × (Owns setup j t p → Owns setup j t p')
  unfolding weigh
  send-carries j (settling send_grant worker) p' t e = ground arith
  send-carries j (settling send_grant (handler k id h)) p' t e = ground arith
  send-carries j (granting [] (suc n) after) p' t e = ground arith
  send-carries j p p' t e = absurd (cc)

  receive-carries :
      (j : K) (q q' : Pc K V E P) (t : TaskTable K (Result V E P))
      → receive_grant q ≡ some q'
      → (carries setup j q ≡ carries setup j q') × (Owns setup j t q → Owns setup j t q')
  receive-carries j (receiving k id h) q' t e = ground arith
  receive-carries j q q' t e = absurd (cc)

  call-carries :
      (j : K) (p : Pc K V E P) (t : TaskTable K (Result V E P))
      → is_call p ≡ true
      → (carries setup j p ≡ 0) × Owns setup j t p
  call-carries j (informing e ks wants) t c = (refl, tt)
  call-carries j (limiting limit) t c = (refl, tt)
  call-carries j (dequeuing cleanup) t c = (refl, tt)
  call-carries j joining t c = (refl, tt)
  call-carries j p t c = absurd (cc)

  Moves-IsKeyed :
      {w w' : World setup} → Moves setup w w' → IsSteady setup laws w → IsKeyed w → IsKeyed w'
  Moves-IsKeyed (steps c i p e at does) a v = step-IsKeyed a v c i p e at does
  Moves-IsKeyed {w} (transfers i j p p' q q' at_i sent at_j got) a v = record {
    sound = v.sound;
    located = λ k. omega (
      arith,
      v.located k,
      weigh-set_two (carries setup k) w.threads i j p p' q q' ne at_i at_j,
      (send-carries k p p' w.shared.table sent).0,
      (receive-carries k q q' w.shared.table got).0,
    );
    owned = λ k n b found.
        get_elem?-set_elim (Owns setup k w.shared.table) (set w.threads i p') j n q' b
          (λ m c at_m.
            get_elem?-set_elim (Owns setup k w.shared.table) w.threads i m p' c (v.owned k)
              ((send-carries k p p' w.shared.table sent).1 (v.owned k i p at_i)) at_m)
          ((receive-carries k q q' w.shared.table got).1 (v.owned k j q at_j)) found;
  }
    where
      ne : i ≢ j
      ne = apart setup laws w i j p q at_i at_j (omega (arith, send-weights setup laws p p' sent)) (
          omega (
            arith,
            receive-weights setup laws q q' got
                (omega (arith, a.fresh, weigh-get_elem? stale w.threads j q at_j)),
          ))
  Moves-IsKeyed {w} (calls p c) a v = record {
    sound = v.sound;
    located = λ j. omega (
      arith,
      v.located j,
      weigh-snoc (carries setup j) w.threads p,
      call-carries j p w.shared.table c,
    );
    owned = λ j n q found.
        get_elem?-append_elim (Owns setup j w.shared.table) w.threads (p ∷ []) n q (v.owned j)
          (listed-Owns j w.shared.table (some p) (call-carries j p w.shared.table c).1) found;
  }

  new_map-IsKeyed : (max_int : ℕ) → IsKeyed (new_map setup max_int)
  unfolding weigh lookup
  new_map-IsKeyed max_int = record {
    sound = record { bounded = λ k id e. absurd (cc); distinct = λ j k id e f. absurd (cc) };
    located = λ j. omega (arith, ap (weigh (hit same j)) laws.items-empty);
    owned = λ j i p e. absurd (cc);
  }

  pub Reach-IsKeyed :
      {max_int : ℕ} {w : World setup} → 1 ≤ max_int → Reach setup max_int w → IsKeyed w
  Reach-IsKeyed {max_int} h start = new_map-IsKeyed max_int
  Reach-IsKeyed h (later r m) = Moves-IsKeyed m (Reach-IsSteady setup laws h r) (Reach-IsKeyed h r)
