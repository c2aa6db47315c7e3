-- ===== src/Scheduler/Kept.antt =====
-- What the loops of `check_ready` keep of a scheduler: the weight and the order of what it holds.
use open_coroutine.Base.{
  total, ℕ, ◌+◌, ◌≡◌, refl, ◌∙◌, inl, inr, List, [], ◌∷◌, ◌++◌, map, some, arith, Option-cases,
}
use open_coroutine.Timer.Order.{events, schedule, IsOrdered}
use open_coroutine.Coroutine.Machine.{ready}
use open_coroutine.Coroutine.Resume.{Body}
use open_coroutine.Scheduler.Containers.{ReadyQueue, Table}
use open_coroutine.Scheduler.Defs.{
  SchedulableCoroutine, Scheduler, Done, fine, fails, Failure, panic, repeat, drain_ready,
  suspend_round, time_out, drain_names, syscall_round, check_ready, going_on, State,
}
use open_coroutine.Scheduler.Defs
use open_coroutine.Scheduler.Steps.{
  drain_ready_accepted, drain_ready_refused, drain_names_missing, drain_names_accepted,
  drain_names_refused,
}
use native.Mathlib.Nat.{add_comm}
use open_coroutine.Scheduler.Loops.{Succeeding, Succeeding-map}

-- A weight of a coroutine that does not look at its state.
abbrev pub Weight : Type 0
Weight = ℕ → Body (Unit {0}) (Unit {0}) → ℕ

abbrev pub weigh : Weight → SchedulableCoroutine → ℕ
weigh g c = g c.name c.inner

-- The weight of what a timer list holds.
abbrev pub total_events : (SchedulableCoroutine → ℕ) → List (ℕ × SchedulableCoroutine) → ℕ
total_events f = total (λ p. f p.1)

pub total_tagged :
    (f : SchedulableCoroutine → ℕ) (k : ℕ) (cs : List SchedulableCoroutine)
    (q : List (ℕ × SchedulableCoroutine))
    → total_events f (map (λ x. (k, x)) cs ++ q) ≡ total f cs + total_events f q
total_tagged f k [] q = omega arith
total_tagged f k (c ∷ cs) q = omega (arith, total_tagged f k cs q)

pub total-schedule :
    (f : SchedulableCoroutine → ℕ) (ts : ℕ) (c : SchedulableCoroutine)
    (q : List (ℕ × SchedulableCoroutine))
    → total_events f (schedule ts c q) ≡ f c + total_events f q
unfolding schedule
total-schedule f ts c [] = refl
total-schedule f ts c ((s, x) ∷ q) = ground (arith, total-schedule f ts c q)

module _ (queue : ReadyQueue SchedulableCoroutine) (table : Table SchedulableCoroutine)
    (clock : ℕ → ℕ) (g : Weight) where
  -- The weight of all that the scheduler holds.
  unfoldable pub held : Scheduler queue table → ℕ
  held s =
      total (weigh g) (queue.contents s.ready)
      + total_events (weigh g) (events s.suspend)
      + total (weigh g) (table.values s.syscall)

  -- A loop that succeeds keeps the weight, the order of the suspended, the stack of schedulers and
  -- the thread's other stacks; `extra` is what was taken out before it and is not yet put back.
  pub record Keeps (extra : ℕ) (s s' : Scheduler queue table) : Type 0 where
    pub weight : held s' ≡ extra + held s
    pub ordered : IsOrdered s'.suspend
    pub schedulers : s'.schedulers ≡ s.schedulers
    pub locals : s'.locals ≡ s.locals
    pub name : s'.name ≡ s.name

  pub Keeps-trans :
      (a b : ℕ) (s t u : Scheduler queue table) → Keeps a s t → Keeps b t u → Keeps (b + a) s u
  Keeps-trans a b s t u p q = record {
    weight = omega (arith, p.weight, q.weight);
    ordered = q.ordered;
    schedulers = q.schedulers ∙ p.schedulers;
    locals = q.locals ∙ p.locals;
    name = q.name ∙ p.name;
  }

  push_ready-Keeps :
      (c : SchedulableCoroutine) (state : State) (s : Scheduler queue table)
      → IsOrdered s.suspend
      → Keeps (weigh g c) s (
          Defs.push_ready queue table clock
            (record c { state = state })
            (Defs.tick_for queue table clock c.state s))
  unfolding held
  push_ready-Keeps c state s o = record {
    weight = omega (arith, queue.push_total (weigh g) (record c { state = state }) s.ready);
    ordered = o;
    schedulers = refl;
    locals = refl;
    name = refl;
  }

  pub drain_ready-Keeps :
      (cs : List SchedulableCoroutine) (s : Scheduler queue table)
      → IsOrdered s.suspend
      → Succeeding queue table clock
          (Keeps (total (weigh g) cs) s)
          (drain_ready queue table clock cs s)
  unfolding drain_ready
  drain_ready-Keeps [] s o = record {
    weight = omega arith;
    ordered = o;
    schedulers = refl;
    locals = refl;
    name = refl;
  }
  drain_ready-Keeps (c ∷ cs) s o = elim (Option-cases (ready (clock s.reads) c.state).1) [
    | inl accepted ↦
        let pushed = push_ready-Keeps c (ready (clock s.reads) c.state).0 s o in
        rw (drain_ready_accepted queue table clock c cs s accepted) (
          Succeeding-map queue table clock (Keeps (total (weigh g) cs) _)
            (Keeps (weigh g c + total (weigh g) cs) s) _
            (λ u k. rw (add_comm (weigh g c) (total (weigh g) cs)) (Keeps-trans _ _ _ _ u pushed k))
            (drain_ready-Keeps cs
              (Defs.push_ready queue table clock
                (record c { state = (ready (clock s.reads) c.state).0 })
                (Defs.tick_for queue table clock c.state s))
              pushed.ordered))
    | inr (e, refused) ↦ rw (drain_ready_refused queue table clock c cs s e refused) tt
  ]

  time_out_weight :
      (k : ℕ) (c : SchedulableCoroutine) (state : State) (s : Scheduler queue table)
      → IsOrdered s.suspend
      → table.get k s.syscall ≡ some c
      → Keeps 0 s (
          Defs.push_ready queue table clock
            (record c { state = state })
            (record s { syscall = table.remove k s.syscall }))
  unfolding held
  time_out_weight k c state s o e = record {
    weight = omega (
      arith,
      queue.push_total (weigh g) (record c { state = state }) s.ready,
      table.remove_there (weigh g) k c s.syscall e,
    );
    ordered = o;
    schedulers = refl;
    locals = refl;
    name = refl;
  }

  pub drain_names-Keeps :
      (ks : List ℕ) (s : Scheduler queue table)
      → IsOrdered s.suspend
      → Succeeding queue table clock (Keeps 0 s) (drain_names queue table clock ks s)
  unfolding drain_names
  drain_names-Keeps [] s o = record {
    weight = omega arith;
    ordered = o;
    schedulers = refl;
    locals = refl;
    name = refl;
  }
  drain_names-Keeps (k ∷ ks) s o = elim (Option-cases (table.get k s.syscall)) [
    | inl missing ↦
        rw (drain_names_missing queue table clock k ks s missing) (drain_names-Keeps ks s o)
    | inr (c, there) ↦ elim (Option-cases (time_out queue table clock c.state).1) [
      | inl accepted ↦
          let pushed = time_out_weight k c (time_out queue table clock c.state).0 s o there in
          rw (drain_names_accepted queue table clock k ks s c there accepted) (
            Succeeding-map queue table clock (Keeps 0 _) (Keeps 0 s) _
              (λ u r. Keeps-trans 0 0 s _ u pushed r)
              (drain_names-Keeps ks
                (Defs.push_ready queue table clock
                  (record c { state = (time_out queue table clock c.state).0 })
                  (record s { syscall = table.remove k s.syscall }))
                pushed.ordered))
      | inr (u, refused) ↦ rw (drain_names_refused queue table clock k ks s c u there refused) tt
    ]
  ]

  pub tick-Keeps :
      (s : Scheduler queue table) → IsOrdered s.suspend → Keeps 0 s (Defs.tick queue table clock s)
  unfolding held
  tick-Keeps s o = record {
    weight = omega arith;
    ordered = o;
    schedulers = refl;
    locals = refl;
    name = refl;
  }

  pub same-Keeps : (s : Scheduler queue table) → IsOrdered s.suspend → Keeps 0 s s
  same-Keeps s o = record {
    weight = omega arith;
    ordered = o;
    schedulers = refl;
    locals = refl;
    name = refl;
  }
