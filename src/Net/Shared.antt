-- ===== src/Net/Shared.antt =====
-- Several event loops, each with a poller of its own, on the static records of
-- open-coroutine-core/src/net/selector.rs, which they share.
use open_coroutine.Base.{ℕ, ◌≡◌, ◌≢◌, refl, ap, ◌∙◌, Option, none, some, true, arith}
use open_coroutine.Net.Selector.{
  Result, ok, Pollers, put, Selector, Answer, returned, panicked, add_read_event, register,
  register_both, reregister,
}
use open_coroutine.Net.Interests.{left}

pub put_same : {A : Type 0} (k : ℕ) (v : A) (f : ℕ → A) → put k v f k ≡ v
put_same k v f = ground arith

pub put_other : {A : Type 0} (k i : ℕ) (v : A) (f : ℕ → A) → k ≢ i → put k v f i ≡ f i
put_other k i v f other = ground arith

module _ (pollers : Pollers) where
  -- The pollers by the number of their loop, and the records, as the selector that was used last.
  pub record Loops : Type 0 where
    pub polls : ℕ → pollers.Poller
    pub records : Selector pollers

  abbrev pub Op : Type 0
  Op = Selector pollers → Answer pollers

  -- The selector of a loop.
  abbrev pub of : ℕ → Loops → Selector pollers
  of i l = record l.records { poller = l.polls i }

  -- A call of a loop's selector.
  unfoldable pub on_loop : ℕ → Op → Loops → Loops
  on_loop i op l =
      let s = left pollers (op (of i l)) in record { polls = put i s.poller l.polls; records = s }

  -- What the call returns, if it does not panic.
  abbrev pub result : Answer pollers → Option Result
  result (returned s r) = some r
  result (panicked s) = none

  add_read_event_ok :
      (fd token : ℕ) (s : Selector pollers)
      → result (add_read_event pollers fd token s) ≡ some ok
      → (left pollers (add_read_event pollers fd token s)).readable_records fd ≡ true
  unfolding add_read_event register register_both reregister
  add_read_event_ok fd token s e = ground (arith, e)

  recorded :
      (fd token : ℕ) (s : Selector pollers)
      → s.readable_records fd ≡ true
      → add_read_event pollers fd token s ≡ returned s ok
  unfolding add_read_event
  recorded fd token s e = rw (e) refl

  -- Where the addition of a read event succeeds on one loop, the addition of the same descriptor on
  -- another reports success too, but leaves that loop's poller as it was before both.
  pub add_read_event_elsewhere :
      (fd token token' i j : ℕ) (l : Loops)
      → i ≢ j
      → result (add_read_event pollers fd token (of i l)) ≡ some ok
      → (result (
            add_read_event pollers fd token' (of j (on_loop i (add_read_event pollers fd token) l)))
          ≡ some ok)
        × ((on_loop j
                (add_read_event pollers fd token')
                (on_loop i (add_read_event pollers fd token) l)).polls
              j
            ≡ l.polls j)
  unfolding on_loop
  add_read_event_elsewhere fd token token' i j l apart added =
      let l' = on_loop i (add_read_event pollers fd token) l in
      let again = recorded fd token' (of j l') (add_read_event_ok fd token (of i l) added) in
      (
        ap result again,
        rw (again) (put_same j (l'.polls j) l'.polls ∙ put_other i j _ l.polls apart),
      )
