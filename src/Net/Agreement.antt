-- ===== src/Net/Agreement.antt =====
-- The records of the selector say what the poller watches.
use open_coroutine.Base.{
  ℕ, ◌≡◌, refl, List, [], ◌∷◌, Option, none, some, true, false, ==_refl, arith,
}
use open_coroutine.Net.Selector.{
  Event, ok, Pollers, put, Selector, Answer, returned, panicked, reregister, forget, select,
  add_read_event, add_write_event, del_event, del_read_event, del_write_event, fd_of,
}
use open_coroutine.Net.Interests.{
  AgreesAt, left, only_write, add_read_event-AgreesAt, add_write_event-AgreesAt, del_event-AgreesAt,
  del_read_event-AgreesAt, del_write_event-AgreesAt, select-AgreesAt,
}

-- The calls of a selector.
pub data Call : Type 0 where
  adds_read adds_write : ℕ → ℕ → Call
  deletes deletes_read deletes_write : ℕ → Call
  selects : Option ℕ → Call

module _ (pollers : Pollers) where
  -- What a call leaves, errors and panics included.
  unfoldable pub call : Call → Selector pollers → Selector pollers
  unfolding add_read_event add_write_event del_event del_read_event del_write_event select
  call (adds_read fd token) s = left pollers (add_read_event pollers fd token s)
  call (adds_write fd token) s = left pollers (add_write_event pollers fd token s)
  call (deletes fd) s = left pollers (del_event pollers fd s)
  call (deletes_read fd) s = left pollers (del_read_event pollers fd s)
  call (deletes_write fd) s = left pollers (del_write_event pollers fd s)
  call (selects timeout) s = (select pollers timeout s).0

  unfoldable pub calls : List Call → Selector pollers → Selector pollers
  calls [] s = s
  calls (c ∷ cs) s = calls cs (call c s)

  call-AgreesAt :
      (c : Call) (i : ℕ) (s : Selector pollers)
      → AgreesAt pollers i s
      → AgreesAt pollers i (call c s)
  unfolding call
  call-AgreesAt (adds_read fd token) i s a = add_read_event-AgreesAt pollers fd i token s a
  call-AgreesAt (adds_write fd token) i s a = add_write_event-AgreesAt pollers fd i token s a
  call-AgreesAt (deletes fd) i s a = del_event-AgreesAt pollers fd i s a
  call-AgreesAt (deletes_read fd) i s a = del_read_event-AgreesAt pollers fd i s a
  call-AgreesAt (deletes_write fd) i s a = del_write_event-AgreesAt pollers fd i s a
  call-AgreesAt (selects timeout) i s a = select-AgreesAt pollers timeout i s a

  -- Where the records of a descriptor agree with what the poller watches of it, they do so after any
  -- calls of the selector in any order, those that fail or panic included.
  pub calls-AgreesAt :
      (cs : List Call) (i : ℕ) (s : Selector pollers)
      → AgreesAt pollers i s
      → AgreesAt pollers i (calls cs s)
  unfolding calls
  calls-AgreesAt [] i s a = a
  calls-AgreesAt (c ∷ cs) i s a = calls-AgreesAt cs i (call c s) (call-AgreesAt c i s a)

  abbrev pub IsPanic : Answer pollers → Type 0
  IsPanic (returned s r) = ⊥
  IsPanic (panicked s) = Unit {0}

  no_record :
      (fd : ℕ) (s : Selector pollers)
      → s.readable_token_records fd ≡ none
      → s.readable_records fd ≡ true
      → s.writable_records fd ≡ true
      → (reregister pollers fd
          (fd_of pollers (s.writable_token_records fd))
          (only_write pollers (fd_of pollers (s.writable_token_records fd)))
          s).1
        ≡ ok
      → IsPanic (del_read_event pollers fd s)
  unfolding del_read_event
  no_record fd s token reads writes modify_ok = rw (reads, writes) (rw (modify_ok, token) tt)

  forget_one :
      (fd : ℕ) (e : Event) (s : Selector pollers)
      → s.token_fd e.key ≡ some fd
      → e.readable ≡ true
      → e.writable ≡ false
      → forget pollers (e ∷ []) s ≡ record s {
        token_fd = put e.key none s.token_fd;
        readable_token_records = put fd none s.readable_token_records;
      }
  unfolding forget
  forget_one fd e s token readable not_writable = rw (token, readable, not_writable) refl

  added_read :
      (fd token : ℕ) (s s' : Selector pollers)
      → add_read_event pollers fd token s ≡ returned s' ok
      → s'.readable_records fd ≡ true
  unfolding add_read_event
  added_read fd token s s' e = ground arith

  -- A descriptor watched for reading and writing, of which a readable event was reported, loses the
  -- record of its token; if the poller then lets the interest be changed, deleting the read event
  -- panics.
  pub del_read_event-forget :
      (fd : ℕ) (e : Event) (s : Selector pollers)
      → s.token_fd e.key ≡ some fd
      → e.readable ≡ true
      → e.writable ≡ false
      → s.readable_records fd ≡ true
      → s.writable_records fd ≡ true
      → (pollers.modify fd
          (only_write pollers (fd_of pollers (s.writable_token_records fd)))
          s.poller).1
        ≡ ok
      → IsPanic (del_read_event pollers fd (forget pollers (e ∷ []) s))
  unfolding reregister
  del_read_event-forget fd e s token readable not_writable reads writes modify_ok =
      rw (forget_one fd e s token readable not_writable) (
        no_record fd
          (record s {
            token_fd = put e.key none s.token_fd;
            readable_token_records = put fd none s.readable_token_records;
          })
          (rw (==_refl fd) refl) reads writes modify_ok)

  -- A read event that was added is added again without effect.
  pub add_read_event_again :
      (fd token token' : ℕ) (s s' : Selector pollers)
      → add_read_event pollers fd token s ≡ returned s' ok
      → add_read_event pollers fd token' s' ≡ returned s' ok
  unfolding add_read_event
  add_read_event_again fd token token' s s' e = rw (added_read fd token s s' e) refl
