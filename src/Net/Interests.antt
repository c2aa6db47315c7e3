-- ===== src/Net/Interests.antt =====
-- Each call of the selector keeps the records of a descriptor with what the poller watches.
use open_coroutine.Base.{
  ℕ, ◌≡◌, refl, ap, ◌∙◌, ◌==◌, if◌then◌else◌, List, [], ◌∷◌, Option, none, some, Bool, true, false,
  inl, inr, arith, ◌⊎◌,
}
use open_coroutine.Net.Selector.{
  Event, Result, ok, err, Pollers, put, Selector, Answer, returned, panicked, register, reregister,
  deregister, forget, select, register_both, add_read_event, add_write_event, del_event,
  del_read_event, del_write_event, fd_of,
}

-- What is watched of a descriptor: nothing, or whether it is readable and writable.
abbrev pub interest : Option Event → Option (Bool × Bool)
interest none = none
interest (some e) = some (e.readable, e.writable)

abbrev pub wanted : Bool → Bool → Option (Bool × Bool)
wanted false false = none
wanted r w = some (r, w)

Result-cases : (r : Result) → (r ≡ ok) ⊎ ((n : ℕ) × (r ≡ err n))
Result-cases ok = inl refl
Result-cases (err n) = inr (n, refl)

-- What a result makes of a registration.
abbrev kept_or : Result → Option Event → Option Event → Option Event
kept_or ok new old = new
kept_or (err n) new old = old

module _ (pollers : Pollers) where
  -- The records of a descriptor agree with what the poller watches of it.
  abbrev pub AgreesAt : ℕ → Selector pollers → Type 0
  AgreesAt i s =
      interest (pollers.registered s.poller i)
      ≡ wanted (s.readable_records i) (s.writable_records i)

  abbrev pub left : Answer pollers → Selector pollers
  left (returned s r) = s
  left (panicked s) = s

  added :
      (fd i : ℕ) (e : Event) (p : pollers.Poller)
      → pollers.registered (pollers.add fd e p).0 i
        ≡ kept_or
            (pollers.add fd e p).1
            (if fd == i then some e else pollers.registered p i)
            (pollers.registered p i)
  added fd i e p = elim (Result-cases (pollers.add fd e p).1) [
    | inl h ↦ rw h (pollers.add_ok fd i e p h)
    | inr (n, h) ↦ rw h (pollers.add_err fd i n e p h)
  ]

  modified :
      (fd i : ℕ) (e : Event) (p : pollers.Poller)
      → pollers.registered (pollers.modify fd e p).0 i
        ≡ kept_or
            (pollers.modify fd e p).1
            (if fd == i then some e else pollers.registered p i)
            (pollers.registered p i)
  modified fd i e p = elim (Result-cases (pollers.modify fd e p).1) [
    | inl h ↦ rw h (pollers.modify_ok fd i e p h)
    | inr (n, h) ↦ rw h (pollers.modify_err fd i n e p h)
  ]

  deleted :
      (fd i : ℕ) (p : pollers.Poller)
      → pollers.registered (pollers.delete fd p).0 i
        ≡ kept_or
            (pollers.delete fd p).1
            (if fd == i then none else pollers.registered p i)
            (pollers.registered p i)
  deleted fd i p = elim (Result-cases (pollers.delete fd p).1) [
    | inl h ↦ rw h (pollers.delete_ok fd i p h)
    | inr (n, h) ↦ rw h (pollers.delete_err fd i n p h)
  ]

  pub del_event-AgreesAt :
      (fd i : ℕ) (s : Selector pollers) → AgreesAt i s → AgreesAt i (left (del_event pollers fd s))
  unfolding del_event deregister
  del_event-AgreesAt fd i s a = ground (arith, deleted fd i s.poller)

  abbrev both : ℕ → Event
  both token = record { key = token; readable = true; writable = true }

  abbrev only_read : ℕ → Event
  only_read token = record { key = token; readable = true; writable = false }

  abbrev pub only_write : ℕ → Event
  only_write token = record { key = token; readable = false; writable = true }

  pub add_read_event-AgreesAt :
      (fd i token : ℕ) (s : Selector pollers)
      → AgreesAt i s
      → AgreesAt i (left (add_read_event pollers fd token s))
  unfolding add_read_event register register_both reregister
  add_read_event-AgreesAt fd i token s a = ground (
    arith,
    added fd i (only_read token) s.poller,
    modified fd i (both token) s.poller,
    added fd i (both token) (pollers.modify fd (both token) s.poller).0,
  )

  pub add_write_event-AgreesAt :
      (fd i token : ℕ) (s : Selector pollers)
      → AgreesAt i s
      → AgreesAt i (left (add_write_event pollers fd token s))
  unfolding add_write_event register register_both reregister
  add_write_event-AgreesAt fd i token s a = ground (
    arith,
    added fd i (only_write token) s.poller,
    modified fd i (both token) s.poller,
    added fd i (both token) (pollers.modify fd (both token) s.poller).0,
  )

  pub del_read_event-AgreesAt :
      (fd i : ℕ) (s : Selector pollers)
      → AgreesAt i s
      → AgreesAt i (left (del_read_event pollers fd s))
  unfolding del_read_event reregister
  del_read_event-AgreesAt fd i s a = ground (
    arith,
    modified fd i (only_write (fd_of pollers (s.writable_token_records fd))) s.poller,
    del_event-AgreesAt fd i s a,
  )

  pub del_write_event-AgreesAt :
      (fd i : ℕ) (s : Selector pollers)
      → AgreesAt i s
      → AgreesAt i (left (del_write_event pollers fd s))
  unfolding del_write_event reregister
  del_write_event-AgreesAt fd i s a = ground (
    arith,
    modified fd i (only_read (fd_of pollers (s.readable_token_records fd))) s.poller,
    del_event-AgreesAt fd i s a,
  )

  -- `select` forgets tokens, but neither registrations nor the records of interests.
  forget-AgreesAt :
      (es : List Event) (i : ℕ) (s : Selector pollers)
      → AgreesAt i s
      → AgreesAt i (forget pollers es s)
  unfolding forget
  forget-AgreesAt [] i s a = a
  forget-AgreesAt (e ∷ es) i s a =
      let fd = fd_of pollers (s.token_fd e.key) in
      forget-AgreesAt es i
        (record s {
          token_fd = put e.key none s.token_fd;
          readable_token_records =
              if e.readable then put fd none s.readable_token_records else s.readable_token_records;
          writable_token_records =
              if e.writable then put fd none s.writable_token_records else s.writable_token_records;
        })
        a

  pub select-AgreesAt :
      (timeout : Option ℕ) (i : ℕ) (s : Selector pollers)
      → AgreesAt i s
      → AgreesAt i (select pollers timeout s).0
  unfolding select
  select-AgreesAt timeout i s a =
      forget-AgreesAt (pollers.wait timeout s.poller).1 i
        (record s { poller = (pollers.wait timeout s.poller).0 })
        (ap interest (pollers.wait_keeps timeout i s.poller) ∙ a)
