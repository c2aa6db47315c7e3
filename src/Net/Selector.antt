-- ===== src/Net/Selector.antt =====
-- `SelectorImpl` of open-coroutine-core/src/net/selector.rs with its static records. The `Poller` of
-- the crate polling is an interface with its documented behaviour; a descriptor is a number, and
-- an error is its number. `Event` is the interest that is registered and that is reported.
use open_coroutine.Base.{
  ℕ, ◌≡◌, ◌==◌, ◌||◌, if◌then◌else◌, List, [], ◌∷◌, Option, none, some, Bool, true, false,
}

pub record Event : Type 0 where
  pub key : ℕ
  pub readable : Bool
  pub writable : Bool

-- `io::Result<()>`.
pub data Result : Type 0 where
  ok : Result
  err : ℕ → Result

-- `add_with_mode`, `modify_with_mode`, `delete` and `wait`. A source is added once, until it is
-- deleted; what fails changes nothing, and waiting does not change what is registered.
pub record Pollers : Type 1 where
  pub Poller : Type 0
  pub registered : Poller → ℕ → Option Event
  pub add : ℕ → Event → Poller → Poller × Result
  pub modify : ℕ → Event → Poller → Poller × Result
  pub delete : ℕ → Poller → Poller × Result
  pub wait : Option ℕ → Poller → Poller × List Event × Result
  pub add_ok :
      (fd i : ℕ) (e : Event) (p : Poller)
      → (add fd e p).1 ≡ ok
      → registered (add fd e p).0 i ≡ (if fd == i then some e else registered p i)
  pub add_err :
      (fd i n : ℕ) (e : Event) (p : Poller)
      → (add fd e p).1 ≡ err n
      → registered (add fd e p).0 i ≡ registered p i
  pub add_again :
      (fd : ℕ) (e old : Event) (p : Poller)
      → registered p fd ≡ some old
      → (n : ℕ) × ((add fd e p).1 ≡ err n)
  pub modify_ok :
      (fd i : ℕ) (e : Event) (p : Poller)
      → (modify fd e p).1 ≡ ok
      → registered (modify fd e p).0 i ≡ (if fd == i then some e else registered p i)
  pub modify_err :
      (fd i n : ℕ) (e : Event) (p : Poller)
      → (modify fd e p).1 ≡ err n
      → registered (modify fd e p).0 i ≡ registered p i
  pub delete_ok :
      (fd i : ℕ) (p : Poller)
      → (delete fd p).1 ≡ ok
      → registered (delete fd p).0 i ≡ (if fd == i then none else registered p i)
  pub delete_err :
      (fd i n : ℕ) (p : Poller)
      → (delete fd p).1 ≡ err n
      → registered (delete fd p).0 i ≡ registered p i
  pub wait_keeps :
      (timeout : Option ℕ) (i : ℕ) (p : Poller) → registered (wait timeout p).0 i ≡ registered p i

-- A map as a function, changed at one key.
abbrev pub put : {A : Type 0} → ℕ → A → (ℕ → A) → ℕ → A
put k v f i = if k == i then v else f i

module _ (pollers : Pollers) where
  -- The poller and the statics TOKEN_FD, READABLE_RECORDS, READABLE_TOKEN_RECORDS,
  -- WRITABLE_RECORDS and WRITABLE_TOKEN_RECORDS.
  pub record Selector : Type 0 where
    pub poller : pollers.Poller
    pub token_fd : ℕ → Option ℕ
    pub readable_records : ℕ → Bool
    pub readable_token_records : ℕ → Option ℕ
    pub writable_records : ℕ → Bool
    pub writable_token_records : ℕ → Option ℕ

  -- What an operation leaves; `panicked` is an assertion that failed.
  pub data Answer : Type 0 where
    returned : Selector → Result → Answer
    panicked : Selector → Answer

  abbrev pub note_token : ℕ → ℕ → Result → Selector → Selector
  note_token fd token ok s = record s { token_fd = put token (some fd) s.token_fd }
  note_token fd token (err n) s = s

  unfoldable pub register : ℕ → ℕ → Event → Selector → Selector × Result
  register fd token interests s =
      let added = pollers.add fd interests s.poller in
      (note_token fd token added.1 (record s { poller = added.0 }), added.1)

  unfoldable pub reregister : ℕ → ℕ → Event → Selector → Selector × Result
  reregister fd token interests s =
      let modified = pollers.modify fd interests s.poller in
      (note_token fd token modified.1 (record s { poller = modified.0 }), modified.1)

  unfoldable pub deregister : ℕ → ℕ → Selector → Selector × Result
  deregister fd token s =
      let deleted = pollers.delete fd s.poller in
      elim deleted.1 [
        | ok ↦ (record s { poller = deleted.0; token_fd = put token none s.token_fd }, ok)
        | err n ↦ (record s { poller = deleted.0 }, err n)
      ]

  -- The loop of `select` over the events.
  abbrev pub fd_of : Option ℕ → ℕ
  fd_of (some fd) = fd
  fd_of none = 0

  unfoldable pub forget : List Event → Selector → Selector
  forget [] s = s
  forget (e ∷ es) s =
      let fd = fd_of (s.token_fd e.key) in
      forget es (record s {
        token_fd = put e.key none s.token_fd;
        readable_token_records =
            if e.readable then put fd none s.readable_token_records else s.readable_token_records;
        writable_token_records =
            if e.writable then put fd none s.writable_token_records else s.writable_token_records;
      })

  unfoldable pub select : Option ℕ → Selector → Selector × List Event × Result
  unfolding forget
  select timeout s =
      let (poller, events, result) = pollers.wait timeout s.poller in
      (forget events (record s { poller = poller }), events, result)

  abbrev pub or_else : Result → Result → Result
  or_else ok r = ok
  or_else (err n) r = r

  -- `self.reregister(..).or(self.register(..))`: the argument of `or` is computed in any case.
  unfoldable pub register_both : ℕ → ℕ → Selector → Selector × Result
  unfolding register reregister
  register_both fd token s =
      let interests : Event = record { key = token; readable = true; writable = true } in
      let first = reregister fd token interests s in
      let second = register fd token interests first.0 in (second.0, or_else first.1 second.1)

  unfoldable pub add_read_event : ℕ → ℕ → Selector → Answer
  unfolding register_both register
  add_read_event fd token s =
      if s.readable_records fd
      then returned s ok
      else (let done =
            if s.writable_records fd
            then register_both fd token s
            else register fd token (record { key = token; readable = true; writable = false }) s in
          elim done.1 [
            | err n ↦ returned done.0 (err n)
            | ok ↦
                returned
                  (record done.0 {
                    readable_records = put fd true s.readable_records;
                    readable_token_records = put fd (some token) s.readable_token_records;
                  })
                  ok
          ])

  unfoldable pub add_write_event : ℕ → ℕ → Selector → Answer
  unfolding register_both register
  add_write_event fd token s =
      if s.writable_records fd
      then returned s ok
      else (let done =
            if s.readable_records fd
            then register_both fd token s
            else register fd token (record { key = token; readable = false; writable = true }) s in
          elim done.1 [
            | err n ↦ returned done.0 (err n)
            | ok ↦
                returned
                  (record done.0 {
                    writable_records = put fd true s.writable_records;
                    writable_token_records = put fd (some token) s.writable_token_records;
                  })
                  ok
          ])

  abbrev pub token_or : Option ℕ → Option ℕ → ℕ
  token_or (some t) other = t
  token_or none other = fd_of other

  -- Both records of the token are removed before the poller is asked.
  unfoldable pub del_event : ℕ → Selector → Answer
  unfolding deregister
  del_event fd s =
      if s.readable_records fd || s.writable_records fd
      then (let token = token_or (s.readable_token_records fd) (s.writable_token_records fd) in
          let forgotten = record s {
            readable_token_records = put fd none s.readable_token_records;
            writable_token_records = put fd none s.writable_token_records;
          } in
          let done = deregister fd token forgotten in
          elim done.1 [
            | err n ↦ returned done.0 (err n)
            | ok ↦
                returned
                  (record done.0 {
                    readable_records = put fd false s.readable_records;
                    writable_records = put fd false s.writable_records;
                  })
                  ok
          ])
      else returned s ok

  -- The two assertions: the second finds the token's record, or panics.
  abbrev pub asserted : Option ℕ → Selector → Answer
  asserted (some t) s = returned s ok
  asserted none s = panicked s

  unfoldable pub del_read_event : ℕ → Selector → Answer
  unfolding reregister del_event
  del_read_event fd s =
      if s.readable_records fd
      then (if s.writable_records fd
          then (let token = fd_of (s.writable_token_records fd) in
              let done =
                reregister fd token (record { key = token; readable = false; writable = true }) s in
              elim done.1 [
                | err n ↦ returned done.0 (err n)
                | ok ↦ asserted (s.readable_token_records fd) (record done.0 {
                  readable_records = put fd false s.readable_records;
                  readable_token_records = put fd none s.readable_token_records;
                })
              ])
          else del_event fd s)
      else returned s ok

  unfoldable pub del_write_event : ℕ → Selector → Answer
  unfolding reregister del_event
  del_write_event fd s =
      if s.writable_records fd
      then (if s.readable_records fd
          then (let token = fd_of (s.readable_token_records fd) in
              let done =
                reregister fd token (record { key = token; readable = true; writable = false }) s in
              elim done.1 [
                | err n ↦ returned done.0 (err n)
                | ok ↦ asserted (s.writable_token_records fd) (record done.0 {
                  writable_records = put fd false s.writable_records;
                  writable_token_records = put fd none s.writable_token_records;
                })
              ])
          else del_event fd s)
      else returned s ok
