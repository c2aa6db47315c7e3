-- ===== src/Net/Registry.antt =====
-- A poller for tests, that keeps what it was told.
use open_coroutine.Base.{ℕ, ◌≡◌, ◌==◌, refl, [], Option, some, none, false, arith, if◌then◌else◌}
use open_coroutine.Net.Selector.{Event, Result, ok, err, Pollers, put, Selector}

-- A poller that is a function from the descriptors, and reports nothing.
abbrev pub Registry : Type 0
Registry = ℕ → Option Event

abbrev pub add_to : Option Event → ℕ → Event → Registry → Registry × Result
add_to none fd e p = (put fd (some e) p, ok)
add_to (some old) fd e p = (p, err 17)

abbrev pub change_in : Option Event → ℕ → Event → Registry → Registry × Result
change_in none fd e p = (p, err 2)
change_in (some old) fd e p = (put fd (some e) p, ok)

abbrev pub take_from : Option Event → ℕ → Registry → Registry × Result
take_from none fd p = (p, err 2)
take_from (some old) fd p = (put fd none p, ok)

pub add_to_ok :
    (o : Option Event) (fd i : ℕ) (e : Event) (p : Registry)
    → (add_to o fd e p).1 ≡ ok
    → (add_to o fd e p).0 i ≡ (if fd == i then some e else p i)
add_to_ok none fd i e p h = refl
add_to_ok (some old) fd i e p h = absurd (ground arith)

pub add_to_err :
    (o : Option Event) (fd i n : ℕ) (e : Event) (p : Registry)
    → (add_to o fd e p).1 ≡ err n
    → (add_to o fd e p).0 i ≡ p i
add_to_err none fd i n e p h = absurd (ground arith)
add_to_err (some old) fd i n e p h = refl

pub add_to_again :
    (fd : ℕ) (e old : Event) (p : Registry)
    → p fd ≡ some old
    → (n : ℕ) × ((add_to (p fd) fd e p).1 ≡ err n)
add_to_again fd e old p h = (17, rw h refl)

pub change_in_ok :
    (o : Option Event) (fd i : ℕ) (e : Event) (p : Registry)
    → (change_in o fd e p).1 ≡ ok
    → (change_in o fd e p).0 i ≡ (if fd == i then some e else p i)
change_in_ok (some old) fd i e p h = refl
change_in_ok none fd i e p h = absurd (ground arith)

pub change_in_err :
    (o : Option Event) (fd i n : ℕ) (e : Event) (p : Registry)
    → (change_in o fd e p).1 ≡ err n
    → (change_in o fd e p).0 i ≡ p i
change_in_err (some old) fd i n e p h = absurd (ground arith)
change_in_err none fd i n e p h = refl

pub take_from_ok :
    (o : Option Event) (fd i : ℕ) (p : Registry)
    → (take_from o fd p).1 ≡ ok
    → (take_from o fd p).0 i ≡ (if fd == i then none else p i)
take_from_ok (some old) fd i p h = refl
take_from_ok none fd i p h = absurd (ground arith)

pub take_from_err :
    (o : Option Event) (fd i n : ℕ) (p : Registry)
    → (take_from o fd p).1 ≡ err n
    → (take_from o fd p).0 i ≡ p i
take_from_err (some old) fd i n p h = absurd (ground arith)
take_from_err none fd i n p h = refl

abbrev pub pollers : Pollers
pollers = record {
  Poller = Registry;
  registered = λ p i. p i;
  add = λ fd e p. add_to (p fd) fd e p;
  modify = λ fd e p. change_in (p fd) fd e p;
  delete = λ fd p. take_from (p fd) fd p;
  wait = λ timeout p. (p, [], ok);
  add_ok = λ fd i e p. add_to_ok (p fd) fd i e p;
  add_err = λ fd i n e p. add_to_err (p fd) fd i n e p;
  add_again = λ fd e old p. add_to_again fd e old p;
  modify_ok = λ fd i e p. change_in_ok (p fd) fd i e p;
  modify_err = λ fd i n e p. change_in_err (p fd) fd i n e p;
  delete_ok = λ fd i p. take_from_ok (p fd) fd i p;
  delete_err = λ fd i n p. take_from_err (p fd) fd i n p;
  wait_keeps = λ timeout i p. refl;
}

abbrev pub unwatched : Selector pollers
unwatched = record {
  poller = λ i. none;
  token_fd = λ i. none;
  readable_records = λ i. false;
  readable_token_records = λ i. none;
  writable_records = λ i. false;
  writable_token_records = λ i. none;
}
