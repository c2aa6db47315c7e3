-- ===== src/Net/Forgets.antt =====
-- `EventLoops::del_event` of open-coroutine-core/src/net/core.rs, on loops that share the records of
-- selector.rs.
use open_coroutine.Base.{
  ℕ, zero, suc, ◌+◌, ◌≤◌, ◌<◌, ◌≡◌, ◌≢◌, refl, sym, ap, ◌∙◌, ◌==◌, ◌||◌, List, [], ◌∷◌, get_elem?,
  none, some, some-injective, true, false, Bool-cases, inl, inr, u64_max, arith, ==→eq,
}
use mathlib.Core.Path.{subst}
use open_coroutine.Net.Loops.{reach, reach_all}
use open_coroutine.Net.Selector.{ok, err, Pollers, put, Selector, returned, del_event, deregister}
use open_coroutine.Net.Interests.{left}
use open_coroutine.Net.Shared
use open_coroutine.Net.Shared.{Loops, on_loop, put_same, put_other}

module _ (pollers : Pollers) (fd : ℕ) where
  -- The event is deleted at one loop after another.
  unfoldable pub deletes : List ℕ → Loops pollers → Loops pollers
  deletes [] l = l
  deletes (k ∷ ks) l = deletes ks (on_loop pollers k (del_event pollers fd) l)

  -- `EventLoops::del_event` on `n` loops.
  unfoldable pub del_event_everywhere : ℕ → ℕ → Loops pollers → Loops pollers
  unfolding deletes reach
  del_event_everywhere n index l = deletes (reach n n false index) l

  -- The descriptor is recorded, and registered at one loop only, where its deletion succeeds.
  pub record IsWatchedAt (i : ℕ) (l : Loops pollers) : Type 0 where
    pub recorded : (l.records.readable_records fd || l.records.writable_records fd) ≡ true
    pub accepted : (pollers.delete fd (l.polls i)).1 ≡ ok
    pub only : (j : ℕ) → j ≢ i → pollers.registered (l.polls j) fd ≡ none

  -- The descriptor is registered nowhere, and is in none of the four records that are kept by
  -- descriptor: READABLE_RECORDS, WRITABLE_RECORDS and those of the tokens. TOKEN_FD, which is kept by
  -- token, is not among them.
  pub record IsForgotten (l : Loops pollers) : Type 0 where
    pub no_read : l.records.readable_records fd ≡ false
    pub no_write : l.records.writable_records fd ≡ false
    pub no_read_token : l.records.readable_token_records fd ≡ none
    pub no_write_token : l.records.writable_token_records fd ≡ none
    pub nowhere : (j : ℕ) → pollers.registered (l.polls j) fd ≡ none

  refused :
      (s : Selector pollers) (n : ℕ)
      → (s.readable_records fd || s.writable_records fd) ≡ true
      → (pollers.delete fd s.poller).1 ≡ err n
      → let s' = left pollers (del_event pollers fd s) in
        (s'.poller ≡ (pollers.delete fd s.poller).0)
        × (s'.readable_records fd ≡ s.readable_records fd)
        × (s'.writable_records fd ≡ s.writable_records fd)
  unfolding del_event deregister
  refused s n r e = ground (arith, r, e)

  done :
      (s : Selector pollers)
      → (s.readable_records fd || s.writable_records fd) ≡ true
      → (pollers.delete fd s.poller).1 ≡ ok
      → let s' = left pollers (del_event pollers fd s) in
        (s'.poller ≡ (pollers.delete fd s.poller).0)
        × (s'.readable_records fd ≡ false)
        × (s'.writable_records fd ≡ false)
        × (s'.readable_token_records fd ≡ none)
        × (s'.writable_token_records fd ≡ none)
  unfolding del_event deregister
  done s r e = ground (arith, r, e)

  at_rest :
      (s : Selector pollers)
      → s.readable_records fd ≡ false
      → s.writable_records fd ≡ false
      → del_event pollers fd s ≡ returned s ok
  unfolding del_event
  at_rest s r w = rw (r, w) refl

  none_at :
      (p : pollers.Poller) (polls : ℕ → pollers.Poller) (i j : ℕ)
      → pollers.registered p fd ≡ none
      → (i ≢ j → pollers.registered (polls j) fd ≡ none)
      → pollers.registered (put i p polls j) fd ≡ none
  none_at p polls i j here elsewhere = elim (Bool-cases (i == j)) [
    | inl same ↦ rw (same) here
    | inr other ↦ rw (other) (elsewhere (ground (arith, other)))
  ]

  cleared :
      (p : pollers.Poller)
      → (pollers.delete fd p).1 ≡ ok
      → pollers.registered (pollers.delete fd p).0 fd ≡ none
  cleared p e = ground (arith, pollers.delete_ok fd fd p e)

  forgets_at :
      (i : ℕ) (l : Loops pollers)
      → IsWatchedAt i l
      → IsForgotten (on_loop pollers i (del_event pollers fd) l)
  unfolding on_loop
  forgets_at i l w =
      let (poller, read, write, read_token, write_token) =
        done (Shared.of pollers i l) w.recorded w.accepted in
      record {
        no_read = read;
        no_write = write;
        no_read_token = read_token;
        no_write_token = write_token;
        nowhere = λ j.
            none_at _ l.polls i j
              (ap (λ p. pollers.registered p fd) poller ∙ cleared (l.polls i) w.accepted)
              (λ other. w.only j (λ e. other (sym e)));
      }

  forgets_on :
      (k : ℕ) (l : Loops pollers)
      → IsForgotten l
      → IsForgotten (on_loop pollers k (del_event pollers fd) l)
  unfolding on_loop
  forgets_on k l f = rw (at_rest (Shared.of pollers k l) f.no_read f.no_write) (record {
    no_read = f.no_read;
    no_write = f.no_write;
    no_read_token = f.no_read_token;
    no_write_token = f.no_write_token;
    nowhere = λ j. none_at (l.polls k) l.polls k j (f.nowhere k) (λ other. f.nowhere j);
  })

  passes :
      (k i : ℕ) (l : Loops pollers)
      → ((p : pollers.Poller)
          → pollers.registered p fd ≡ none
          → (n : ℕ) × ((pollers.delete fd p).1 ≡ err n))
      → k ≢ i
      → IsWatchedAt i l
      → IsWatchedAt i (on_loop pollers k (del_event pollers fd) l)
  unfolding on_loop
  passes k i l absent apart w =
      let (n, e) = absent (l.polls k) (w.only k apart) in
      let (poller, read, write) = refused (Shared.of pollers k l) n w.recorded e in
      record {
        recorded = rw (read, write) w.recorded;
        accepted = ap (λ p. (pollers.delete fd p).1) (put_other k i _ l.polls apart) ∙ w.accepted;
        only = λ j other.
            none_at _ l.polls k j
              (ap (λ p. pollers.registered p fd) poller
                ∙ pollers.delete_err fd fd n (l.polls k) e
                ∙ w.only k apart)
              (λ away. w.only j other);
      }

  stays-IsForgotten : (ks : List ℕ) (l : Loops pollers) → IsForgotten l → IsForgotten (deletes ks l)
  unfolding deletes
  stays-IsForgotten [] l f = f
  stays-IsForgotten (k ∷ ks) l f = stays-IsForgotten ks _ (forgets_on k l f)

  Absent : Type 0
  Absent =
      (p : pollers.Poller)
      → pollers.registered p fd ≡ none
      → (n : ℕ) × ((pollers.delete fd p).1 ≡ err n)

  deletes-IsForgotten :
      (ks : List ℕ) (i at : ℕ) (l : Loops pollers)
      → Absent
      → IsWatchedAt i l
      → get_elem? ks at ≡ some i
      → IsForgotten (deletes ks l)
  unfolding deletes Absent
  deletes-IsForgotten [] i at l absent w e = absurd (ground (arith, e))
  deletes-IsForgotten (k ∷ ks) i zero l absent w e =
      stays-IsForgotten ks _
        (forgets_at k l (subst (λ m. IsWatchedAt m l) (sym (some-injective k i e)) w))
  deletes-IsForgotten (k ∷ ks) i (suc at) l absent w e = elim (Bool-cases (k == i)) [
    | inl same ↦
        stays-IsForgotten ks _
          (forgets_at k l (subst (λ m. IsWatchedAt m l) (sym (==→eq k i same)) w))
    | inr other ↦
        deletes-IsForgotten ks i at _ absent (passes k i l absent (ground (arith, other)) w) e
  ]

  -- On two loops or more, where the index does not pass the largest `usize` meanwhile and a poller
  -- refuses to delete what is not registered: a descriptor that is registered at one loop only, where
  -- its deletion succeeds, is behind `EventLoops::del_event` registered at none, and neither in the
  -- two records of interests nor in the two records of tokens by descriptor, though the loops share
  -- these and other loops may come first. Nothing is said of TOKEN_FD.
  pub del_event_everywhere-IsForgotten :
      (n index i : ℕ) (l : Loops pollers)
      → ((p : pollers.Poller)
          → pollers.registered p fd ≡ none
          → (e : ℕ) × ((pollers.delete fd p).1 ≡ err e))
      → 1 < n
      → index + n ≤ u64_max
      → i < n
      → IsWatchedAt i l
      → IsForgotten (del_event_everywhere n index l)
  unfolding del_event_everywhere Absent
  del_event_everywhere-IsForgotten n index i l absent several below lt w =
      let (at, e) = reach_all n index i several below lt in
      deletes-IsForgotten (reach n n false index) i at l absent w e
