-- ===== src/Timer/Queue.antt =====
-- `TimerList` of open-coroutine-timer/src/lib.rs: the entries, keyed by their timestamps.
use open_coroutine.Base.{
  ℕ, ◌+◌, List, [], ◌∷◌, Option, none, some, Bool, true, false, if◌then◌else◌, length,
}
use open_coroutine.Timer.Entry.{TimerEntry}
use open_coroutine.Timer.Entry
use open_coroutine.Timer.Map

-- `TimerList(BTreeMap<u64, TimerEntry<T>>)`.
abbrev pub TimerList {ℓ} : Type ℓ → Type ℓ
TimerList T = List (ℕ × TimerEntry T)

module _ {ℓ} {T : Type ℓ} where
  -- `TimerList::default`.
  abbrev pub default : TimerList T
  default = []

  unfoldable pub value_count : TimerList T → ℕ
  value_count [] = 0
  value_count ((_, e) ∷ l) = Entry.len e + value_count l

  unfoldable pub entry_len : TimerList T → ℕ
  entry_len l = length l

  -- The loop over `values()` that returns at the first entry which is not empty.
  unfoldable pub is_empty : TimerList T → Bool
  is_empty [] = true
  is_empty ((_, e) ∷ l) = let rest = is_empty l in if Entry.is_empty e then rest else false

  unfoldable pub get_entry : ℕ → TimerList T → Option (TimerEntry T)
  get_entry timestamp l = Map.get timestamp l

  -- What `self.insert(timestamp, e)` does where the map has an entry at the timestamp.
  unfoldable pub append_at : ℕ → T → TimerList T → TimerList T
  append_at timestamp t l = Map.update timestamp (Entry.push_back t) l

  -- The retry loop: the elements of the replaced entry are inserted again, each into the entry that
  -- is now there.
  unfoldable pub reinsert : ℕ → List T → TimerList T → TimerList T
  reinsert timestamp [] l = l
  reinsert timestamp (t ∷ ts) l = reinsert timestamp ts (append_at timestamp t l)

  -- The tail of `insert`, from the new entry on; the option is the value that `BTreeMap::insert`
  -- replaced.
  unfoldable pub insert_new : ℕ → T → TimerList T → Option (TimerEntry T) → TimerList T
  unfolding reinsert
  insert_new timestamp t l none = Map.insert timestamp (Entry.push_back t (Entry.new timestamp)) l
  insert_new timestamp t l (some old) =
      reinsert timestamp old.inner
        (Map.insert timestamp (Entry.push_back t (Entry.new timestamp)) l)

  unfoldable pub insert : ℕ → T → TimerList T → TimerList T
  insert timestamp t l = elim (Map.get timestamp l) [
    | some _ ↦ append_at timestamp t l
    | none ↦ insert_new timestamp t l (Map.get timestamp l)
  ]

  -- `front`: the pair with the smallest key.
  unfoldable pub front : TimerList T → Option (ℕ × TimerEntry T)
  front [] = none
  front (p ∷ l) = some p

  unfoldable pub pop_front : TimerList T → TimerList T × Option (ℕ × TimerEntry T)
  pop_front [] = ([], none)
  pop_front (p ∷ l) = (l, some p)

  -- `remove`: the list that is left and the entry taken out.
  unfoldable pub remove : ℕ → TimerList T → TimerList T × Option (TimerEntry T)
  remove timestamp l = (Map.remove timestamp l, Map.get timestamp l)
