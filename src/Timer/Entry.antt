-- ===== src/Timer/Entry.antt =====
-- `TimerEntry` of open-coroutine-timer/src/lib.rs: the values that share one timestamp, in a
-- `VecDeque`, which is the list of its elements from front to back.
use open_coroutine.Base.{
  ℕ, List, [], ◌∷◌, ◌++◌, Option, none, some, Bool, true, false, length, get_elem?, remove_nth,
}

pub record TimerEntry {ℓ} (T : Type ℓ) : Type ℓ where
  pub timestamp : ℕ
  pub inner : List T

-- The `Result<usize, usize>` of `binary_search_by`: the index of a match, or the place to insert at.
pub data SearchResult : Type 0 where
  found : ℕ → SearchResult
  not_found : ℕ → SearchResult

-- `.unwrap_or_else(|x| x)` at that result.
abbrev pub index_of : SearchResult → ℕ
index_of (found i) = i
index_of (not_found i) = i

module _ {ℓ} {T : Type ℓ} where
  unfoldable pub new : ℕ → TimerEntry T
  new timestamp = record { timestamp = timestamp; inner = [] }

  unfoldable pub len : TimerEntry T → ℕ
  len e = length e.inner

  unfoldable pub is_empty : TimerEntry T → Bool
  is_empty e = elim e.inner [ [] ↦ true | _ ∷ _ ↦ false ]

  unfoldable pub pop_front : TimerEntry T → TimerEntry T × Option T
  pop_front e = elim e.inner [
    | [] ↦ (e, none)
    | x ∷ xs ↦ (record { timestamp = e.timestamp; inner = xs }, some x)
  ]

  unfoldable pub push_back : T → TimerEntry T → TimerEntry T
  push_back t e = record { timestamp = e.timestamp; inner = e.inner ++ t ∷ [] }

  -- `remove`, with the search of the standard library as the first argument.
  unfoldable pub remove : (List T → T → SearchResult) → T → TimerEntry T → TimerEntry T × Option T
  remove search t e =
      let index = index_of (search e.inner t) in
      (
        record { timestamp = e.timestamp; inner = remove_nth e.inner index },
        get_elem? e.inner index,
      )
