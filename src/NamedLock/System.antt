-- ===== src/NamedLock/System.antt =====
-- Threads that call the methods of lockers of one `NamedLock`, interleaved between any two accesses
-- to shared memory: `Lock`, `TryLock`, `Unlock`, their read versions, and the two Acquire loops.
use oscdn.Base.{ℕ, zero, suc, ◌≡◌, Bool, true, false, Option, none, some, List, [], ◌∷◌, Bytes}
use oscdn.NamedLock.Threads.{get_elem?, set}
use oscdn.NamedLock.{NamedLock, Mode, new, holder, increase, decrease, take_mutex, give_mutex}

-- Where a thread stands. A holding thread does not keep the holder that it locked: `h` in `holding`
-- and the first in `releasing` only record it for the proofs.
pub data Pc : Type 0 where
  idle : Pc
  attempt : Mode → Bytes → Pc  -- head of the loop of `AcquireLock`
  waiting : Mode → Bytes → (h : ℕ) → Pc  -- `Lock`, behind `increase`
  trying : Mode → Bytes → (h : ℕ) → (retry : Bool) → Pc  -- `TryLock`, behind `increase`
  failed : Mode → Bytes → (h : ℕ) → (retry : Bool) → Pc  -- before `decrease` in `TryLock`
  holding : Mode → Bytes → (h : ℕ) → Pc
  releasing : Mode → Bytes → (h found : ℕ) → Pc  -- `Unlock`, behind `holder`
  leaving : Bytes → (h : ℕ) → Pc  -- before `decrease` in `Unlock`
  panicked : Pc

-- What a thread does next where it has a choice; `cancel` is a context that is done, `busy` a Try
-- that fails because another thread is about to take the mutex.
pub data Choice : Type 0 where
  lock try acquire : Mode → Bytes → Choice
  go cancel busy : Choice

abbrev next_try : Bool → NamedLock × ℕ → Mode → Bytes → NamedLock × Pc
next_try retry (n, h) m name = (n, trying m name h retry)

abbrev next_wait : NamedLock × ℕ → Mode → Bytes → NamedLock × Pc
next_wait (n, h) m name = (n, waiting m name h)

-- One step of one thread; `none` where it cannot move.
unfoldable pub advance : NamedLock → Pc → Choice → Option (NamedLock × Pc)
advance n idle (lock m name) = some (next_wait (increase n name) m name)
advance n idle (try m name) = some (next_try false (increase n name) m name)
advance n idle (acquire m name) = some (n, attempt m name)
advance n idle _ = none
advance n (attempt m name) cancel = some (n, idle)
advance n (attempt m name) _ = some (next_try true (increase n name) m name)
advance n (waiting m name h) _ = elim (take_mutex m n h) [
  | none ↦ none
  | some n' ↦ some (n', holding m name h)
]
advance n (trying m name h retry) busy = some (n, failed m name h retry)
advance n (trying m name h retry) _ = elim (take_mutex m n h) [
  | none ↦ some (n, failed m name h retry)
  | some n' ↦ some (n', holding m name h)
]
advance n (failed m name h true) _ = some (decrease n h, attempt m name)
advance n (failed m name h false) _ = some (decrease n h, idle)
advance n (holding m name h) _ = elim (holder n name) [
  | none ↦ some (n, panicked)
  | some found ↦ some (n, releasing m name h found)
]
advance n (releasing m name h found) _ = elim (give_mutex m n found) [
  | none ↦ some (n, panicked)
  | some n' ↦ some (n', leaving name found)
]
advance n (leaving name h) _ = some (decrease n h, idle)
advance n panicked _ = none

pub record System : Type 0 where
  pub table : NamedLock
  pub threads : List Pc

-- Thread `i` takes a step.
pub data Step (s : System) : System → Type 0 where
  turn :
      (i : ℕ) (c : Choice) {p p' : Pc} {n : NamedLock}
      → get_elem? s.threads i ≡ some p
      → advance s.table p c ≡ some (n, p')
      → Step s (record { table = n; threads = set s.threads i p' })

abbrev pub idle_threads : ℕ → List Pc
idle_threads zero = []
idle_threads (suc k) = idle ∷ idle_threads k

abbrev pub init : ℕ → System
init k = record { table = new; threads = idle_threads k }

pub data Reach (k : ℕ) : System → Type 0 where
  start : Reach k (init k)
  later : {s t : System} → Reach k s → Step s t → Reach k t
