-- ===== src/Tests/Locks.antt =====
-- namedlock: two threads that call for one name.
use oscdn.Base.{false, ℕ, ◌<◌, ◌≡◌, refl, ◌≢◌, none, some, Bytes, codes, lookup, insert, zero, suc}
use oscdn.NamedLock.Threads.{get_elem?, set}
use oscdn.NamedLock.{exclusive, shared, holder, increase, take_mutex}
use oscdn.NamedLock.System.{
  Pc, holding, panicked, Choice, lock, go, advance, System, turn, init, Reach, start, later,
}
use oscdn.NamedLock.Invariant.{uses}
use oscdn.NamedLock.Safety.{mutual_exclusion, never_panicked, holder-in_use, IsFree, mutex_free}

abbrev name : Bytes
name = codes "x"

-- The state behind a step of a thread; a thread that cannot move stays.
abbrev moved : System → ℕ → Choice → System
moved s i c = elim (get_elem? s.threads i) [
  | none ↦ s
  | some p ↦ elim (advance s.table p c) [
    | none ↦ s
    | some (n, p') ↦ record { table = n; threads = set s.threads i p' }
  ]
]

-- Thread 0 has called `Lock`, and then has got the mutex.
abbrev called : System
called = moved (init 2) 0 (lock exclusive name)

abbrev locked : System
locked = moved called 0 go

called-Reach : Reach 2 called
unfolding advance increase lookup insert
called-Reach = later start (turn 0 (lock exclusive name) refl refl)

locked-Reach : Reach 2 locked
unfolding advance increase lookup insert take_mutex
locked-Reach = later called-Reach (turn 0 go refl refl)

mutual_exclusion_example : get_elem? locked.threads 1 ≢ some (holding shared name 0)
unfolding advance increase lookup insert take_mutex
mutual_exclusion_example = mutual_exclusion locked-Reach 0 1 shared name 0 0 (λ e. cc) refl

never_panicked_example : get_elem? locked.threads 0 ≢ some panicked
never_panicked_example = never_panicked locked-Reach 0

holder-in_use_example : (i : ℕ) × (p : Pc) × (get_elem? locked.threads i ≡ some p) × (0 < uses 0 p)
unfolding advance increase lookup insert take_mutex holder
holder-in_use_example = holder-in_use locked-Reach name 0 refl

called-IsFree : IsFree name called.threads
unfolding advance increase lookup insert
called-IsFree zero m h found = ((λ e. cc), (λ e. cc))
called-IsFree (suc zero) m h found = ((λ e. cc), (λ e. cc))
called-IsFree (suc (suc j)) m h found = ((λ e. cc), (λ e. cc))

mutex_free_example : ((called.table.heap 0).writer ≡ false) × ((called.table.heap 0).readers ≡ 0)
unfolding advance increase lookup insert holder
mutex_free_example = mutex_free called-Reach name 0 refl called-IsFree
