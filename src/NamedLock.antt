-- ===== src/NamedLock.antt =====
-- namedlock/namedlock.go: read-write locks by name, whose holders are counted and removed from the
-- map when nobody uses them. Holders live on a heap, so that two threads share one by its address.
-- An address stands for a `*holder`; `owner` is the one table.
pub mod Threads
pub mod System
pub mod Invariant
pub mod Safety
use oscdn.Base.{
  ℕ, ◌+◌, ◌-◌, Bool, true, false, ◌||◌, Option, none, some, List, [], ltb, leb, ◌==◌, if◌then◌else◌,
  Bytes, lookup, insert, erase,
}

-- `holder`. `mutex` is the `sync.RWMutex`: whether a writer has it, and how many readers do. The
-- count is an `int`; it never falls below zero, as the invariant shows.
pub record Holder : Type 0 where
  pub name : Bytes
  pub count : ℕ
  pub writer : Bool
  pub readers : ℕ

-- `NamedLock`, with the heap of holders and the next free address.
pub record NamedLock : Type 0 where
  pub holders : List (Bytes × ℕ)
  pub heap : ℕ → Holder
  pub next : ℕ

abbrev pub blank : Holder
blank = record { name = []; count = 0; writer = false; readers = 0 }

-- `New`
abbrev pub new : NamedLock
new = record { holders = []; heap = λ _. blank; next = 0 }

abbrev pub update : (ℕ → Holder) → ℕ → Holder → ℕ → Holder
update f a h b = if a == b then h else f b

-- `holder`, the look-up under the lock of the map.
unfoldable pub holder : NamedLock → Bytes → Option ℕ
holder n name = lookup name n.holders

-- `increase`: the holder of the name, made if there is none, with its count raised.
unfoldable pub increase : NamedLock → Bytes → NamedLock × ℕ
increase n name = elim (lookup name n.holders) [
  | some h ↦
      (record n { heap = update n.heap h (record (n.heap h) { count = (n.heap h).count + 1 }) }, h)
  | none ↦ (
    record {
      holders = insert name n.next n.holders;
      heap = update n.heap n.next (record blank { name = name; count = 1 });
      next = n.next + 1;
    },
    n.next,
  )
]

-- `decrease`: at the last use the holder leaves the map.
unfoldable pub decrease : NamedLock → ℕ → NamedLock
decrease n h =
    let count = (n.heap h).count - 1 in
    record n {
      heap = update n.heap h (record (n.heap h) { count = count });
      holders = if leb count 0 then erase (n.heap h).name n.holders else n.holders;
    }

-- `Lock` and `RLock` of Go's mutex, or their Try versions: `none` where the call would wait. Go also
-- keeps a reader waiting behind a writer that waits; here the reader may get in or not, so a run of
-- threads has all the steps that Go's mutex allows, and more. What is said of all of them is said of
-- Go's, and nothing is said of who gets the lock first.
pub data Mode : Type 0 where
  exclusive shared : Mode

unfoldable pub take_mutex : Mode → NamedLock → ℕ → Option NamedLock
take_mutex exclusive n h =
    if (n.heap h).writer || ltb 0 (n.heap h).readers
    then none
    else some (record n { heap = update n.heap h (record (n.heap h) { writer = true }) })
take_mutex shared n h =
    if (n.heap h).writer
    then none
    else some (record n {
      heap = update n.heap h (record (n.heap h) { readers = (n.heap h).readers + 1 });
    })

-- `Unlock` and `RUnlock` of Go's mutex: `none` is the fatal error on a mutex that is not locked.
unfoldable pub give_mutex : Mode → NamedLock → ℕ → Option NamedLock
give_mutex exclusive n h =
    if (n.heap h).writer
    then some (record n { heap = update n.heap h (record (n.heap h) { writer = false }) })
    else none
give_mutex shared n h =
    if ltb 0 (n.heap h).readers
    then some (record n {
      heap = update n.heap h (record (n.heap h) { readers = (n.heap h).readers - 1 });
    })
    else none
