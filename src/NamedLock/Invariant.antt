-- ===== src/NamedLock/Invariant.antt =====
-- What holds of the table and the threads in every reachable state: a holder's count, its writer and
-- its readers are the threads that use it, and a thread's holder is the one in the map.
pub mod Moves
pub mod Steps
pub mod Advance
use oscdn.Base.{
  ℕ, ◌≤◌, ◌<◌, ◌≡◌, Bool, true, false, some, List, [], ◌==◌, if◌then◌else◌, Bytes, lookup,
}
use oscdn.NamedLock.Threads.{get_elem?, total}
use oscdn.NamedLock.{NamedLock, blank, exclusive, shared}
use oscdn.NamedLock.System.{Pc, waiting, trying, failed, holding, releasing, leaving, panicked}

abbrev pub one_at : ℕ → ℕ → ℕ
one_at h b = if h == b then 1 else 0

-- The thread's share in the count of holder `b`, in its writer and in its readers.
abbrev pub uses : ℕ → Pc → ℕ
uses b (waiting _ _ h) = one_at h b
uses b (trying _ _ h _) = one_at h b
uses b (failed _ _ h _) = one_at h b
uses b (holding _ _ h) = one_at h b
uses b (releasing _ _ h _) = one_at h b
uses b (leaving _ h) = one_at h b
uses b _ = 0

abbrev pub writes : ℕ → Pc → ℕ
writes b (holding exclusive _ h) = one_at h b
writes b (releasing exclusive _ h _) = one_at h b
writes b _ = 0

abbrev pub reads : ℕ → Pc → ℕ
reads b (holding shared _ h) = one_at h b
reads b (releasing shared _ h _) = one_at h b
reads b _ = 0

-- The holder that a thread works on is the one in the map.
abbrev pub IsLinked : NamedLock → Pc → Type 0
IsLinked n (waiting _ name h) = lookup name n.holders ≡ some h
IsLinked n (trying _ name h _) = lookup name n.holders ≡ some h
IsLinked n (failed _ name h _) = lookup name n.holders ≡ some h
IsLinked n (holding _ name h) = lookup name n.holders ≡ some h
IsLinked n (releasing _ name h found) = (lookup name n.holders ≡ some h) × (found ≡ h)
IsLinked n (leaving name h) = lookup name n.holders ≡ some h
IsLinked n panicked = ⊥
IsLinked n _ = Unit

abbrev pub flag : Bool → ℕ
flag true = 1
flag false = 0

-- What the table says, where `used`, `written` and `read` are the threads' shares in each holder.
pub record Ledger (n : NamedLock) (used written read : ℕ → ℕ) : Type 0 where
  pub counted : (b : ℕ) → (n.heap b).count ≡ used b
  pub writer : (b : ℕ) → flag (n.heap b).writer ≡ written b
  pub readers : (b : ℕ) → (n.heap b).readers ≡ read b
  pub apart : (b : ℕ) → (n.heap b).writer ≡ true → (n.heap b).readers ≡ 0
  pub named : (name : Bytes) (b : ℕ) → lookup name n.holders ≡ some b → (n.heap b).name ≡ name
  pub live : (name : Bytes) (b : ℕ) → lookup name n.holders ≡ some b → 0 < (n.heap b).count
  pub fresh : (b : ℕ) → n.next ≤ b → n.heap b ≡ blank

pub record Inv (n : NamedLock) (threads : List Pc) : Type 0 where
  pub ledger :
      Ledger n
        (λ b. total (uses b) threads)
        (λ b. total (writes b) threads)
        (λ b. total (reads b) threads)
  pub linked : (i : ℕ) (p : Pc) → get_elem? threads i ≡ some p → IsLinked n p
