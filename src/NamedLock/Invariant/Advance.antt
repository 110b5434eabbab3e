-- ===== src/NamedLock/Invariant/Advance.antt =====
-- Every step of every thread, and so every reachable state, meets the invariant.
use oscdn.Base.{
  ℕ, zero, suc, ◌≡◌, refl, sym, subst, inl, inr, Bool, true, false, Option, none, some, List, arith,
  Option-cases, Bytes, str_eq_refl, lookup, lookup-insert,
}
use oscdn.NamedLock.Threads.{get_elem?, set, total, le-total}
use oscdn.NamedLock.{
  NamedLock, Mode, exclusive, shared, holder, increase, take_mutex, give_mutex, new,
}
use oscdn.NamedLock.System.{
  Pc, idle, attempt, waiting, trying, failed, holding, releasing, leaving, panicked, Choice, lock,
  try, acquire, go, cancel, busy, advance, System, Step, turn, idle_threads, init, Reach, start,
  later,
}
use oscdn.NamedLock.Invariant.{uses, writes, reads, IsLinked, Inv, one_at}
use oscdn.NamedLock.Invariant.Moves.{give-total}
use oscdn.NamedLock.Invariant.Steps.{
  same, increased, decreased, taken, given, take_holders, give_holders,
}

-- What a step leads to, if there is one.
abbrev After : List Pc → ℕ → Option (NamedLock × Pc) → Type 0
After threads i none = Unit
After threads i (some (n, p)) = Inv n (set threads i p)

increase_link :
    (n : NamedLock) (name : Bytes)
    → lookup name (increase n name).0.holders ≡ some (increase n name).1
unfolding increase
increase_link n name = ground (arith, lookup-insert name name n.next n.holders, str_eq_refl name)

module _ {n : NamedLock} {threads : List Pc} (inv : Inv n threads) (i : ℕ) where
  -- `Lock` and the Try methods, behind `increase`.
  take-After :
      (m : Mode) (name : Bytes) (h : ℕ) (p : Pc) (fallback : Option (NamedLock × Pc))
      → get_elem? threads i ≡ some p
      → lookup name n.holders ≡ some h
      → ((b : ℕ) → uses b p ≡ one_at h b)
      → ((b : ℕ) → writes b p ≡ 0)
      → ((b : ℕ) → reads b p ≡ 0)
      → After threads i fallback
      → After threads i
          (elim (take_mutex m n h) [ none ↦ fallback | some n' ↦ some (n', holding m name h) ])
  take-After m name h p fallback old link u w r blocked = elim (Option-cases (take_mutex m n h)) [
    | inl e ↦ rw e blocked
    | inr (n', e) ↦ rw e (got m n' e)
  ]
    where
      got :
          (m : Mode) (n' : NamedLock)
          → take_mutex m n h ≡ some n'
          → Inv n' (set threads i (holding m name h))
      got exclusive n' e =
          taken inv i old exclusive name h n' (holding exclusive name h) link e (λ b. sym (u b))
            (λ b. ground (arith, w b)) (λ b. ground (arith, r b))
            (subst (λ l. lookup name l ≡ some h) (sym (take_holders inv i old exclusive h n' e))
              link)
      got shared n' e =
          taken inv i old shared name h n' (holding shared name h) link e (λ b. sym (u b))
            (λ b. ground (arith, w b)) (λ b. ground (arith, r b))
            (subst (λ l. lookup name l ≡ some h) (sym (take_holders inv i old shared h n' e)) link)

  -- `Unlock` and `RUnlock`, behind `holder`: the mutex was taken, so it is given back.
  give-After :
      (m : Mode) (name : Bytes) (h : ℕ)
      → get_elem? threads i ≡ some (releasing m name h h)
      → lookup name n.holders ≡ some h
      → After threads i (elim (give_mutex m n h) [
        | none ↦ some (n, panicked)
        | some n' ↦ some (n', leaving name h)
      ])
  give-After exclusive name h old link =
      let (n', e) =
        give-total inv.ledger name h link exclusive
          (ground (arith, le-total (writes h) threads i old)) (omega arith) in
      rw e (
        given inv i old exclusive name h n' (leaving name h) link e (λ b. refl) (λ b. ground arith)
          (λ b. refl)
          (subst (λ l. lookup name l ≡ some h) (sym (give_holders inv i old exclusive h n' e))
            link))
  give-After shared name h old link =
      let (n', e) =
        give-total inv.ledger name h link shared (omega arith)
          (ground (arith, le-total (reads h) threads i old)) in
      rw e (
        given inv i old shared name h n' (leaving name h) link e (λ b. refl) (λ b. refl)
          (λ b. ground arith)
          (subst (λ l. lookup name l ≡ some h) (sym (give_holders inv i old shared h n' e)) link))

writes_releasing :
    (m : Mode) (name : Bytes) (h b : ℕ)
    → (writes b (releasing m name h h) ≡ writes b (holding m name h))
      × (reads b (releasing m name h h) ≡ reads b (holding m name h))
writes_releasing exclusive name h b = (refl, refl)
writes_releasing shared name h b = (refl, refl)

module _ {n : NamedLock} {threads : List Pc} (inv : Inv n threads) (i : ℕ) where
  holding-After :
      (m : Mode) (name : Bytes) (h : ℕ)
      → get_elem? threads i ≡ some (holding m name h)
      → lookup name n.holders ≡ some h
      → After threads i (elim (holder n name) [
        | none ↦ some (n, panicked)
        | some found ↦ some (n, releasing m name h found)
      ])
  unfolding holder
  holding-After m name h old link = rw link (
      same inv i old (releasing m name h h) (λ b. refl) (λ b. (writes_releasing m name h b).0)
        (λ b. (writes_releasing m name h b).1) (link, refl))

  releasing-After :
      (m : Mode) (name : Bytes) (h found : ℕ)
      → get_elem? threads i ≡ some (releasing m name h found)
      → lookup name n.holders ≡ some h
      → found ≡ h
      → After threads i (elim (give_mutex m n found) [
        | none ↦ some (n, panicked)
        | some n' ↦ some (n', leaving name found)
      ])
  releasing-After m name h found old link e =
      subst
        (λ f.
          get_elem? threads i ≡ some (releasing m name h f)
          → After threads i (elim (give_mutex m n f) [
            | none ↦ some (n, panicked)
            | some n' ↦ some (n', leaving name f)
          ]))
        (sym e) (λ old'. give-After inv i m name h old' link) old

  try-After :
      (m : Mode) (name : Bytes) (h : ℕ) (retry : Bool)
      → get_elem? threads i ≡ some (trying m name h retry)
      → After threads i (elim (take_mutex m n h) [
        | none ↦ some (n, failed m name h retry)
        | some n' ↦ some (n', holding m name h)
      ])
  try-After m name h retry old =
      take-After inv i m name h (trying m name h retry) (some (n, failed m name h retry)) old
        (inv.linked i (trying m name h retry) old) (λ b. refl) (λ b. refl) (λ b. refl)
        (same inv i old (failed m name h retry) (λ b. refl) (λ b. refl) (λ b. refl)
          (inv.linked i (trying m name h retry) old))

  wait-After :
      (m : Mode) (name : Bytes) (h : ℕ)
      → get_elem? threads i ≡ some (waiting m name h)
      → After threads i
          (elim (take_mutex m n h) [ none ↦ none | some n' ↦ some (n', holding m name h) ])
  wait-After m name h old =
      take-After inv i m name h (waiting m name h) none old (inv.linked i (waiting m name h) old)
        (λ b. refl) (λ b. refl) (λ b. refl) tt

  attempt-After :
      (m : Mode) (name : Bytes)
      → get_elem? threads i ≡ some (attempt m name)
      → Inv (increase n name).0 (set threads i (trying m name (increase n name).1 true))
  attempt-After m name old =
      increased inv i old name (trying m name (increase n name).1 true) (λ b. refl) (λ b. refl)
        (λ b. refl) (λ b. refl) (increase_link n name)

  advance-After :
      (p : Pc) (c : Choice) → get_elem? threads i ≡ some p → After threads i (advance n p c)
  unfolding advance
  advance-After idle (lock m name) old =
      increased inv i old name (waiting m name (increase n name).1) (λ b. refl) (λ b. refl)
        (λ b. refl) (λ b. refl) (increase_link n name)
  advance-After idle (try m name) old =
      increased inv i old name (trying m name (increase n name).1 false) (λ b. refl) (λ b. refl)
        (λ b. refl) (λ b. refl) (increase_link n name)
  advance-After idle (acquire m name) old =
      same inv i old (attempt m name) (λ b. refl) (λ b. refl) (λ b. refl) tt
  advance-After idle go old = tt
  advance-After idle cancel old = tt
  advance-After idle busy old = tt
  advance-After (attempt m name) cancel old =
      same inv i old idle (λ b. refl) (λ b. refl) (λ b. refl) tt
  advance-After (attempt m name) _ old = attempt-After m name old
  advance-After (waiting m name h) c old = wait-After m name h old
  advance-After (trying m name h retry) busy old =
      same inv i old (failed m name h retry) (λ b. refl) (λ b. refl) (λ b. refl)
        (inv.linked i (trying m name h retry) old)
  advance-After (trying m name h retry) _ old = try-After m name h retry old
  advance-After (failed m name h true) c old =
      decreased inv i old name h (inv.linked i (failed m name h true) old) (λ b. refl)
        (attempt m name) (λ b. refl) (λ b. refl) (λ b. refl) tt
  advance-After (failed m name h false) c old =
      decreased inv i old name h (inv.linked i (failed m name h false) old) (λ b. refl) idle
        (λ b. refl) (λ b. refl) (λ b. refl) tt
  advance-After (holding m name h) c old =
      holding-After m name h old (inv.linked i (holding m name h) old)
  advance-After (releasing m name h found) c old =
      let (link, e) = inv.linked i (releasing m name h found) old in
      releasing-After m name h found old link e
  advance-After (leaving name h) c old =
      decreased inv i old name h (inv.linked i (leaving name h) old) (λ b. refl) idle (λ b. refl)
        (λ b. refl) (λ b. refl) tt
  advance-After panicked c old = tt

pub Step-Inv : {s t : System} → Step s t → Inv s.table s.threads → Inv t.table t.threads
Step-Inv {s} (turn i c {p} old e) inv = subst (After s.threads i) e (advance-After inv i p c old)

total-idle_threads : (w : Pc → ℕ) (k : ℕ) → w idle ≡ 0 → total w (idle_threads k) ≡ 0
unfolding total
total-idle_threads w zero h = refl
total-idle_threads w (suc k) h = omega (arith, total-idle_threads w k h)

idle_threads-idle : (k i : ℕ) {p : Pc} → get_elem? (idle_threads k) i ≡ some p → p ≡ idle
idle_threads-idle zero i e = cc
idle_threads-idle (suc k) zero e = cc
idle_threads-idle (suc k) (suc i) e = idle_threads-idle k i e

Inv-init : (k : ℕ) → Inv (init k).table (init k).threads
unfolding lookup
Inv-init k = record {
  ledger = record {
    counted = λ b. sym (total-idle_threads (uses b) k refl);
    writer = λ b. sym (total-idle_threads (writes b) k refl);
    readers = λ b. sym (total-idle_threads (reads b) k refl);
    apart = λ b h. refl;
    named = λ name b h. cc;
    live = λ name b h. cc;
    fresh = λ b h. refl;
  };
  linked = λ i p e. subst (IsLinked new) (sym (idle_threads-idle k i e)) tt;
}

-- Every state that any number of threads reach, in any interleaving, meets the invariant.
pub Reach-Inv : {k : ℕ} {s : System} → Reach k s → Inv s.table s.threads
Reach-Inv {k} start = Inv-init k
Reach-Inv (later r st) = Step-Inv st (Reach-Inv r)
