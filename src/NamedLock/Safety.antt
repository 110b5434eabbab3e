-- ===== src/NamedLock/Safety.antt =====
-- What the locks promise in every reachable state of any number of threads.
use oscdn.Base.{
  ap, ◌∙◌, ℕ, ◌+◌, ◌<◌, ◌≡◌, sym, subst, ◌≢◌, false, some, List, arith, dec_lt, Bytes, lookup,
}
use oscdn.NamedLock.Threads.{get_elem?, total, le-total, add-le-total, total-pos}
use oscdn.NamedLock.{Mode, exclusive, shared, holder}
use oscdn.NamedLock.System.{Pc, idle, holding, releasing, panicked, System, Reach}
use oscdn.NamedLock.Invariant.{uses, writes, reads}
use oscdn.NamedLock.Invariant.Advance.{Reach-Inv}

module _ {k : ℕ} {s : System} (r : Reach k s) where
  open (Reach-Inv r) use {ledger, linked}

  same_holder :
      (i j : ℕ) (m m' : Mode) (name : Bytes) (h h' : ℕ)
      → get_elem? s.threads i ≡ some (holding m name h)
      → get_elem? s.threads j ≡ some (holding m' name h')
      → h ≡ h'
  same_holder i j m m' name h h' at at' =
      ground (arith, linked i (holding m name h) at, linked j (holding m' name h') at')

  not_both_at :
      (i j : ℕ) (m : Mode) (name : Bytes) (h : ℕ)
      → i ≢ j
      → get_elem? s.threads i ≡ some (holding exclusive name h)
      → get_elem? s.threads j ≡ some (holding m name h)
      → ⊥
  not_both_at i j exclusive name h ne at at' =
      ground (arith, add-le-total (writes h) s.threads i j ne at at', ledger.writer h)
  not_both_at i j shared name h ne at at' = ground (
    arith,
    le-total (writes h) s.threads i at,
    le-total (reads h) s.threads j at',
    ledger.writer h,
    ledger.readers h,
    ledger.apart h,
  )

  -- In every state that any number of threads reach, in any interleaving, while a thread holds the
  -- write lock of a name, no other thread holds that name, to write or to read.
  pub mutual_exclusion :
      (i j : ℕ) (m : Mode) (name : Bytes) (h h' : ℕ)
      → i ≢ j
      → get_elem? s.threads i ≡ some (holding exclusive name h)
      → get_elem? s.threads j ≢ some (holding m name h')
  mutual_exclusion i j m name h h' ne at at' = not_both_at i j m name h ne at (
      subst (λ a. get_elem? s.threads j ≡ some (holding m name a))
        (sym (same_holder i j exclusive m name h h' at at')) at')

  -- In no reachable state has a thread panicked: no call of `Unlock` or `RUnlock` by a thread that
  -- holds the lock panics, though the holder is looked up by name again.
  pub never_panicked : (i : ℕ) → get_elem? s.threads i ≢ some panicked
  never_panicked i at = linked i panicked at

  -- In every reachable state a name is in the map only while some thread is between its `increase`
  -- and its `decrease` on that very holder: nothing is left behind.
  pub holder-in_use :
      (name : Bytes) (h : ℕ)
      → holder s.table name ≡ some h
      → (i : ℕ) × (p : Pc) × (get_elem? s.threads i ≡ some p) × (0 < uses h p)
  unfolding holder
  holder-in_use name h e =
      total-pos (uses h) s.threads (omega (arith, ledger.live name h e, ledger.counted h))

-- No thread holds the name, or is about to give it back.
abbrev pub IsFree : Bytes → List Pc → Type 0
IsFree name threads =
    (j : ℕ) (m : Mode) (h found : ℕ)
    → (get_elem? threads j ≢ some (holding m name h))
      × (get_elem? threads j ≢ some (releasing m name h found))

module _ {k : ℕ} {s : System} (r : Reach k s) where
  open (Reach-Inv r) use {ledger, linked}

  named_at :
      (name name' : Bytes) (h : ℕ)
      → holder s.table name ≡ some h
      → lookup name' s.table.holders ≡ some h
      → name ≡ name'
  unfolding holder
  named_at name name' h e e' = cc (ledger.named name h e, ledger.named name' h e')

  share_at :
      (m : Mode) (name : Bytes) (h h' found : ℕ)
      → 0
        < writes h (holding m name h')
          + reads h (holding m name h')
          + writes h (releasing m name h' found)
          + reads h (releasing m name h' found)
      → h' ≡ h
  share_at exclusive name h h' found lt = ground arith
  share_at shared name h h' found lt = ground arith

  link_name :
      (name name' : Bytes) (h h' : ℕ)
      → holder s.table name ≡ some h
      → lookup name' s.table.holders ≡ some h'
      → h' ≡ h
      → name' ≡ name
  link_name name name' h h' e link eq = sym (named_at name name' h e (link ∙ ap some eq))

  -- A thread that counts as a writer or a reader of the holder holds the name.
  not_free :
      (name : Bytes) (h j : ℕ) (p : Pc)
      → holder s.table name ≡ some h
      → IsFree name s.threads
      → get_elem? s.threads j ≡ some p
      → 0 < writes h p + reads h p
      → ⊥
  not_free name h j (holding m name' h') e free at lt =
      let here =
        link_name name name' h h' e (linked j (holding m name' h') at)
          (share_at m name' h h' 0 (omega arith)) in
      (free j m h' 0).0 (subst (λ a. get_elem? s.threads j ≡ some (holding m a h')) here at)
  not_free name h j (releasing m name' h' found) e free at lt =
      let here =
        link_name name name' h h' e (linked j (releasing m name' h' found) at).0
          (share_at m name' h h' found (omega arith)) in
      (free j m h' found).1
        (subst (λ a. get_elem? s.threads j ≡ some (releasing m a h' found)) here at)
  not_free name h j idle e free at lt = omega arith
  not_free name h j _ e free at lt = omega arith

  -- In every reachable state, while no thread holds a name that is in the map or is giving it back,
  -- the mutex of its holder is locked neither to write nor to read: a lock is never left behind.
  pub mutex_free :
      (name : Bytes) (h : ℕ)
      → holder s.table name ≡ some h
      → IsFree name s.threads
      → ((s.table.heap h).writer ≡ false) × ((s.table.heap h).readers ≡ 0)
  mutex_free name h e free =
      (ground (arith, no_writer, ledger.writer h), omega (arith, no_reader, ledger.readers h))
    where
      no_writer : total (writes h) s.threads ≡ 0
      no_writer = elim (dec_lt 0 (total (writes h) s.threads)) [
        | no none_holds ↦ omega arith
        | yes some_holds ↦
            let (j, p, at, lt) = total-pos (writes h) s.threads some_holds in
            absurd (not_free name h j p e free at (omega arith))
      ]

      no_reader : total (reads h) s.threads ≡ 0
      no_reader = elim (dec_lt 0 (total (reads h) s.threads)) [
        | no none_holds ↦ omega arith
        | yes some_holds ↦
            let (j, p, at, lt) = total-pos (reads h) s.threads some_holds in
            absurd (not_free name h j p e free at (omega arith))
      ]
