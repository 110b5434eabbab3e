-- ===== src/NamedLock/Invariant/Steps.antt =====
-- Every step of every thread keeps the invariant.
use oscdn.Base.{
  refl, lookup-erase, str_eq_iff, lookup-insert, ℕ, ◌+◌, ◌≡◌, sym, subst, ◌≢◌, inl, inr, some, List,
  arith, Bytes, lookup,
}
use oscdn.NamedLock.Threads.{add-le-total, get_elem?, set, get_elem?-set, total, total-set}
use oscdn.NamedLock.{exclusive, shared, Mode, give_mutex, take_mutex, decrease, increase, NamedLock}
use oscdn.NamedLock.System.{
  Pc, idle, attempt, waiting, trying, failed, holding, releasing, leaving, panicked,
}
use oscdn.NamedLock.Invariant.Moves.{
  Ledger-of_eq, write_share, read_share, increase-Ledger, take-Ledger, give-Ledger, decrease-Ledger,
}
use oscdn.NamedLock.Invariant.{uses, writes, reads, IsLinked, Inv, one_at}

one_at_self : (h : ℕ) → one_at h h ≡ 1
one_at_self h = ground arith

-- A change of the map that keeps the entries of the holders that a thread uses keeps its link.
IsLinked-of_kept :
    (n n' : NamedLock) (p : Pc)
    → ((name : Bytes) (a : ℕ)
        → uses a p ≡ 1
        → lookup name n.holders ≡ some a
        → lookup name n'.holders ≡ some a)
    → IsLinked n p
    → IsLinked n' p
IsLinked-of_kept n n' idle keep l = tt
IsLinked-of_kept n n' (attempt _ _) keep l = tt
IsLinked-of_kept n n' (waiting _ name h) keep l = keep name h (one_at_self h) l
IsLinked-of_kept n n' (trying _ name h _) keep l = keep name h (one_at_self h) l
IsLinked-of_kept n n' (failed _ name h _) keep l = keep name h (one_at_self h) l
IsLinked-of_kept n n' (holding _ name h) keep l = keep name h (one_at_self h) l
IsLinked-of_kept n n' (releasing _ name h _) keep l = (keep name h (one_at_self h) l.0, l.1)
IsLinked-of_kept n n' (leaving name h) keep l = keep name h (one_at_self h) l
IsLinked-of_kept n n' panicked keep l = l

abbrev shares : (ℕ → Pc → ℕ) → List Pc → ℕ → ℕ
shares w threads b = total (w b) threads

module _ {n : NamedLock} {threads : List Pc} (inv : Inv n threads) (i : ℕ) {p : Pc}
    (old : get_elem? threads i ≡ some p) where
  open inv use {ledger, linked}

  -- The shares once thread `i` stands at `p'`.
  moved :
      (w : ℕ → Pc → ℕ) (p' : Pc) (b : ℕ)
      → shares w (set threads i p') b + w b p ≡ shares w threads b + w b p'
  moved w p' b = total-set (w b) threads i p' old

  IsLinked-after :
      (n' : NamedLock) (p' : Pc)
      → IsLinked n' p'
      → ((j : ℕ) (q : Pc) → i ≢ j → get_elem? threads j ≡ some q → IsLinked n' q)
      → (j : ℕ) (q : Pc) → get_elem? (set threads i p') j ≡ some q
      → IsLinked n' q
  IsLinked-after n' p' mine others j q at = elim (get_elem?-set threads i j p' at) [
    | inl (e, f) ↦ subst (IsLinked n') (sym f) mine
    | inr (ne, f) ↦ others j q ne f
  ]

  -- A step that leaves the table alone.
  pub same :
      (p' : Pc)
      → ((b : ℕ) → uses b p' ≡ uses b p)
      → ((b : ℕ) → writes b p' ≡ writes b p)
      → ((b : ℕ) → reads b p' ≡ reads b p)
      → IsLinked n p'
      → Inv n (set threads i p')
  same p' u w r mine = record {
    ledger =
        Ledger-of_eq ledger (shares uses (set threads i p')) (shares writes (set threads i p'))
          (shares reads (set threads i p')) (λ b. ground (arith, moved uses p' b, u b))
          (λ b. ground (arith, moved writes p' b, w b))
          (λ b. ground (arith, moved reads p' b, r b));
    linked = IsLinked-after n p' mine (λ j q _ f. linked j q f);
  }

  increase_kept :
      (name name' : Bytes) (a : ℕ)
      → lookup name' n.holders ≡ some a
      → lookup name' (increase n name).0.holders ≡ some a
  unfolding increase
  increase_kept name name' a f =
      ground (arith, lookup-insert name name' n.next n.holders, str_eq_iff name name')

  -- A thread that used no holder takes up the one of `name`.
  pub increased :
      (name : Bytes) (p' : Pc)
      → ((b : ℕ) → uses b p ≡ 0)
      → ((b : ℕ) → uses b p' ≡ one_at (increase n name).1 b)
      → ((b : ℕ) → writes b p' ≡ writes b p)
      → ((b : ℕ) → reads b p' ≡ reads b p)
      → IsLinked (increase n name).0 p'
      → Inv (increase n name).0 (set threads i p')
  increased name p' none_used u w r mine = record {
    ledger =
        increase-Ledger
          (Ledger-of_eq ledger (shares uses threads) (shares writes (set threads i p'))
            (shares reads (set threads i p')) (λ b. refl)
            (λ b. ground (arith, moved writes p' b, w b))
            (λ b. ground (arith, moved reads p' b, r b)))
          name (shares uses (set threads i p'))
          (λ b. ground (arith, moved uses p' b, none_used b, u b));
    linked = IsLinked-after (increase n name).0 p' mine (λ j q _ f.
        IsLinked-of_kept n (increase n name).0 q (λ name' a _ g. increase_kept name name' a g)
          (linked j q f));
  }

  -- A thread that used holder `h`, and had not taken it, leaves it.
  module _ (name : Bytes) (h : ℕ) (link : lookup name n.holders ≡ some h)
      (used : (b : ℕ) → uses b p ≡ one_at h b) where
    decrease_kept :
        (j : ℕ) (q : Pc)
        → i ≢ j
        → get_elem? threads j ≡ some q
        → (name' : Bytes) (a : ℕ) → uses a q ≡ 1
        → lookup name' n.holders ≡ some a
        → lookup name' (decrease n h).holders ≡ some a
    unfolding decrease
    decrease_kept j q ne at name' a u f = ground (
      arith,
      ledger.counted h,
      ledger.named name h,
      add-le-total (uses h) threads i j ne old at,
      used h,
      lookup-erase (n.heap h).name name' n.holders,
      str_eq_iff name name',
    )

    pub decreased :
        (p' : Pc)
        → ((b : ℕ) → uses b p' ≡ 0)
        → ((b : ℕ) → writes b p' ≡ writes b p)
        → ((b : ℕ) → reads b p' ≡ reads b p)
        → IsLinked (decrease n h) p'
        → Inv (decrease n h) (set threads i p')
    decreased p' u w r mine = record {
      ledger =
          decrease-Ledger
            (Ledger-of_eq ledger (shares uses threads) (shares writes (set threads i p'))
              (shares reads (set threads i p')) (λ b. refl)
              (λ b. ground (arith, moved writes p' b, w b))
              (λ b. ground (arith, moved reads p' b, r b)))
            name h link (shares uses (set threads i p'))
            (λ b. ground (arith, moved uses p' b, used b, u b));
      linked =
          IsLinked-after (decrease n h) p' mine (λ j q ne f.
            IsLinked-of_kept n (decrease n h) q (decrease_kept j q ne f) (linked j q f));
    }

  pub take_holders :
      (m : Mode) (h : ℕ) (n' : NamedLock) → take_mutex m n h ≡ some n' → n'.holders ≡ n.holders
  unfolding take_mutex
  take_holders exclusive h n' e = ground arith
  take_holders shared h n' e = ground arith

  pub give_holders :
      (m : Mode) (h : ℕ) (n' : NamedLock) → give_mutex m n h ≡ some n' → n'.holders ≡ n.holders
  unfolding give_mutex
  give_holders exclusive h n' e = ground arith
  give_holders shared h n' e = ground arith

  -- A step that changes the mutex of `h` and not the map.
  same_map :
      (n' : NamedLock) (p' : Pc)
      → n'.holders ≡ n.holders
      → IsLinked n' p'
      → (j : ℕ) (q : Pc) → get_elem? (set threads i p') j ≡ some q
      → IsLinked n' q
  same_map n' p' e mine =
      IsLinked-after n' p' mine
        (λ j q _ f. IsLinked-of_kept n n' q (λ name' a _ g. rw e g) (linked j q f))

  pub taken :
      (m : Mode) (name : Bytes) (h : ℕ) (n' : NamedLock) (p' : Pc)
      → lookup name n.holders ≡ some h
      → take_mutex m n h ≡ some n'
      → ((b : ℕ) → uses b p' ≡ uses b p)
      → ((b : ℕ) → writes b p' ≡ writes b p + write_share m h b)
      → ((b : ℕ) → reads b p' ≡ reads b p + read_share m h b)
      → IsLinked n' p'
      → Inv n' (set threads i p')
  taken m name h n' p' link e u w r mine = record {
    ledger =
        take-Ledger
          (Ledger-of_eq ledger (shares uses (set threads i p')) (shares writes threads)
            (shares reads threads) (λ b. ground (arith, moved uses p' b, u b)) (λ b. refl)
            (λ b. refl))
          name h link m n' (shares writes (set threads i p')) (shares reads (set threads i p')) e
          (λ b. ground (arith, moved writes p' b, w b))
          (λ b. ground (arith, moved reads p' b, r b));
    linked = same_map n' p' (take_holders m h n' e) mine;
  }

  pub given :
      (m : Mode) (name : Bytes) (h : ℕ) (n' : NamedLock) (p' : Pc)
      → lookup name n.holders ≡ some h
      → give_mutex m n h ≡ some n'
      → ((b : ℕ) → uses b p' ≡ uses b p)
      → ((b : ℕ) → writes b p ≡ writes b p' + write_share m h b)
      → ((b : ℕ) → reads b p ≡ reads b p' + read_share m h b)
      → IsLinked n' p'
      → Inv n' (set threads i p')
  given m name h n' p' link e u w r mine = record {
    ledger =
        give-Ledger
          (Ledger-of_eq ledger (shares uses (set threads i p')) (shares writes threads)
            (shares reads threads) (λ b. ground (arith, moved uses p' b, u b)) (λ b. refl)
            (λ b. refl))
          name h link m n' (shares writes (set threads i p')) (shares reads (set threads i p')) e
          (λ b. ground (arith, moved writes p' b, w b))
          (λ b. ground (arith, moved reads p' b, r b));
    linked = same_map n' p' (give_holders m h n' e) mine;
  }
