-- ===== src/NamedLock/Invariant/Moves.antt =====
-- A step of one thread keeps the ledger.
use oscdn.Base.{
  lookup-erase, ◌≤◌, ℕ, ◌+◌, ◌-◌, ◌≡◌, false, some, arith, Bytes, str_eq_iff, lookup, lookup-insert,
}
use oscdn.NamedLock.{
  decrease, take_mutex, give_mutex, Mode, exclusive, shared, NamedLock, update, increase,
}
use oscdn.NamedLock.Invariant.{Ledger, one_at}

-- A thread's share as the writer and as a reader of the holder `h` that it has taken.
abbrev pub write_share : Mode → ℕ → ℕ → ℕ
write_share exclusive h b = one_at h b
write_share shared h b = 0

abbrev pub read_share : Mode → ℕ → ℕ → ℕ
read_share exclusive h b = 0
read_share shared h b = one_at h b

-- Shares that differ at one holder.
module _ {n : NamedLock} {used written read : ℕ → ℕ} (l : Ledger n used written read) where
  -- Shares that are equal at every holder.
  pub Ledger-of_eq :
      (used' written' read' : ℕ → ℕ)
      → ((b : ℕ) → used' b ≡ used b)
      → ((b : ℕ) → written' b ≡ written b)
      → ((b : ℕ) → read' b ≡ read b)
      → Ledger n used' written' read'
  Ledger-of_eq used' written' read' u w r = record {
    counted = λ b. rw u (l.counted b);
    writer = λ b. rw w (l.writer b);
    readers = λ b. rw r (l.readers b);
    apart = l.apart;
    named = l.named;
    live = l.live;
    fresh = l.fresh;
  }

  pub increase-Ledger :
      (name : Bytes) (used' : ℕ → ℕ)
      → ((b : ℕ) → used' b ≡ used b + one_at (increase n name).1 b)
      → Ledger (increase n name).0 used' written read
  unfolding increase
  increase-Ledger name used' u = record {
    counted = λ b. ground (arith, u b, l.counted b, l.fresh n.next);
    writer = λ b. ground (arith, l.writer b, l.fresh n.next);
    readers = λ b. ground (arith, l.readers b, l.fresh n.next);
    apart = λ b h. ground (arith, l.apart b);
    named = λ name' b h. ground (
      arith,
      l.named name' b,
      l.named name b,
      lookup-insert name name' n.next n.holders,
      str_eq_iff name name',
      l.live name' b,
      l.fresh b,
    );
    live = λ name' b h.
        ground (arith, l.live name' b, lookup-insert name name' n.next n.holders, l.fresh n.next);
    fresh = λ b h. ground (arith, l.fresh b, l.live name b);
  }

  module _ (name : Bytes) (h : ℕ) (linked : lookup name n.holders ≡ some h) where
    pub take-Ledger :
        (m : Mode) (n' : NamedLock) (written' read' : ℕ → ℕ)
        → take_mutex m n h ≡ some n'
        → ((b : ℕ) → written' b ≡ written b + write_share m h b)
        → ((b : ℕ) → read' b ≡ read b + read_share m h b)
        → Ledger n' used written' read'
    unfolding take_mutex
    take-Ledger exclusive n' written' read' e w r = record {
      counted = λ b. ground (arith, l.counted b);
      writer = λ b. ground (arith, l.writer b, w b);
      readers = λ b. ground (arith, l.readers b, r b);
      apart = λ b f. ground (arith, l.apart b);
      named = λ name' b f. ground (arith, l.named name' b);
      live = λ name' b f. ground (arith, l.live name' b);
      fresh = λ b f. ground (arith, l.fresh b, l.live name h);
    }
    take-Ledger shared n' written' read' e w r = record {
      counted = λ b. ground (arith, l.counted b);
      writer = λ b. ground (arith, l.writer b, w b);
      readers = λ b. ground (arith, l.readers b, r b);
      apart = λ b f. ground (arith, l.apart b);
      named = λ name' b f. ground (arith, l.named name' b);
      live = λ name' b f. ground (arith, l.live name' b);
      fresh = λ b f. ground (arith, l.fresh b, l.live name h);
    }

    pub give-Ledger :
        (m : Mode) (n' : NamedLock) (written' read' : ℕ → ℕ)
        → give_mutex m n h ≡ some n'
        → ((b : ℕ) → written b ≡ written' b + write_share m h b)
        → ((b : ℕ) → read b ≡ read' b + read_share m h b)
        → Ledger n' used written' read'
    unfolding give_mutex
    give-Ledger exclusive n' written' read' e w r = record {
      counted = λ b. ground (arith, l.counted b);
      writer = λ b. ground (arith, l.writer b, w b);
      readers = λ b. ground (arith, l.readers b, r b);
      apart = λ b f. ground (arith, l.apart b);
      named = λ name' b f. ground (arith, l.named name' b);
      live = λ name' b f. ground (arith, l.live name' b);
      fresh = λ b f. ground (arith, l.fresh b, l.live name h);
    }
    give-Ledger shared n' written' read' e w r = record {
      counted = λ b. ground (arith, l.counted b);
      writer = λ b. ground (arith, l.writer b, w b);
      readers = λ b. ground (arith, l.readers b, r b);
      apart = λ b f. ground (arith, l.apart b, r b, l.readers b);
      named = λ name' b f. ground (arith, l.named name' b);
      live = λ name' b f. ground (arith, l.live name' b);
      fresh = λ b f. ground (arith, l.fresh b, l.live name h);
    }

    -- A mutex that some thread has taken is given back without a fault.
    pub give-total :
        (m : Mode)
        → write_share m h h ≤ written h
        → read_share m h h ≤ read h
        → (n' : NamedLock) × (give_mutex m n h ≡ some n')
    unfolding give_mutex
    give-total exclusive w r = (
      record n { heap = update n.heap h (record (n.heap h) { writer = false }) },
      ground (arith, l.writer h),
    )
    give-total shared w r = (
      record n { heap = update n.heap h (record (n.heap h) { readers = (n.heap h).readers - 1 }) },
      ground (arith, l.readers h),
    )

    pub decrease-Ledger :
        (used' : ℕ → ℕ)
        → ((b : ℕ) → used b ≡ used' b + one_at h b)
        → Ledger (decrease n h) used' written read
    unfolding decrease
    decrease-Ledger used' u = record {
      counted = λ b. ground (arith, l.counted b, u b);
      writer = λ b. ground (arith, l.writer b);
      readers = λ b. ground (arith, l.readers b);
      apart = λ b f. ground (arith, l.apart b);
      named = λ name' b f.
          ground (arith, l.named name' b, lookup-erase (n.heap h).name name' n.holders);
      live = λ name' b f. ground (
        arith,
        l.live name' b,
        l.named name h,
        l.named name' b,
        str_eq_iff name name',
        lookup-erase (n.heap h).name name' n.holders,
      );
      fresh = λ b f. ground (arith, l.fresh b, l.live name h);
    }
