-- ===== src/Store/Lifecycle/Locked.antt =====
-- What `New` and `Release` do to the lock of the store's directory.
use oscdn.Base.{
  ◌≢◌, ◌≡◌, refl, Option, none, some, arith, Bool-cases, inl, inr, Bytes, codes, str_eq, str_eq_iff,
  true, false,
}
use oscdn.Store.Lifecycle.{
  FileLocks, Outcomes, Store, New, failed, opened, NewError, prepare_dirs, store_at, join_path,
  finish_new, new_at, new_store, or_default,
}

-- The paths of the store lie in one directory.
abbrev pub IsLaidOut : Store → Type 0
IsLaidOut st =
    (p : Bytes) × (st.lock_path ≡ join_path p (codes "lock"))
    × (st.content_path ≡ join_path p (codes "content"))
    × (st.trash_path ≡ join_path p (codes "trash"))

-- What a call of `New` in a state of the locks comes to: a store whose lock was free and is held, or
-- an error with the locks as they were. No other lock changes.
abbrev pub IsOutcome : {System : Type 0} → FileLocks System → System → New × System → Type 0
IsOutcome locks s (failed e, s') = (q : Bytes) → locks.held s' q ≡ locks.held s q
IsOutcome locks s (opened st, s') =
    (locks.held s st.lock_path ≡ false)
    × (locks.held s' st.lock_path ≡ true)
    × ((q : Bytes) → st.lock_path ≢ q → locks.held s' q ≡ locks.held s q)
    × (st.release_done ≡ false)
    × IsLaidOut st

module _ {System : Type 0} (locks : FileLocks System) where
  given_back :
      (s s' : System) (p q : Bytes)
      → locks.create s p ≡ some s'
      → (locks.release s' p).0 ≡ true
      → locks.held (locks.release s' p).1 q ≡ locks.held s q
  given_back s s' p q e works = elim (Bool-cases (str_eq p q)) [
    | inl same ↦
        ground (arith, str_eq_iff p q, locks.create_free s s' p e, locks.release_free s' p works)
    | inr differ ↦
        ground
          (arith, str_eq_iff p q, locks.create_elsewhere s s' p q e, locks.release_elsewhere s' p q)
  ]

  module _ (works : (s : System) (p : Bytes) → (locks.release s p).0 ≡ true) where
    finish_new-IsOutcome :
        (s s' : System) (st : Store) (err : Option NewError)
        → locks.create s st.lock_path ≡ some s'
        → st.release_done ≡ false
        → IsLaidOut st
        → IsOutcome locks s (finish_new locks s' st err)
    unfolding finish_new
    finish_new-IsOutcome s s' st none e fresh laid = (
      locks.create_free s s' st.lock_path e,
      locks.create_held s s' st.lock_path e,
      (λ q. locks.create_elsewhere s s' st.lock_path q e),
      fresh,
      laid,
    )
    finish_new-IsOutcome s s' st (some err) e fresh laid =
        λ q. given_back s s' st.lock_path q e (works s' st.lock_path)

    new_at-IsOutcome :
        (s : System) (st : Store) (env : Outcomes)
        → st.release_done ≡ false
        → IsLaidOut st
        → IsOutcome locks s (new_at locks s st env)
    unfolding new_at
    new_at-IsOutcome s st env fresh laid = created (locks.create s st.lock_path) refl
      where
        created :
            (r : Option System)
            → locks.create s st.lock_path ≡ r
            → IsOutcome locks s (elim r as (λ x. New × System) [
              | none ↦ (failed NewError.no_lock, s)
              | some s' ↦ finish_new locks s' st (prepare_dirs env)
            ])
        created none e = λ q. refl
        created (some s') e = finish_new-IsOutcome s s' st (prepare_dirs env) e fresh laid

    -- A call of New, where the locks that are given back are free, either opens a store, with its
    -- three paths in one directory, whose lock was free before and is held then, with no other
    -- lock changed, or it fails and leaves every lock as it was, whichever step failed.
    pub new_store-IsOutcome :
        (s : System) (path user_agent : Bytes) (env : Outcomes)
        → IsOutcome locks s (new_store locks s path user_agent env)
    unfolding new_store store_at
    new_store-IsOutcome s path user_agent env = located (env.abs (or_default path (codes ".")))
      where
        located :
            (r : Option Bytes)
            → IsOutcome locks s (elim r as (λ x. New × System) [
              | none ↦ (failed NewError.no_path, s)
              | some p ↦ new_at locks s (store_at p (or_default user_agent (codes "oscdn"))) env
            ])
        located none = λ q. refl
        located (some p) =
            new_at-IsOutcome s (store_at p (or_default user_agent (codes "oscdn"))) env refl
              (p, refl, refl, refl)
