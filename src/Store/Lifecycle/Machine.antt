-- ===== src/Store/Lifecycle/Machine.antt =====
-- Several stores on one system: processes that call `New` and `Release`, and what holds of their
-- stores.
use oscdn.Base.{
  subst, ◌∙◌, ap, sym, if◌then◌else◌, ◌++◌, str_eq, ◌∷◌, All-of, ◌≡◌, ◌≢◌, Option, none, some,
  Bytes, codes, true, false, ℕ, zero, suc, List, All, [],
}
use mathlib.Core.Option.{some_inj}
use mathlib.Core.List.{append_cancel_right}
use oscdn.NamedLock.Threads.{get_elem?, set}
use oscdn.Store.Lifecycle.{
  FileLocks, Outcomes, Store, New, failed, opened, join_path, new_store, release_store,
}
use oscdn.Store.Lifecycle.Locked.{IsLaidOut}

-- A process calls `New`, or `Release` of a store that it has.
pub data Call : Type 0 where
  called_new : (path user_agent : Bytes) → Outcomes → Call
  called_release : ℕ → Call

pub record Machine (System : Type 0) : Type 0 where
  pub system : System
  pub stores : List Store

module _ {System : Type 0} (locks : FileLocks System) where
  abbrev pub opened_in : List Store → New × System → Machine System
  opened_in stores (failed e, s) = record { system = s; stores = stores }
  opened_in stores (opened st, s) = record { system = s; stores = st ∷ stores }

  abbrev pub released_in : Machine System → ℕ → Option Store → Machine System
  released_in m i none = m
  released_in m i (some st) =
      let (reported, st', s) = release_store locks m.system st in
      record { system = s; stores = set m.stores i st' }

  unfoldable pub perform : Machine System → Call → Machine System
  perform m (called_new path user_agent env) =
      opened_in m.stores (new_store locks m.system path user_agent env)
  perform m (called_release i) = released_in m i (get_elem? m.stores i)

  unfoldable pub perform_all : Machine System → List Call → Machine System
  perform_all m [] = m
  perform_all m (c ∷ cs) = perform_all (perform m c) cs

-- An open store holds its lock, and its paths lie in one directory.
abbrev pub Holds : {System : Type 0} → FileLocks System → System → Store → Type 0
Holds locks s st = (st.release_done ≡ false → locks.held s st.lock_path ≡ true) × IsLaidOut st

-- Two stores are not both open with one lock.
abbrev pub Apart : Store → Store → Type 0
Apart st other =
    st.release_done ≡ false → other.release_done ≡ false → st.lock_path ≢ other.lock_path

abbrev pub AllApart : List Store → Type 0
AllApart [] = Unit
AllApart (st ∷ stores) = All (Apart st) stores × AllApart stores

pub record IsSound {System : Type 0} (locks : FileLocks System) (m : Machine System) : Type 0 where
  pub holds : All (Holds locks m.system) m.stores
  pub apart : AllApart m.stores

-- The lock of a store tells its content directory.
pub same_lock :
    (st other : Store)
    → IsLaidOut st
    → IsLaidOut other
    → st.content_path ≡ other.content_path
    → st.lock_path ≡ other.lock_path
unfolding join_path
same_lock st other (p, l, c, _) (q, l', c', _) e =
    l
    ∙ ap (λ r. r ++ codes "/lock")
        (append_cancel_right (if str_eq p (codes "/") then codes "" else p)
          (if str_eq q (codes "/") then codes "" else q) (codes "/content") (sym c ∙ e ∙ c'))
    ∙ sym l'

module _ (P : Store → Type 0) where
  pub All-set : (sts : List Store) (i : ℕ) (st : Store) → All P sts → P st → All P (set sts i st)
  All-set [] i st h p = tt
  All-set (x ∷ sts) zero st (_, h) p = (p, h)
  All-set (x ∷ sts) (suc i) st (px, h) p = (px, All-set sts i st h p)

  pub All-get :
      (sts : List Store) (i : ℕ) (st : Store) → All P sts → get_elem? sts i ≡ some st → P st
  All-get [] i st h e = cc
  All-get (x ∷ sts) zero st (px, h) e = subst P ((some_inj).0 e) px
  All-get (x ∷ sts) (suc i) st (px, h) e = All-get sts i st h e

pub All-zip :
    (P Q R : Store → Type 0)
    → ((st : Store) → P st → Q st → R st)
    → (sts : List Store) → All P sts
    → All Q sts
    → All R sts
All-zip P Q R f [] h k = tt
All-zip P Q R f (x ∷ sts) (px, h) (qx, k) = (f x px qx, All-zip P Q R f sts h k)

-- Once a store is released, it shares with none.
pub AllApart-set :
    (sts : List Store) (i : ℕ) (st : Store)
    → st.release_done ≡ true
    → AllApart sts
    → AllApart (set sts i st)
AllApart-set [] i st d h = tt
AllApart-set (x ∷ sts) zero st d (_, h) = (All-of (Apart st) (λ y live other same. cc) sts, h)
AllApart-set (x ∷ sts) (suc i) st d (a, h) =
    (All-set (Apart x) sts i st a (λ live other same. cc), AllApart-set sts i st d h)
