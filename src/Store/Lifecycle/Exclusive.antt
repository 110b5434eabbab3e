-- ===== src/Store/Lifecycle/Exclusive.antt =====
-- Several stores, opened and released in any order, on one system: no two that are open share their
-- directories.
use oscdn.Base.{
  subst, ◌∙◌, ap, sym, ◌∷◌, ◌≡◌, ◌≢◌, refl, Option, none, some, Bool-cases, inl, inr, Bytes, true,
  false, ℕ, zero, suc, List, All, [],
}
use mathlib.Core.Option.{some_inj}
use oscdn.NamedLock.Threads.{get_elem?, set}
use oscdn.Store.Lifecycle.{FileLocks, Store, New, failed, opened, new_store, release_store}
use oscdn.Store.Lifecycle.Locked.{IsLaidOut, IsOutcome, new_store-IsOutcome}
use oscdn.Store.Lifecycle.Machine.{
  Call, called_new, called_release, Machine, opened_in, released_in, perform, perform_all, Holds,
  Apart, AllApart, IsSound, same_lock, All-set, All-get, All-zip, AllApart-set,
}

module _ {System : Type 0} (locks : FileLocks System) where
  -- The locks of other stores are still held.
  Holds-release :
      (s : System) (p : Bytes) (st : Store)
      → (st.release_done ≡ false → p ≢ st.lock_path)
      → Holds locks s st
      → Holds locks (locks.release s p).1 st
  Holds-release s p st differs (held, laid) =
      (λ live. locks.release_elsewhere s p st.lock_path (differs live) ∙ held live, laid)

  All-Holds-release :
      (s : System) (sts : List Store) (i : ℕ) (st st' : Store)
      → get_elem? sts i ≡ some st
      → st.release_done ≡ false
      → st'.release_done ≡ true
      → IsLaidOut st'
      → AllApart sts
      → All (Holds locks s) sts
      → All (Holds locks (locks.release s st.lock_path).1) (set sts i st')
  All-Holds-release s [] i st st' e live d laid a h = tt
  All-Holds-release s (x ∷ sts) zero st st' e live d laid (ax, a) (hx, h) = (
    ((λ open_still. cc), laid),
    All-zip (Apart x) (Holds locks s) (Holds locks (locks.release s st.lock_path).1)
        (λ y ay hy.
          Holds-release s st.lock_path y
            (subst
              (λ z. z.release_done ≡ false → y.release_done ≡ false → z.lock_path ≢ y.lock_path)
              (some_inj.0 e) ay live)
            hy)
        sts ax h,
  )
  All-Holds-release s (x ∷ sts) (suc i) st st' e live d laid (ax, a) (hx, h) = (
    Holds-release s st.lock_path x
        (λ other same. All-get (Apart x) sts i st ax e other live (sym same)) hx,
    All-Holds-release s sts i st st' e live d laid a h,
  )

module _ {System : Type 0} (locks : FileLocks System) where
  module _ (works : (s : System) (p : Bytes) → (locks.release s p).0 ≡ true) where
    opened_in-IsSound :
        (s : System) (sts : List Store) (r : New × System)
        → All (Holds locks s) sts
        → AllApart sts
        → IsOutcome locks s r
        → IsSound locks (opened_in locks sts r)
    opened_in-IsSound s sts (failed e, s') h a same = record {
      holds =
          All-zip (Holds locks s) (Holds locks s) (Holds locks s')
            (λ st (held, laid) _. ((λ live. same st.lock_path ∙ held live), laid)) sts h h;
      apart = a;
    }
    opened_in-IsSound s sts (opened st, s') h a (free, taken, others, live, laid) =
        let differs : (y : Store) → Holds locks s y → Apart st y =
          (λ y (held, _) _ live' same. cc (same, free, held live')) in
        record {
          holds = (
            ((λ _. taken), laid),
            All-zip (Holds locks s) (Apart st) (Holds locks s')
                (λ y (held, laid') apart.
                  ((λ live'. others y.lock_path (apart live live') ∙ held live'), laid'))
                sts h
                (All-zip (Holds locks s) (Holds locks s) (Apart st) (λ y hy _. differs y hy) sts h
                  h),
          );
          apart = (
            All-zip (Holds locks s) (Holds locks s) (Apart st) (λ y hy _. differs y hy) sts h h,
            a,
          );
        }

  AllApart-again :
      (sts : List Store) (i : ℕ) (st : Store)
      → get_elem? sts i ≡ some st
      → AllApart sts
      → AllApart (set sts i st)
  AllApart-again [] i st e a = tt
  AllApart-again (x ∷ sts) zero st e (ax, a) = (subst (λ z. All (Apart z) sts) (some_inj.0 e) ax, a)
  AllApart-again (x ∷ sts) (suc i) st e (ax, a) =
      (All-set (Apart x) sts i st ax (All-get (Apart x) sts i st ax e), AllApart-again sts i st e a)

  released_in-IsSound :
      (m : Machine System) (i : ℕ) (r : Option Store)
      → get_elem? m.stores i ≡ r
      → IsSound locks m
      → IsSound locks (released_in locks m i r)
  unfolding release_store
  released_in-IsSound m i none e h = h
  released_in-IsSound m i (some st) e h =
      let here : Holds locks m.system st = All-get (Holds locks m.system) m.stores i st h.holds e in
      elim (Bool-cases st.release_done) [
        | inl done ↦ simp done (record {
          holds = All-set (Holds locks m.system) m.stores i st h.holds here;
          apart = AllApart-again m.stores i st e h.apart;
        })
        | inr live ↦ simp live (record {
          holds =
              All-Holds-release locks m.system m.stores i st _ e live refl here.1 h.apart h.holds;
          apart = AllApart-set m.stores i _ refl h.apart;
        })
      ]

  module _ (works : (s : System) (p : Bytes) → (locks.release s p).0 ≡ true) where
    perform-IsSound :
        (m : Machine System) (c : Call) → IsSound locks m → IsSound locks (perform locks m c)
    unfolding perform
    perform-IsSound m (called_new path user_agent env) h =
        opened_in-IsSound works m.system m.stores (new_store locks m.system path user_agent env)
          h.holds h.apart (new_store-IsOutcome locks works m.system path user_agent env)
    perform-IsSound m (called_release i) h = released_in-IsSound m i (get_elem? m.stores i) refl h

    perform_all-IsSound :
        (m : Machine System) (cs : List Call)
        → IsSound locks m
        → IsSound locks (perform_all locks m cs)
    unfolding perform_all
    perform_all-IsSound m [] h = h
    perform_all-IsSound m (c ∷ cs) h =
        perform_all-IsSound (perform locks m c) cs (perform-IsSound m c h)

    Apart-at :
        (s : System) (sts : List Store) (i j : ℕ) (st other : Store)
        → i ≢ j
        → get_elem? sts i ≡ some st
        → get_elem? sts j ≡ some other
        → AllApart sts
        → All (Holds locks s) sts
        → Apart st other
    Apart-at s [] i j st other ne e e' a h = cc
    Apart-at s (x ∷ sts) zero zero st other ne e e' a h = absurd (ne refl)
    Apart-at s (x ∷ sts) zero (suc j) st other ne e e' (ax, a) h =
        subst (λ z. Apart z other) (some_inj.0 e) (All-get (Apart x) sts j other ax e')
    Apart-at s (x ∷ sts) (suc i) zero st other ne e e' (ax, a) h = λ live live' same.
        subst (λ z. Apart z st) (some_inj.0 e') (All-get (Apart x) sts i st ax e) live' live
          (sym same)
    Apart-at s (x ∷ sts) (suc i) (suc j) st other ne e e' (_, a) (_, h) =
        Apart-at s sts i j st other (λ k. ne (ap suc k)) e e' a h

    -- On a system where locks that are given back are free, through any sequence of calls of New and
    -- Release from a state with no store, whichever of the steps of New fail, two different stores
    -- that are both open never have the same content directory.
    pub perform_all-apart :
        (s : System) (cs : List Call) (i j : ℕ) (st other : Store)
        → i ≢ j
        → get_elem? (perform_all locks (record { system = s; stores = [] }) cs).stores i ≡ some st
        → get_elem? (perform_all locks (record { system = s; stores = [] }) cs).stores j
          ≡ some other
        → st.release_done ≡ false
        → other.release_done ≡ false
        → st.content_path ≢ other.content_path
    perform_all-apart s cs i j st other ne e e' live live' same =
        let m = perform_all locks (record { system = s; stores = [] }) cs in
        let h : IsSound locks m =
          perform_all-IsSound (record { system = s; stores = [] }) cs
            (record { holds = tt; apart = tt }) in
        Apart-at m.system m.stores i j st other ne e e' h.apart h.holds live live' (
          same_lock st other (All-get (Holds locks m.system) m.stores i st h.holds e).1
            (All-get (Holds locks m.system) m.stores j other h.holds e').1 same)
