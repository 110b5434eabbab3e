-- ===== src/Store/Lifecycle/Waits.antt =====
-- store/store.go, `Release` beside what still works: calls of `Get` and of the three purges, which
-- look at the store's context once, the goroutines of the wait group (the two cleaners, pipes and
-- downloads), and the helpers that the group does not count: the one that ends a pipe, and the one
-- of `startDownload` that waits for the request or its context.
use oscdn.Base.{
  ap, subst, ◌-◌, ◌==◌, ltb, ℕ, ◌+◌, ◌≡◌, refl, Bool, true, false, Option, none, some, arith,
  if◌then◌else◌,
}
use mathlib.Core.Option.{some_inj}

-- Where `Release` stands: behind `cancel`, behind `Wait`, and behind the release of the lock.
pub data Stage : Type 0 where
  open_phase cancelled_phase waited_phase released_phase : Stage

-- `calls` of `Get` have passed their check of the context, and `adding` more are between `wg.Add(1)`
-- and `go`; `purges` are the calls of the purges behind their check; `running` are the goroutines of
-- the wait group, `count` is its counter, and `helpers` the goroutines outside it. `late` records, for
-- the proofs, how many calls there were when the context was cancelled.
pub record Life : Type 0 where
  pub phase : Stage
  pub calls : ℕ
  pub adding : ℕ
  pub purges : ℕ
  pub running : ℕ
  pub helpers : ℕ
  pub count : ℕ
  pub late : ℕ

-- What happens next: a call comes to its check, ends, adds to the wait group, starts its goroutine;
-- a goroutine ends; a call of a purge comes to its check, ends; a helper is started by a call of
-- `Get` or by a pipe, ends; `Release` takes its next step.
pub data Act : Type 0 where
  check return add start finish check_purge return_purge help helped release : Act

-- `New` has started the two cleaners.
abbrev pub fresh : Life
fresh = record {
  phase = open_phase;
  calls = 0;
  adding = 0;
  purges = 0;
  running = 2;
  helpers = 0;
  count = 2;
  late = 0;
}

-- The steps of `Release`; `Wait` goes on where the count is 0.
unfoldable pub release_step : Stage → Life → Option Life
release_step open_phase s =
    some (record s { phase = cancelled_phase; late = s.calls + s.adding + s.purges })
release_step cancelled_phase s =
    if s.count == 0 then some (record s { phase = waited_phase }) else none
release_step waited_phase s = some (record s { phase = released_phase })
release_step released_phase s = none

-- The check of a call: it returns with an error behind `cancel`.
unfoldable pub check_step : Stage → Life → Life
check_step open_phase s = record s { calls = s.calls + 1 }
check_step _ s = s

-- That of `Purge`, `PurgeHost` and `PurgeAll`.
unfoldable pub check_purge_step : Stage → Life → Life
check_purge_step open_phase s = record s { purges = s.purges + 1 }
check_purge_step _ s = s

-- One step; `none` where it cannot be taken.
unfoldable pub progress : Life → Act → Option Life
progress s check = some (check_step s.phase s)
progress s return = if ltb 0 s.calls then some (record s { calls = s.calls - 1 }) else none
progress s add =
    if ltb 0 s.calls
    then some (record s { calls = s.calls - 1; adding = s.adding + 1; count = s.count + 1 })
    else none
progress s start =
    if ltb 0 s.adding
    then some (record s { calls = s.calls + 1; adding = s.adding - 1; running = s.running + 1 })
    else none
progress s finish =
    if ltb 0 s.running
    then some (record s { running = s.running - 1; count = s.count - 1 })
    else none
progress s check_purge = some (check_purge_step s.phase s)
progress s return_purge = if ltb 0 s.purges then some (record s { purges = s.purges - 1 }) else none
progress s help =
    if ltb 0 (s.calls + s.running) then some (record s { helpers = s.helpers + 1 }) else none
progress s helped = if ltb 0 s.helpers then some (record s { helpers = s.helpers - 1 }) else none
progress s release = release_step s.phase s

pub data Reach : Life → Type 0 where
  began : Reach fresh
  later : {s t : Life} (a : Act) → Reach s → progress s a ≡ some t → Reach t

-- The goroutines that the wait group does not wait for any more.
unfoldable pub is_past : Stage → Bool
is_past open_phase = false
is_past cancelled_phase = false
is_past _ = true

unfoldable pub is_open : Stage → Bool
is_open open_phase = true
is_open _ = false

-- The count is that of the goroutines, and no call is new behind `cancel`.
record Inv (s : Life) : Type 0 where
  counted : s.count ≡ s.running + s.adding
  quiet : is_open s.phase ≡ false → s.late ≡ 0 → s.calls + s.adding + s.purges ≡ 0
  past : is_past s.phase ≡ true → s.late ≡ 0 → s.running ≡ 0

guarded : (b : Bool) (s t : Life) → (if b then some s else none) ≡ some t → (b ≡ true) × (s ≡ t)
guarded true s t e = (refl, some_inj.0 e)
guarded false s t e = cc

check-Inv : (p : Stage) (s : Life) → s.phase ≡ p → Inv s → Inv (check_step p s)
unfolding check_step is_open is_past
check-Inv open_phase s e h = record {
  counted = h.counted;
  quiet = ground (arith, h.quiet);
  past = ground (arith, h.past);
}
check-Inv cancelled_phase s e h = h
check-Inv waited_phase s e h = h
check-Inv released_phase s e h = h

check_purge-Inv : (p : Stage) (s : Life) → s.phase ≡ p → Inv s → Inv (check_purge_step p s)
unfolding check_purge_step is_open is_past
check_purge-Inv open_phase s e h = record {
  counted = h.counted;
  quiet = ground (arith, h.quiet);
  past = ground (arith, h.past);
}
check_purge-Inv cancelled_phase s e h = h
check_purge-Inv waited_phase s e h = h
check_purge-Inv released_phase s e h = h

release-Inv : (p : Stage) (s t : Life) → s.phase ≡ p → Inv s → release_step p s ≡ some t → Inv t
unfolding release_step is_past is_open
release-Inv open_phase s t e h eq =
    subst Inv (some_inj.0 eq)
      (record { counted = h.counted; quiet = λ _ none_late. none_late; past = ground arith })
release-Inv cancelled_phase s t e h eq =
    let (idle, same) = guarded (s.count == 0) (record s { phase = waited_phase }) t eq in
    subst Inv same (record {
      counted = h.counted;
      quiet = ground (arith, h.quiet);
      past = ground (arith, h.counted);
    })
release-Inv waited_phase s t e h eq =
    subst Inv (some_inj.0 eq) (record {
      counted = h.counted;
      quiet = ground (arith, h.quiet);
      past = ground (arith, h.past);
    })
release-Inv released_phase s t e h eq = cc

past-not_open : (p : Stage) → is_past p ≡ true → is_open p ≡ false
unfolding is_past is_open
past-not_open open_phase e = cc
past-not_open cancelled_phase e = refl
past-not_open waited_phase e = refl
past-not_open released_phase e = refl

progress-Inv : (s t : Life) (a : Act) → Inv s → progress s a ≡ some t → Inv t
unfolding progress
progress-Inv s t check h e = subst Inv (some_inj.0 e) (check-Inv s.phase s refl h)
progress-Inv s t return h e =
    let (some_call, same) = guarded (ltb 0 s.calls) (record s { calls = s.calls - 1 }) t e in
    subst Inv same
      (record { counted = h.counted; quiet = λ o l. omega (arith, h.quiet o l); past = h.past })
progress-Inv s t add h e =
    let (some_call, same) =
      guarded (ltb 0 s.calls)
        (record s { calls = s.calls - 1; adding = s.adding + 1; count = s.count + 1 }) t e in
    subst Inv same (record {
      counted = omega (arith, h.counted);
      quiet = λ o l. ground (arith, h.quiet o l);
      past = h.past;
    })
progress-Inv s t start h e =
    let (some_call, same) =
      guarded (ltb 0 s.adding)
        (record s { calls = s.calls + 1; adding = s.adding - 1; running = s.running + 1 }) t e in
    subst Inv same (record {
      counted = ground (arith, h.counted);
      quiet = λ o l. ground (arith, h.quiet o l);
      past = λ o l. ground (arith, h.quiet (past-not_open s.phase o) l, some_call);
    })
progress-Inv s t finish h e =
    let (some_run, same) =
      guarded (ltb 0 s.running) (record s { running = s.running - 1; count = s.count - 1 }) t e in
    subst Inv same (record {
      counted = ground (arith, h.counted);
      quiet = h.quiet;
      past = λ o l. ground (arith, h.past o l);
    })
progress-Inv s t check_purge h e = subst Inv (some_inj.0 e) (check_purge-Inv s.phase s refl h)
progress-Inv s t return_purge h e =
    let (some_purge, same) = guarded (ltb 0 s.purges) (record s { purges = s.purges - 1 }) t e in
    subst Inv same
      (record { counted = h.counted; quiet = λ o l. omega (arith, h.quiet o l); past = h.past })
progress-Inv s t help h e =
    let (some_parent, same) =
      guarded (ltb 0 (s.calls + s.running)) (record s { helpers = s.helpers + 1 }) t e in
    subst Inv same (record { counted = h.counted; quiet = h.quiet; past = h.past })
progress-Inv s t helped h e =
    let (some_helper, same) =
      guarded (ltb 0 s.helpers) (record s { helpers = s.helpers - 1 }) t e in
    subst Inv same (record { counted = h.counted; quiet = h.quiet; past = h.past })
progress-Inv s t release h e = release-Inv s.phase s t refl h e

Reach-Inv : {s : Life} → Reach s → Inv s
unfolding is_past
Reach-Inv began = record { counted = refl; quiet = λ o l. refl; past = λ o l. cc }
Reach-Inv (later {s} {t} a r e) = progress-Inv s t a (Reach-Inv r) e

-- In every state that calls, goroutines and the steps of Release reach in any interleaving, once the
-- lock of the store has been given back: if no call of Get, Purge, PurgeHost or PurgeAll had passed
-- its check when Release cancelled the context, then no such call is behind its check, and no
-- goroutine of the wait group, which are the cleaners, the pipes and the downloads, runs. Of the
-- helpers that the group does not count, it says nothing.
pub Reach-drained :
    (s : Life)
    → Reach s
    → s.phase ≡ released_phase
    → s.late ≡ 0
    → (s.running ≡ 0) × (s.calls ≡ 0) × (s.adding ≡ 0) × (s.purges ≡ 0)
unfolding is_open is_past
Reach-drained s r e none_late =
    let h = Reach-Inv r in
    let quiet : s.calls + s.adding + s.purges ≡ 0 = h.quiet (ap is_open e) none_late in
    (
      h.past (ap is_past e) none_late,
      omega (arith, quiet),
      omega (arith, quiet),
      omega (arith, quiet),
    )
