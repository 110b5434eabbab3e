-- ===== src/Tests/Service.antt =====
-- The life of the store and of the program: locks on a system where every file can be created, two
-- stores, a release beside two goroutines, the open files of a content.
use oscdn.Base.{
  pos, ap, sym, ◌∙◌, ◌≡◌, ◌≢◌, refl, arith, Bool, true, false, none, some, List, [], ◌∷◌,
  if◌then◌else◌, Bytes, codes, str_eq, str_eq_iff, str_eq_refl, map,
}
use oscdn.Config.{Flags}
use oscdn.Main.{Environment, start_up}
use oscdn.Main.Boot.{IsBoot, start_up-IsBoot}
use oscdn.Tests.Setup.{config}
use mathlib.Core.Option.{some_inj}
use oscdn.Store.Lifecycle.{
  FileLocks, Outcomes, made, exists, refused, store_at, new_store, new_at, finish_new, prepare_dirs,
  mkdir_error, or_default, join_path,
}
use oscdn.Store.Lifecycle.Machine.{Call, called_new, perform, perform_all}
use oscdn.Store.Lifecycle.Exclusive.{perform_all-apart}
use oscdn.Store.Lifecycle.Waits.{
  Life, Reach, began, later, progress, release_step, check_step, finish, release, check, return,
  add, start, released_phase, help, check_purge, return_purge, check_purge_step, Reach-drained,
}
use oscdn.Store.History.{stopped, run, step}
use oscdn.Store.History.Released.{run-released, errors, refusal, others}
use oscdn.Store.Files.Handles.{Answers, create_it, open_it, use_all, new_handle, open_count, header}
use oscdn.Store.Files.Handles.Tidy.{due, use_all-open_count}
use oscdn.Tests.Contents.{lib, cfg, world, events}

-- A system whose files can all be locked once.
abbrev System : Type 0
System = Bytes → Bool

abbrev taken : System → Bytes → System
taken s p q = if str_eq p q then true else s q

created :
    (b : Bool) (t s' : System) → (if b then none else some t) ≡ some s' → (b ≡ false) × (t ≡ s')
created false t s' e = (refl, some_inj.0 e)
created true t s' e = cc

taken_here : (s : System) (p : Bytes) → taken s p p ≡ true
taken_here s p = ground (arith, str_eq_refl p)

given : (s : System) (p : Bytes) → (if str_eq p p then false else s p) ≡ false
given s p = ground (arith, str_eq_refl p)

elsewhere : (b v : Bool) (p q : Bytes) → p ≢ q → (if str_eq p q then b else v) ≡ v
elsewhere b v p q ne = ground (arith, str_eq_iff p q)

abbrev locks : FileLocks System
locks = record {
  held = λ s p. s p;
  create = λ s p. if s p then none else some (taken s p);
  release = λ s p. (true, λ q. if str_eq p q then false else s q);
  create_free = λ s s' p e. (created (s p) (taken s p) s' e).0;
  create_held = λ s s' p e. ap (λ t. t p) (sym (created (s p) (taken s p) s' e).1) ∙ taken_here s p;
  create_elsewhere = λ s s' p q e ne.
      ap (λ t. t q) (sym (created (s p) (taken s p) s' e).1) ∙ elsewhere true (s q) p q ne;
  release_free = λ s p e. given s p;
  release_elsewhere = λ s p q ne. elsewhere false (s q) p q ne;
}

abbrev free : System
free p = false

abbrev outcomes : Outcomes
outcomes = record { abs = λ p. some p; truncated = true; content_dir = exists; trash_dir = made }

-- Two stores, between them one that finds the first's directory in use, and one whose directory
-- cannot be made.
abbrev calls : List Call
calls =
    called_new (codes "/a") [] outcomes
    ∷ called_new (codes "/a") [] outcomes
    ∷ called_new (codes "/b") [] (record outcomes { trash_dir = refused })
    ∷ called_new (codes "/b") [] outcomes
    ∷ []

perform_all-apart_example :
    (store_at (codes "/b") (codes "oscdn")).content_path
    ≢ (store_at (codes "/a") (codes "oscdn")).content_path
unfolding perform_all perform new_store new_at finish_new prepare_dirs mkdir_error or_default
    store_at join_path
perform_all-apart_example =
    perform_all-apart locks (λ s p. refl) free calls 0 1 (store_at (codes "/b") (codes "oscdn"))
      (store_at (codes "/a") (codes "oscdn")) (omega arith) refl refl refl refl

-- Release, with a call, its goroutine and a purge before it; the goroutine's helper outlives them.
abbrev ended : Life
ended = record {
  phase = released_phase;
  calls = 0;
  adding = 0;
  purges = 0;
  running = 0;
  helpers = 1;
  count = 0;
  late = 0;
}

drained : Reach ended
unfolding progress check_step check_purge_step release_step
drained =
    later release
      (later release
        (later finish
          (later finish
            (later finish
              (later release
                (later return_purge
                  (later check_purge
                    (later return
                      (later help (later start (later add (later check began refl) refl) refl) refl)
                      refl)
                    refl)
                  refl)
                refl)
              refl)
            refl)
          refl)
        refl)
      refl

Reach-drained_example :
    (ended.running ≡ 0) × (ended.calls ≡ 0) × (ended.adding ≡ 0) × (ended.purges ≡ 0)
Reach-drained_example = Reach-drained ended drained refl refl

-- A call that has passed its check before the release starts a goroutine behind it.
late_call : Reach (record {
  phase = released_phase;
  calls = 1;
  adding = 0;
  purges = 0;
  running = 1;
  helpers = 0;
  count = 1;
  late = 1;
})
unfolding progress check_step release_step
late_call =
    later start
      (later add
        (later release
          (later release
            (later finish (later finish (later release (later check began refl) refl) refl) refl)
            refl)
          refl)
        refl)
      refl

-- So does a purge go on behind it.
late_purge : Reach (record {
  phase = released_phase;
  calls = 0;
  adding = 0;
  purges = 1;
  running = 0;
  helpers = 0;
  count = 0;
  late = 1;
})
unfolding progress check_purge_step release_step
late_purge =
    later release
      (later release
        (later finish (later finish (later release (later check_purge began refl) refl) refl) refl)
        refl)
      refl

run-released_example :
    (run lib cfg world (stopped ∷ events) ≡ run lib cfg world (stopped ∷ others events))
    × (errors lib cfg (step lib cfg world stopped) events ≡ map (refusal) events)
run-released_example = run-released lib cfg world events

abbrev fine : Answers
fine = record { made = true; opens = λ f. true; closes = λ f. true; transferred = true }

-- Its header file cannot be opened.
abbrev poor : Answers
poor = record fine { opens = λ f. elim f [ header ↦ false | _ ↦ true ] }

use_all-open_count_example :
    open_count (use_all new_handle ((open_it, poor) ∷ (create_it, fine) ∷ []))
    ≡ due (use_all new_handle ((open_it, poor) ∷ (create_it, fine) ∷ []))
use_all-open_count_example = use_all-open_count ((open_it, poor) ∷ (create_it, fine) ∷ [])

-- The start of the program with the configuration of one host.
abbrev flags : Flags
flags = record {
  config = codes "config.yaml";
  store_path = codes "/var/oscdn";
  store_user_agent = codes "oscdn";
  store_min_content_age = pos 30;
  http = codes ":8080";
  https = codes ":8443";
  mgmt = codes ":8000";
  listen_backlog = pos 128;
  min_tls_version = codes "1.2";
  max_conns = 1000;
  handle_h2c = false;
  server_header = codes "oscdn";
}

abbrev environment : Environment Bytes
environment = record {
  arguments = some flags;
  files = λ name. some (some (codes "hosts"));
  decode = λ text. some config;
  x509_key_pair = λ cert key. some cert;
  outcomes = outcomes;
}

start_up-IsBoot_example : IsBoot locks environment free (start_up locks environment free)
start_up-IsBoot_example = start_up-IsBoot locks environment (λ s p. refl) free
