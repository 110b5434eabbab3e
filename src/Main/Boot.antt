-- ===== src/Main/Boot.antt =====
-- How the start of the program can end.
use oscdn.Main.{
  no_origin, bad_flags, Environment, Started, exited, panicked, running, program, with_version,
  with_store, with_certificates, with_config, with_flags, start_up, stop_func,
}
use oscdn.Config.{
  FlagsError, Config, Flags, from_file, validate, certificates, validate_flags, min_version,
  store_config,
}
use oscdn.Base.{ℕ, ◌≡◌, refl, ◌≤◌, true, false, Option, none, some, List, Bytes, arith}
use oscdn.Store.Lifecycle.{FileLocks, Store, New, failed, opened, new_store, release_store}
use oscdn.Store.Lifecycle.Locked.{IsOutcome, new_store-IsOutcome}
use oscdn.Config.Hosts.{validate_flags-min_version}

module _ {System : Type 0} {Cert : Type 0} (locks : FileLocks System) (env : Environment Cert) where
  -- An exit leaves every lock as it was; a program that runs has a validated configuration with its
  -- certificates, a TLS version from 1.0 to 1.3, and a store whose lock was free, is held, and is free
  -- again behind `StopFunc`; there is no panic.
  abbrev pub IsBoot : System → Started Cert × System → Type 0
  IsBoot s (exited e, s') = (q : Bytes) → locks.held s' q ≡ locks.held s q
  IsBoot s (panicked, s') = ⊥
  IsBoot s (running p, s') =
      (validate p.config ≡ none)
      × (certificates env.x509_key_pair p.config.hosts ≡ some p.certs)
      × (769 ≤ p.min_tls_version)
      × (p.min_tls_version ≤ 772)
      × (p.store_settings.content_path ≡ p.store.content_path)
      × (locks.held s p.store.lock_path ≡ false)
      × (locks.held s' p.store.lock_path ≡ true)
      × (locks.held (stop_func locks p s') p.store.lock_path ≡ false)

  min_version-bounds : (v : Bytes) (n : ℕ) → min_version v ≡ some n → (769 ≤ n) × (n ≤ 772)
  unfolding min_version
  min_version-bounds v n e = (ground arith, ground arith)

  module _ (works : (s : System) (p : Bytes) → (locks.release s p).0 ≡ true) where
    released-free :
        (s : System) (st : Store)
        → st.release_done ≡ false
        → locks.held (release_store locks s st).2 st.lock_path ≡ false
    unfolding release_store
    released-free s st fresh = simp fresh (locks.release_free s st.lock_path (works s st.lock_path))

    with_store-IsBoot :
        (s : System) (f : Flags) (c : Config) (certs : List (Bytes × Cert)) (r : New × System)
        → validate_flags f ≡ none
        → validate c ≡ none
        → certificates env.x509_key_pair c.hosts ≡ some certs
        → IsOutcome locks s r
        → IsBoot s (with_store locks f c certs r)
    unfolding with_store with_version program store_config stop_func release_store
    with_store-IsBoot s f c certs (failed e, s') vf vc made same = same
    with_store-IsBoot s f c certs (opened st, s') vf vc made (free, taken, others, fresh, laid) =
        version (min_version f.min_tls_version) refl
      where
        version :
            (v : Option ℕ)
            → min_version f.min_tls_version ≡ v
            → IsBoot s (with_version locks f c certs st s' v)
        version none e = let (_, (n, known)) = validate_flags-min_version f vf in cc
        version (some n) e =
            let (low, high) = min_version-bounds f.min_tls_version n e in
            (vc, made, low, high, refl, free, taken, released-free s' st fresh)

    with_config-IsBoot :
        (s : System) (f : Flags) (c : Option Config)
        → validate_flags f ≡ none
        → IsBoot s (with_config locks env s f c)
    unfolding with_config with_certificates
    with_config-IsBoot s f none vf = λ q. refl
    with_config-IsBoot s f (some c) vf = checked (validate c) refl
      where
        loaded :
            validate c ≡ none
            → (certs : Option (List (Bytes × Cert)))
            → certificates env.x509_key_pair c.hosts ≡ certs
            → IsBoot s (with_certificates locks env s f c certs)
        loaded vc none e = λ q. refl
        loaded vc (some certs) e =
            with_store-IsBoot s f c certs
              (new_store locks s f.store_path f.store_user_agent env.outcomes) vf vc e
              (new_store-IsOutcome locks works s f.store_path f.store_user_agent env.outcomes)

        checked :
            (v : Option Bytes)
            → validate c ≡ v
            → IsBoot s (elim v as (λ x. Started Cert × System) [
              | some host ↦ (exited (no_origin host), s)
              | none ↦ with_certificates locks env s f c (certificates env.x509_key_pair c.hosts)
            ])
        checked (some host) e = λ q. refl
        checked none e = loaded e (certificates env.x509_key_pair c.hosts) refl

    -- Where locks that are given back are free, the program, whatever its environment gives, does not
    -- panic at its start: it exits and leaves every lock as it was, or it runs with a configuration
    -- whose hosts all have an origin, the certificates of all its key pairs, a TLS version from 1.0 to
    -- 1.3, and a store at the directory whose lock was free and is held, and is free again behind
    -- StopFunc.
    pub start_up-IsBoot : (s : System) → IsBoot s (start_up locks env s)
    unfolding start_up with_flags
    start_up-IsBoot s = parsed env.arguments
      where
        valid :
            (f : Flags) (v : Option FlagsError)
            → validate_flags f ≡ v
            → IsBoot s (elim v as (λ x. Started Cert × System) [
              | some e ↦ (exited (bad_flags e), s)
              | none ↦ with_config locks env s f (from_file env.decode (env.files f.config))
            ])
        valid f (some x) e = λ q. refl
        valid f none e = with_config-IsBoot s f (from_file env.decode (env.files f.config)) e

        parsed : (a : Option Flags) → IsBoot s (with_flags locks env s a)
        parsed none = λ q. refl
        parsed (some f) = valid f (validate_flags f) refl
