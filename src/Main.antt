-- ===== src/Main.antt =====
-- main.go: the start of the program up to its servers, and what it does at their end. Parsing the
-- command line, reading the file and decoding it are the environment's; the logger and the run of
-- the servers by package application are left out.
pub mod Boot
use oscdn.Base.{true, ℕ, Bool, false, Option, none, some, List, Bytes, ℤ}
use oscdn.Store.Lifecycle.{
  FileLocks, Outcomes, Store, New, failed, opened, NewError, new_store, release_store,
}
use oscdn.Store.Download as Download
use oscdn.Config.{
  Config, Flags, FlagsError, from_file, validate, certificates, validate_flags, min_version,
  store_config,
}
use oscdn.Apps.Servers.{Kind, http_app, mgmt_app}

-- What the environment gives: the flags, if they can be parsed, the files by their names, the
-- decoding of YAML, the loading of key pairs, and the outcomes of the calls in the store's `New`.
pub record Environment {ℓ} (Cert : Type ℓ) : Type ℓ where
  pub arguments : Option Flags
  pub files : Bytes → Option (Option Bytes)
  pub decode : Bytes → Option Config
  pub x509_key_pair : Bytes → Bytes → Option Cert
  pub outcomes : Outcomes

-- A server with the address that it listens on.
pub record Listening : Type 0 where
  pub address : Bytes
  pub kind : Kind

-- The program as it runs.
pub record Program {ℓ} (Cert : Type ℓ) : Type ℓ where
  pub store : Store
  pub store_settings : Download.Config
  pub config : Config
  pub server_header : Bytes
  pub certs : List (Bytes × Cert)
  pub min_tls_version : ℕ
  pub http_server : Listening
  pub https_server : Listening
  pub mgmt_server : Listening

-- Why `main` returns before there is a server.
pub data Exit : Type 0 where
  bad_arguments : Exit
  bad_flags : FlagsError → Exit
  no_config : Exit
  no_origin : Bytes → Exit
  no_certificates : Exit
  store_failed : NewError → Exit

pub data Started {ℓ} (Cert : Type ℓ) : Type ℓ where
  exited : Exit → Started Cert
  panicked : Started Cert
  running : Program Cert → Started Cert

unfoldable pub program {ℓ} :
    {Cert : Type ℓ} → Flags → Config → List (Bytes × Cert) → Store → ℕ → Program Cert
program f c certs st version = record {
  store = st;
  store_settings = store_config c st.content_path f.store_min_content_age;
  config = c;
  server_header = f.server_header;
  certs = certs;
  min_tls_version = version;
  http_server = record { address = f.http; kind = http_app f.listen_backlog f.handle_h2c false };
  https_server = record { address = f.https; kind = http_app f.listen_backlog false true };
  mgmt_server = record { address = f.mgmt; kind = mgmt_app };
}

module _ {ℓ} {System : Type 0} {Cert : Type ℓ} (locks : FileLocks System) where
  -- The `switch` on the TLS version; its panic runs the deferred `Release`.
  unfoldable pub with_version :
      Flags → Config → List (Bytes × Cert) → Store → System → Option ℕ → Started Cert × System
  with_version f c certs st s none = (panicked, (release_store locks s st).2)
  with_version f c certs st s (some version) = (running (program f c certs st version), s)

  unfoldable pub with_store :
      Flags → Config → List (Bytes × Cert) → New × System → Started Cert × System
  with_store f c certs (failed e, s) = (exited (store_failed e), s)
  with_store f c certs (opened st, s) = with_version f c certs st s (min_version f.min_tls_version)

  unfoldable pub with_certificates :
      Environment Cert
      → System
      → Flags
      → Config
      → Option (List (Bytes × Cert))
      → Started Cert × System
  with_certificates env s f c none = (exited no_certificates, s)
  with_certificates env s f c (some certs) =
      with_store f c certs (new_store locks s f.store_path f.store_user_agent env.outcomes)

  unfoldable pub with_config :
      Environment Cert → System → Flags → Option Config → Started Cert × System
  with_config env s f none = (exited no_config, s)
  with_config env s f (some c) = elim (validate c) [
    | some host ↦ (exited (no_origin host), s)
    | none ↦ with_certificates env s f c (certificates env.x509_key_pair c.hosts)
  ]

  unfoldable pub with_flags : Environment Cert → System → Option Flags → Started Cert × System
  with_flags env s none = (exited bad_arguments, s)
  with_flags env s (some f) = elim (validate_flags f) [
    | some e ↦ (exited (bad_flags e), s)
    | none ↦ with_config env s f (from_file env.decode (env.files f.config))
  ]

  -- `main` up to the servers.
  unfoldable pub start_up : Environment Cert → System → Started Cert × System
  start_up env s = with_flags env s env.arguments

  -- The `StopFunc` of the main application.
  unfoldable pub stop_func : Program Cert → System → System
  stop_func p s = (release_store locks s p.store).2
