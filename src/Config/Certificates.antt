-- ===== src/Config/Certificates.antt =====
-- The certificates of the hosts, as the TLS server of main.go looks them up.
use oscdn.Base.{
  ap, sym, ◌≡◌, refl, ◌∙◌, Option, none, some, List, [], ◌∷◌, arith, Option-cases, Bool-cases, inl,
  inr, Bytes, lookup, insert, lookup-insert, str_eq,
}
use oscdn.Config.{Host, Tls, certificates}

-- `GetCertificate` in main.go, by the name that the client asks for; nil for one without.
unfoldable pub get_certificate {ℓ} : {Cert : Type ℓ} → List (Bytes × Cert) → Bytes → Option Cert
unfolding lookup
get_certificate certs server_name = lookup server_name certs

module _ {ℓ} {Cert : Type ℓ} (x509_key_pair : Bytes → Bytes → Option Cert) where
  -- What the tail of the hosts gives, and what it becomes.
  certificates-cons :
      (k : Bytes) (d : Host) (hosts : List (Bytes × Host)) (certs : List (Bytes × Cert)) (t : Tls)
      → d.tls ≡ some t
      → certificates x509_key_pair ((k, d) ∷ hosts) ≡ some certs
      → (cert : Cert) × (rest : List (Bytes × Cert)) × (x509_key_pair t.cert t.key ≡ some cert)
        × (certificates x509_key_pair hosts ≡ some rest)
        × (insert k cert rest ≡ certs)
  unfolding certificates
  certificates-cons k d hosts certs t has h = elim (Option-cases (x509_key_pair t.cert t.key)) [
    | inl bad ↦ ground arith
    | inr (cert, pair) ↦ elim (Option-cases (certificates x509_key_pair hosts)) [
      | inl bad ↦ ground arith
      | inr (rest, made) ↦ (cert, rest, pair, made, ground arith)
    ]
  ]

  certificates-skip :
      (k : Bytes) (d : Host) (hosts : List (Bytes × Host)) (certs : List (Bytes × Cert))
      → d.tls ≡ none
      → certificates x509_key_pair ((k, d) ∷ hosts) ≡ some certs
      → certificates x509_key_pair hosts ≡ some certs
  unfolding certificates
  certificates-skip k d hosts certs bare h = ground arith

  -- Where the certificates of a configuration can be loaded, the TLS server gives a client that asks
  -- for a host with a key pair the certificate of exactly that pair.
  pub get_certificate-certificates :
      (hosts : List (Bytes × Host)) (certs : List (Bytes × Cert)) (k : Bytes) (d : Host) (t : Tls)
      → certificates x509_key_pair hosts ≡ some certs
      → lookup k hosts ≡ some d
      → d.tls ≡ some t
      → (cert : Cert) × (x509_key_pair t.cert t.key ≡ some cert)
        × (get_certificate certs k ≡ some cert)
  unfolding get_certificate lookup
  get_certificate-certificates [] certs k d t h found has = cc
  get_certificate-certificates ((j, e) ∷ hosts) certs k d t h found has =
      elim (Bool-cases (str_eq j k)) [
        | inl same ↦
            let (cert, rest, pair, made, all) =
              certificates-cons j e hosts certs t (ground arith) h in
            (cert, pair, ap (lookup k) (sym all) ∙ lookup-insert j k cert rest ∙ simp same refl)
        | inr other ↦ elim (Option-cases e.tls) [
          | inl bare ↦
              get_certificate-certificates hosts certs k d t
                (certificates-skip j e hosts certs bare h) (ground arith) has
          | inr (t', some_pair) ↦
              let (cert', rest, pair', made, all) =
                certificates-cons j e hosts certs t' some_pair h in
              let (cert, pair, got) =
                get_certificate-certificates hosts rest k d t made (ground arith) has in
              (cert, pair, ap (lookup k) (sym all) ∙ lookup-insert j k cert' rest ∙ simp other got)
        ]
      ]
