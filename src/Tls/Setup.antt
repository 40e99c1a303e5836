-- ===== src/Tls/Setup.antt =====
-- What SetupTLSConfig answers.
use dislog.Prelude.{
  ℕ, List, [], ◌∷◌, true, false, ◌&&◌, Option, none, some, ◌≡◌, refl, sym, ap, ◌∙◌, ◌⊎◌, inl, inr,
  Result, ok, err, panic, malformed, err-ne-ok, panic-ne-ok, gets, ◌>>◌, then-ok, Bool-cases,
}
use dislog.Tls.{
  TlsConfig, Keys, Tls, is_set, empty_tls, set_certificate, trust, set_authority, setup_tls_config,
}

module _ {C P : Type 0} (keys : Keys C P) (c : TlsConfig) where
  abbrev pub certified : List C → Tls C P
  certified certs = record (empty_tls keys) { certificates = certs }

  -- The configuration has no authority, or the one of the file `c.ca_file`.
  abbrev pub Authority : Tls C P → Type 0
  Authority t =
      (certs : List C) × (((is_set c.ca_file ≡ false) × (t ≡ certified certs))
        ⊎ ((b : List ℕ) × (ca : P) × (keys.read_file c.ca_file ≡ ok b)
            × (keys.certs_from_pem b ≡ some ca)
            × (t ≡ trust keys c ca (certified certs))))

  set_certificate_lem :
      (certs : List C) × ((set_certificate keys c (empty_tls keys)).1 ≡ certified certs)
  unfolding set_certificate
  set_certificate_lem = elim (Bool-cases (is_set c.cert_file && is_set c.key_file)) [
    | inl both ↦ loaded (keys.load_key_pair c.cert_file c.key_file) both refl
    | inr not_both ↦ ([], rw not_both)
  ]
    where
      loaded :
          (r : Result C)
          → (is_set c.cert_file && is_set c.key_file) ≡ true
          → keys.load_key_pair c.cert_file c.key_file ≡ r
          → (certs : List C) × ((set_certificate keys c (empty_tls keys)).1 ≡ certified certs)
      loaded (ok cert) both e = (cert ∷ [], rw (both, e))
      loaded (err x) both e = ([], rw (both, e))
      loaded panic both e = ([], rw (both, e))

  authority_lem :
      (t t' : Tls C P) (certs : List C)
      → t ≡ certified certs
      → set_authority keys c t ≡ (ok tt, t')
      → Authority t'
  unfolding set_authority
  authority_lem t t' certs at h = elim (Bool-cases (is_set c.ca_file)) [
    | inl named ↦ was_read (keys.read_file c.ca_file) named refl
    | inr unnamed ↦ (certs, inl (unnamed, sym (ap (λ y. y.1) (rw unnamed at h)) ∙ at))
  ]
    where
      pooled :
          (b : List ℕ) (p : Option P)
          → is_set c.ca_file ≡ true
          → keys.read_file c.ca_file ≡ ok b
          → keys.certs_from_pem b ≡ p
          → Authority t'
      pooled b none named e e' =
          let fails : set_authority keys c t ≡ (err malformed, t) = rw (named, e, e') in
          absurd (err-ne-ok (ap (λ y. y.0) (sym fails ∙ h)))
      pooled b (some ca) named e e' =
          let runs : set_authority keys c t ≡ (ok tt, trust keys c ca t) = rw (named, e, e') in
          (certs, inr (b, ca, e, e', sym (ap (λ y. y.1) (sym runs ∙ h)) ∙ ap (trust keys c ca) at))

      was_read :
          (r : Result (List ℕ))
          → is_set c.ca_file ≡ true
          → keys.read_file c.ca_file ≡ r
          → Authority t'
      was_read (ok b) named e = pooled b (keys.certs_from_pem b) named e refl
      was_read (err x) named e =
          let fails : set_authority keys c t ≡ (err x, t) = rw (named, e) in
          absurd (err-ne-ok (ap (λ y. y.0) (sym fails ∙ h)))
      was_read panic named e =
          let fails : set_authority keys c t ≡ (panic, t) = rw (named, e) in
          absurd (panic-ne-ok (ap (λ y. y.0) (sym fails ∙ h)))

  -- A configuration that SetupTLSConfig gives has either no authority, no server's name and no demand
  -- for certificates of clients, and then no file of an authority was named; or it has the authority of
  -- that file: for a server the one of the clients, whose certificates it demands, and else the one of
  -- the servers.
  pub setup_tls_config_lem : (t : Tls C P) → setup_tls_config keys c ≡ ok t → Authority t
  unfolding setup_tls_config
  setup_tls_config_lem t h =
      let whole = set_certificate keys c >> set_authority keys c >> gets (λ t. t) in
      let ran : whole (empty_tls keys) ≡ (ok t, (whole (empty_tls keys)).1) =
        ap (λ r. (r, (whole (empty_tls keys)).1)) h in
      let (v, e, last) =
        then-ok (set_certificate keys c >> set_authority keys c) (gets (λ t. t)) (empty_tls keys) _
          t ran in
      let (u, e', e'') =
        then-ok (set_certificate keys c) (set_authority keys c) (empty_tls keys) v tt e in
      let (certs, at) = set_certificate_lem in
      let both : ok v ≡ ok t = ap (λ y. y.0) last in
      let same : v ≡ t = cc in
      rw (← same) (authority_lem u v certs (sym (ap (λ y. y.1) e') ∙ at) e'')
