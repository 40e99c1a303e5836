-- ===== src/Commands/Flags.antt =====
-- What the command makes of its flags.
use text.Mathlib.Text.{◌==◌ as same_string}
use dislog.Prelude.{
  List, [], ◌∷◌, Bool, true, false, ◌||◌, String, none, some, ◌≡◌, refl, sym, ap, ◌∙◌, ◌⊎◌, inl,
  inr, Result, ok, err, panic, err-ne-ok, panic-ne-ok, none-ne-some, false-ne-true, modify, ◌>>◌,
  then-ok, Bool-cases,
}
use dislog.Tls.{TlsConfig, Keys, Tls, require_and_verify, is_set, setup_tls_config, trust}
use dislog.Tls.Setup.{certified, Authority, setup_tls_config_lem}
use dislog.Commands.{
  Value, setup_flags, Viper, Reading, was_read, not_found, unreadable, Cfg, read_config, fill,
  has_pair, serving, setup_server_tls, setup_peer_tls, setup_config,
}

-- Whether setupFlags defines the flag `key`.
abbrev pub is_flag : String → List (String × Value) → Bool
is_flag key [] = false
is_flag key ((name, value) ∷ rest) = same_string key name || is_flag key rest

module _ {C P : Type 0} (keys : Keys C P) (viper : Viper) where
  -- What setup_config ran through.
  record Configured (c c' : Cfg (Tls C P)) : Type 0 where
    middle : Cfg (Tls C P)
    served : setup_server_tls keys viper (fill keys viper c) ≡ (ok tt, middle)
    dialled : setup_peer_tls keys viper middle ≡ (ok tt, c')

  configured : (c c' : Cfg (Tls C P)) → setup_config keys viper c ≡ (ok tt, c') → Configured c c'
  unfolding setup_config read_config
  configured c c' h =
      let (m, e, dialled) =
        then-ok
          (read_config keys viper viper.read_in_config
            >> modify (fill keys viper)
            >> setup_server_tls keys viper)
          (setup_peer_tls keys viper) c c' tt h in
      let (f, e', served) =
        then-ok (read_config keys viper viper.read_in_config >> modify (fill keys viper))
          (setup_server_tls keys viper) c m tt e in
      let (r, e'', filled) =
        then-ok (read_config keys viper viper.read_in_config) (modify (fill keys viper)) c f tt
          e' in
      let same : r ≡ c = reads viper.read_in_config r e'' in
      let filled' : fill keys viper r ≡ f = ap (λ y. y.1) filled in
      let at : fill keys viper c ≡ f = rw same at filled' in
      record { middle = m; served = rw at served; dialled = dialled }
    where
      reads : (x : Reading) (r : Cfg (Tls C P)) → read_config keys viper x c ≡ (ok tt, r) → r ≡ c
      reads was_read r e = ap (λ y. y.1) (sym e)
      reads not_found r e = ap (λ y. y.1) (sym e)
      reads (unreadable x) r e = absurd (err-ne-ok (ap (λ y. y.0) e))

  -- The cfg with the server's TLS, and the cfg with that of the peers
  abbrev with_server : Tls C P → Cfg (Tls C P) → Cfg (Tls C P)
  with_server t c = record c {
    server_tls = serving keys viper c.server_tls;
    agent = record c.agent { server_tls_config = some t };
  }

  abbrev with_peer : Tls C P → Cfg (Tls C P) → Cfg (Tls C P)
  with_peer t c = record c { agent = record c.agent { peer_tls_config = some t } }

  setup_server_tls_lem :
      (c m : Cfg (Tls C P))
      → setup_server_tls keys viper c ≡ (ok tt, m)
      → (c ≡ m)
        ⊎ ((t : Tls C P) × (setup_tls_config keys (serving keys viper c.server_tls) ≡ ok t)
            × (with_server t c ≡ m))
  unfolding setup_server_tls
  setup_server_tls_lem c m h = elim (Bool-cases (has_pair keys viper c.server_tls)) [
    | inr no_pair ↦ inl (ap (λ y. y.1) (rw no_pair at h))
    | inl pair ↦ inr (set (setup_tls_config keys (serving keys viper c.server_tls)) pair refl)
  ]
    where
      set :
          (r : Result (Tls C P))
          → has_pair keys viper c.server_tls ≡ true
          → setup_tls_config keys (serving keys viper c.server_tls) ≡ r
          → (t : Tls C P) × (setup_tls_config keys (serving keys viper c.server_tls) ≡ ok t)
            × (with_server t c ≡ m)
      set (ok t) pair e = (t, e, ap (λ y. y.1) (rw (pair, e) at h))
      set (err x) pair e = absurd (err-ne-ok (ap (λ y. y.0) (rw (pair, e) at h)))
      set panic pair e = absurd (panic-ne-ok (ap (λ y. y.0) (rw (pair, e) at h)))

  setup_peer_tls_lem :
      (c m : Cfg (Tls C P))
      → setup_peer_tls keys viper c ≡ (ok tt, m)
      → (c ≡ m) ⊎ ((t : Tls C P) × (setup_tls_config keys c.peer_tls ≡ ok t) × (with_peer t c ≡ m))
  unfolding setup_peer_tls
  setup_peer_tls_lem c m h = elim (Bool-cases (has_pair keys viper c.peer_tls)) [
    | inr no_pair ↦ inl (ap (λ y. y.1) (rw no_pair at h))
    | inl pair ↦ inr (set (setup_tls_config keys c.peer_tls) pair refl)
  ]
    where
      set :
          (r : Result (Tls C P))
          → has_pair keys viper c.peer_tls ≡ true
          → setup_tls_config keys c.peer_tls ≡ r
          → (t : Tls C P) × (setup_tls_config keys c.peer_tls ≡ ok t) × (with_peer t c ≡ m)
      set (ok t) pair e = (t, e, ap (λ y. y.1) (rw (pair, e) at h))
      set (err x) pair e = absurd (err-ne-ok (ap (λ y. y.0) (rw (pair, e) at h)))
      set panic pair e = absurd (panic-ne-ok (ap (λ y. y.0) (rw (pair, e) at h)))

  demands :
      (c : TlsConfig) (t : Tls C P)
      → Authority keys (serving keys viper c) t
      → is_set c.ca_file ≡ true
      → t.client_auth ≡ require_and_verify
  demands c t (certs, inl (unset, same)) named = absurd (false-ne-true (sym unset ∙ named))
  demands c t (certs, inr (b, ca, e, e', same)) named = ap (λ (x : Tls C P). x.client_auth) same

  unnamed :
      (c : TlsConfig) (t : Tls C P)
      → Authority keys c t
      → c.server_address ≡ ""
      → t.server_name ≡ ""
  unnamed c t (certs, inl (unset, same)) at = ap (λ (x : Tls C P). x.server_name) same
  unnamed c t (certs, inr (b, ca, e, e', same)) at =
      ap (λ (x : Tls C P). x.server_name) same ∙ trusted (Bool-cases c.server) ∙ at
    where
      trusted :
          (c.server ≡ true) ⊎ (c.server ≡ false)
          → (trust keys c ca (certified keys c certs)).server_name ≡ c.server_address
      trusted (inl server) = rw server
      trusted (inr client) = rw client

  -- When setupConfig succeeds and gives the agent a configuration of TLS for its servers, and the flag
  -- for the server's certificate authority is set, then that configuration demands and verifies a
  -- certificate of each client. The agent has no such configuration before.
  pub server_demands_certificates :
      (c c' : Cfg (Tls C P)) (t : Tls C P)
      → setup_config keys viper c ≡ (ok tt, c')
      → c.agent.server_tls_config ≡ none
      → c'.agent.server_tls_config ≡ some t
      → is_set (viper.get_string "server-tls-ca-file") ≡ true
      → t.client_auth ≡ require_and_verify
  server_demands_certificates c c' t h before after named =
      served (setup_server_tls_lem (fill keys viper c) run.middle run.served)
    where
      run : Configured c c'
      run = configured c c' h

      kept : run.middle.agent.server_tls_config ≡ some t
      kept = elim (setup_peer_tls_lem run.middle c' run.dialled) [
        | inl same ↦ ap (λ (x : Cfg (Tls C P)). x.agent.server_tls_config) same ∙ after
        | inr (t', e, same) ↦ ap (λ (x : Cfg (Tls C P)). x.agent.server_tls_config) same ∙ after
      ]

      served :
          (fill keys viper c ≡ run.middle)
            ⊎ ((t' : Tls C P) × (setup_tls_config keys
                    (serving keys viper (fill keys viper c).server_tls)
                  ≡ ok t')
                × (with_server t' (fill keys viper c) ≡ run.middle))
          → t.client_auth ≡ require_and_verify
      served (inl same) = absurd (
          none-ne-some
            (sym before ∙ ap (λ (x : Cfg (Tls C P)). x.agent.server_tls_config) same ∙ kept))
      served (inr (t', e, same)) =
          let both : some t' ≡ some t =
            ap (λ (x : Cfg (Tls C P)). x.agent.server_tls_config) same ∙ kept in
          let eq : t' ≡ t = cc in
          rw (← eq) (
            demands (fill keys viper c).server_tls t'
              (setup_tls_config_lem keys (serving keys viper (fill keys viper c).server_tls) t' e)
              named)

  -- When setupConfig succeeds and gives the agent a configuration of TLS for its peers, then that
  -- configuration names no server, whatever the flags are: nothing sets the server's address, which is
  -- empty before. The agent has no such configuration before.
  pub peer_names_no_server :
      (c c' : Cfg (Tls C P)) (t : Tls C P)
      → setup_config keys viper c ≡ (ok tt, c')
      → c.agent.peer_tls_config ≡ none
      → c.peer_tls.server_address ≡ ""
      → c'.agent.peer_tls_config ≡ some t
      → t.server_name ≡ ""
  peer_names_no_server c c' t h before no_address after =
      dialled (setup_peer_tls_lem run.middle c' run.dialled)
    where
      run : Configured c c'
      run = configured c c' h

      kept : (run.middle.agent.peer_tls_config ≡ none) × (run.middle.peer_tls.server_address ≡ "")
      kept = elim (setup_server_tls_lem (fill keys viper c) run.middle run.served) [
        | inl same ↦ (
          ap (λ (x : Cfg (Tls C P)). x.agent.peer_tls_config) (sym same) ∙ before,
          ap (λ (x : Cfg (Tls C P)). x.peer_tls.server_address) (sym same) ∙ no_address,
        )
        | inr (t', e, same) ↦ (
          ap (λ (x : Cfg (Tls C P)). x.agent.peer_tls_config) (sym same) ∙ before,
          ap (λ (x : Cfg (Tls C P)). x.peer_tls.server_address) (sym same) ∙ no_address,
        )
      ]

      dialled :
          (run.middle ≡ c')
            ⊎ ((t' : Tls C P) × (setup_tls_config keys run.middle.peer_tls ≡ ok t')
                × (with_peer t' run.middle ≡ c'))
          → t.server_name ≡ ""
      dialled (inl same) = absurd (
          none-ne-some
            (sym kept.0 ∙ ap (λ (x : Cfg (Tls C P)). x.agent.peer_tls_config) same ∙ after))
      dialled (inr (t', e, same)) =
          let both : some t' ≡ some t =
            ap (λ (x : Cfg (Tls C P)). x.agent.peer_tls_config) same ∙ after in
          let eq : t' ≡ t = cc in
          rw (← eq) (
            unnamed run.middle.peer_tls t' (setup_tls_config_lem keys run.middle.peer_tls t' e)
              kept.1)

  -- When setupConfig succeeds and viper answers nothing for a name that setupFlags does not define, as
  -- it does without a configuration file, then the agent has no file for the model of its access
  -- control, whatever the flags are.
  pub no_acl_model :
      (c c' : Cfg (Tls C P)) (hostname data_dir : String)
      → ((key : String)
          → is_flag key (setup_flags hostname data_dir) ≡ false
          → viper.get_string key ≡ "")
      → setup_config keys viper c ≡ (ok tt, c')
      → c'.agent.acl_model_file ≡ ""
  no_acl_model c c' hostname data_dir undefined h =
      let run = configured c c' h in
      let asked : (fill keys viper c).agent.acl_model_file ≡ "" = undefined "acl-mode-file" refl in
      let served : run.middle.agent.acl_model_file ≡ "" =
        elim (setup_server_tls_lem (fill keys viper c) run.middle run.served) [
          | inl same ↦ ap (λ (x : Cfg (Tls C P)). x.agent.acl_model_file) (sym same) ∙ asked
          | inr (t, e, same) ↦ ap (λ (x : Cfg (Tls C P)). x.agent.acl_model_file) (sym same) ∙ asked
        ] in
      elim (setup_peer_tls_lem run.middle c' run.dialled) [
        | inl same ↦ ap (λ (x : Cfg (Tls C P)). x.agent.acl_model_file) (sym same) ∙ served
        | inr (t, e, same) ↦ ap (λ (x : Cfg (Tls C P)). x.agent.acl_model_file) (sym same) ∙ served
      ]
