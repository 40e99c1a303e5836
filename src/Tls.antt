-- ===== src/Tls.antt =====
-- internal/config/tls.go: the configuration of TLS from the files of keys and certificates. Reading a
-- file, and what crypto/tls and crypto/x509 make of its bytes, are imported.
pub mod Setup
pub mod Files
use text.Mathlib.Text.{◌==◌ as same_string}
use dislog.Prelude.{
  ℕ, List, [], ◌∷◌, Bool, ◌&&◌, not, String, Option, none, some, if◌then◌else◌, Result, malformed,
  Exec, pure, lift, fail, gets, modify, ◌>>=◌, ◌>>◌,
}

-- TLSConfig
pub record TlsConfig : Type 0 where
  pub cert_file : String
  pub key_file : String
  pub ca_file : String
  pub server_address : String
  pub server : Bool

-- tls.LoadX509KeyPair, ioutil.ReadFile and CertPool.AppendCertsFromPEM: a certificate is a `C`, a pool
-- of authorities a `P`.
pub record Keys (C P : Type 0) : Type 0 where
  pub load_key_pair : String → String → Result C
  pub read_file : String → Result (List ℕ)
  pub certs_from_pem : List ℕ → Option P

-- tls.ClientAuthType, as far as it is used
pub data ClientAuth : Type 0 where
  no_client_cert require_and_verify : ClientAuth

-- tls.Config
pub record Tls (C P : Type 0) : Type 0 where
  pub certificates : List C
  pub root_cas : Option P
  pub client_cas : Option P
  pub client_auth : ClientAuth
  pub server_name : String

abbrev pub is_set : String → Bool
is_set text = not (same_string text "")

module _ {C P : Type 0} (keys : Keys C P) where
  abbrev pub empty_tls : Tls C P
  empty_tls = record {
    certificates = [];
    root_cas = none;
    client_cas = none;
    client_auth = no_client_cert;
    server_name = "";
  }

  -- The certificate of SetupTLSConfig
  unfoldable pub set_certificate : TlsConfig → Exec (Tls C P) (Unit {0})
  set_certificate c =
      if is_set c.cert_file && is_set c.key_file
      then (lift (keys.load_key_pair c.cert_file c.key_file)
          >>= (λ cert. modify (λ t. record t { certificates = cert ∷ [] })))
      else pure tt

  -- A file without a certificate is refused.
  unfoldable pub pool_of : Option P → Exec (Tls C P) P
  pool_of none = fail malformed
  pool_of (some ca) = pure ca

  abbrev pub trust : TlsConfig → P → Tls C P → Tls C P
  trust c ca t =
      if c.server
      then record t {
        client_cas = some ca;
        client_auth = require_and_verify;
        server_name = c.server_address;
      }
      else record t { root_cas = some ca; server_name = c.server_address }

  -- The authority of SetupTLSConfig
  unfoldable pub set_authority : TlsConfig → Exec (Tls C P) (Unit {0})
  unfolding pool_of
  set_authority c =
      if is_set c.ca_file
      then (lift (keys.read_file c.ca_file)
          >>= (λ b. pool_of (keys.certs_from_pem b) >>= (λ ca. modify (trust c ca))))
      else pure tt

  -- SetupTLSConfig
  unfoldable pub setup_tls_config : TlsConfig → Result (Tls C P)
  setup_tls_config c = ((set_certificate c >> set_authority c >> gets (λ t. t)) empty_tls).0
