-- ===== src/Tls/Files.antt =====
-- internal/config/files.go: where the files of the configuration are.
use text.Mathlib.Text.{◌==◌ as same_string}
use dislog.Prelude.{List, [], ◌∷◌, String, Result, ok, err, panic, if◌then◌else◌, map}

-- What os and path/filepath answer: the variable CONFIG_DIR, the home directory, and Join.
pub record Places : Type 0 where
  pub config_dir : String
  pub home_dir : Result String
  pub join : List String → String

at_home : Places → String → Result String → Result String
at_home places filename (ok home) = ok (places.join (home ∷ ".proglog" ∷ filename ∷ []))
at_home places filename (err e) = panic
at_home places filename panic = panic

-- configFile
unfoldable pub config_file : Places → String → Result String
unfolding at_home
config_file places filename =
    if same_string places.config_dir ""
    then at_home places filename places.home_dir
    else ok (places.join (places.config_dir ∷ filename ∷ []))

-- CAFile and the other variables of the package, each by the name of its file
abbrev pub config_names : List String
config_names =
    "ca.pem" ∷ "server.pem" ∷ "server-key.pem" ∷ "client.pem" ∷ "client-key.pem" ∷ "root-client.pem"
    ∷ "root-client-key.pem" ∷ "nobody-client.pem" ∷ "nobody-client-key.pem" ∷ "model.conf"
    ∷ "policy.csv" ∷ []

pub config_files : Places → List (Result String)
unfolding config_file
config_files places = map (config_file places) config_names
