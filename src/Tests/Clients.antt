-- ===== src/Tests/Clients.antt =====
-- Client configurations.
use seter.Prelude.{◌≡◌, refl, true, [], ◌∷◌, ok, err, ensure, ◌>>=◌}
use seter.Prelude.Text.{text}
use seter.Client.Config.{default_config, validate_config, validate_name, invalid_name, identifier}

run_client : Unit {0}
unfolding validate_config validate_name identifier ensure ◌>>=◌
run_client = tt

default_valid : validate_config (λ path. true) default_config ≡ ok tt
unfolding run_client
default_valid = refl

client_tests :
    (validate_name (text "../seter") ≡ err invalid_name)
    × (identifier [] ≡ text "cbf29ce484222325")
    × (identifier (b'a' ∷ []) ≡ text "af63dc4c8601ec8c")
unfolding run_client
client_tests = (refl, refl, refl)
