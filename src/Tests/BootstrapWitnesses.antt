-- ===== src/Tests/BootstrapWitnesses.antt =====
-- The theorem on CORS at a concrete input.
use multitenancy.Prelude.{String, none, some, [], ◌∷◌, ◌≡◌, ◌↔◌, ◌⊎◌, refl, In}
use multitenancy.Bootstrap.{allowed_origins, cors_error}
use multitenancy.Bootstrap.Origins.{setting, cors_error_lem}

abbrev asked : String
asked = "http://localhost:3000"

abbrev local_host : String
local_host = "http://localhost:5173"

-- A blank after the comma is part of the origin.
abbrev blank_host : String
blank_host = " http://localhost:3000"

cors_error_lem_example :
    (cors_error (allowed_origins (some (setting local_host (blank_host ∷ [])))) (some asked) ≡ none)
    ↔ ((some asked ≡ none)
        ⊎ (some asked ≡ some "")
        ⊎ ((o : String) × (some asked ≡ some o) × In o (local_host ∷ blank_host ∷ [])))
cors_error_lem_example = cors_error_lem local_host (blank_host ∷ []) (some asked) (refl, (refl, tt))
