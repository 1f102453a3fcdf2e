-- ===== src/Storage/Tests.antt =====
-- The storage on a concrete image.
use profile_service_cpp.Prelude.{ℕ, List, [], ◌∷◌}

abbrev image : List ℕ
image = 7 ∷ []
