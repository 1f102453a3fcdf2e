-- ===== src/Effect/Pure.antt =====
-- `do` blocks of functions that may throw and leave the world alone.
use profile_service_cpp.Effect.{Result, ok, throw}

infixl 5 ◌>>=◌
abbrev pub ◌>>=◌ {ℓ κ} : {A : Type ℓ} {B : Type κ} → Result A → (A → Result B) → Result B
ok a >>= f = f a
throw e >>= f = throw e
