-- ===== src/Effect.antt =====
-- C++ functions that may throw (`Result`), and that moreover act on the world outside (`Action`).
-- Every exception of the service is a `std::exception`; it is kept by its `what()`. What a function
-- did to the world before it threw stays done.
pub mod Pure
pub mod Laws
pub mod Keeps
pub mod Yields
use profile_service_cpp.Prelude.{String}

pub data Result {ℓ} (A : Type ℓ) : Type ℓ where
  ok : A → Result A
  throw : String → Result A

-- `try { r } catch (const std::exception & e) { h }`, for code that leaves the world alone
abbrev pub catch {ℓ} : {A : Type ℓ} → Result A → (String → Result A) → Result A
catch (ok a) h = ok a
catch (throw e) h = h e

abbrev pub Action : Type 0 → Type 0 → Type 0
Action W A = W → Result A × W

module _ {W : Type 0} {A : Type 0} where
  abbrev pub ret : A → Action W A
  ret a w = (ok a, w)

  abbrev pub raise : String → Action W A
  raise e w = (throw e, w)

  abbrev pub lift : Result A → Action W A
  lift r w = (r, w)

  -- `try { m } catch (const std::exception & e) { h }`
  abbrev pub try_catch : Action W A → (String → Action W A) → Action W A
  try_catch m h w = let (r, w') = m w in elim r [ ok a ↦ (ok a, w') | throw e ↦ h e w' ]

infixl 5 ◌>>=◌ ◌>>◌
abbrev pub ◌>>=◌ : {W A B : Type 0} → Action W A → (A → Action W B) → Action W B
◌>>=◌ m f w = let (r, w') = m w in elim r [ ok a ↦ f a w' | throw e ↦ (throw e, w') ]

abbrev pub ◌>>◌ : {W B : Type 0} → Action W (Unit {0}) → Action W B → Action W B
m >> k = m >>= λ _. k
