-- ===== src/Effect/Laws.antt =====
-- How the combinators go on after a step whose outcome is known.
use profile_service_cpp.Prelude.{String, ◌≡◌, refl}
use profile_service_cpp.Effect.{Result, ok, throw, Action, raise, try_catch, ◌>>=◌}

module _ {W A B : Type 0} where
  abbrev continue : (A → Action W B) → Result A × W → Result B × W
  continue f (ok a, w) = f a w
  continue f (throw e, w) = (throw e, w)

  -- a step that is done
  bind_as : (m : Action W A) (f : A → Action W B) (w : W) → (m >>= f) w ≡ continue f (m w)
  bind_as m f w = outcome (m w)
    where
      outcome :
          (p : Result A × W)
          → (elim p.0 as (λ _. Result B × W) [ ok a ↦ f a p.1 | throw e ↦ (throw e, p.1) ])
            ≡ continue f p
      outcome (ok a, w') = refl
      outcome (throw e, w') = refl

  pub bind-ok :
      (m : Action W A) (f : A → Action W B) (w : W) {a : A} {w' : W}
      → m w ≡ (ok a, w')
      → (m >>= f) w ≡ f a w'
  bind-ok m f w h = rw (bind_as m f w, h) refl

  pub bind-throw :
      (m : Action W A) (f : A → Action W B) (w : W) {e : String} {w' : W}
      → m w ≡ (throw e, w')
      → (m >>= f) w ≡ (throw e, w')
  bind-throw m f w h = rw (bind_as m f w, h) refl

  continue-cong :
      (f g : A → Action W B) (p : Result A × W)
      → ((a : A) (w : W) → f a w ≡ g a w)
      → continue f p ≡ continue g p
  continue-cong f g (ok a, w) k = k a w
  continue-cong f g (throw e, w) k = refl

  -- what follows a step may be replaced by what does the same
  pub bind-cong :
      (m : Action W A) (f g : A → Action W B) (w : W)
      → ((a : A) (w : W) → f a w ≡ g a w)
      → (m >>= f) w ≡ (m >>= g) w
  bind-cong m f g w k = rw (bind_as m f w, bind_as m g w) (continue-cong f g (m w) k)

module _ {W A : Type 0} where
  abbrev handled : (String → Action W A) → Result A × W → Result A × W
  handled h (ok a, w) = (ok a, w)
  handled h (throw e, w) = h e w

  try_catch_as :
      (m : Action W A) (h : String → Action W A) (w : W) → try_catch m h w ≡ handled h (m w)
  try_catch_as m h w = outcome (m w)
    where
      outcome :
          (p : Result A × W)
          → (elim p.0 as (λ _. Result A × W) [ ok a ↦ (ok a, p.1) | throw e ↦ h e p.1 ])
            ≡ handled h p
      outcome (ok a, w') = refl
      outcome (throw e, w') = refl

  pub try_catch-ok :
      (m : Action W A) (h : String → Action W A) (w : W) {a : A} {w' : W}
      → m w ≡ (ok a, w')
      → try_catch m h w ≡ (ok a, w')
  try_catch-ok m h w e = rw (try_catch_as m h w, e) refl

  pub try_catch-throw :
      (m : Action W A) (h : String → Action W A) (w : W) {e : String} {w' : W}
      → m w ≡ (throw e, w')
      → try_catch m h w ≡ h e w'
  try_catch-throw m h w t = rw (try_catch_as m h w, t) refl

module _ {W A : Type 0} where
  -- An action in front of an exception, as a destructor or a clean-up is: the exception that leaves is its
  -- own or the one behind it.
  pub after-raise :
      (m : Action W (Unit {0})) (e : String) (w : W)
      → (t : String) × (w' : W) × ((m >>= λ _. raise {A = A} e) w ≡ (throw t, w'))
  after-raise m e w = outcome (m w).0 (m w).1
    where
      outcome :
          (r : Result (Unit {0})) (w1 : W)
          → (t : String) × (w' : W) × ((elim r as (λ _. Result A × W) [
            | ok a ↦ (throw e, w1)
            | throw d ↦ (throw d, w1)
          ])
              ≡ (throw t, w'))
      outcome (ok a) w1 = (e, w1, refl)
      outcome (throw d) w1 = (d, w1, refl)
