-- ===== src/Effect/Yields.antt =====
-- What is true of the value that an action returns, where it returns one.
use profile_service_cpp.Prelude.{String, ◌≡◌, refl, ap, subst}
use profile_service_cpp.Effect.{Result, ok, throw, Action, ret, raise, try_catch, ◌>>=◌}

pub record Yields {W A : Type 0} (Q : A → Type 0) (m : Action W A) : Type 0 where
  pub at : (w : W) (a : A) → (m w).0 ≡ ok a → Q a

module _ {W A : Type 0} {Q : A → Type 0} where
  pub Yields-ret : (a : A) → Q a → Yields {W = W} Q (ret a)
  Yields-ret a h = record { at = λ w b e. subst Q (ok_injective a b e) h }
    where
      value : A → Result A → A
      value d (ok b) = b
      value d (throw e) = d

      ok_injective : (a b : A) → ok a ≡ ok b → a ≡ b
      ok_injective a b e = ap (value a) e

  pub Yields-raise : (e : String) → Yields {W = W} Q (raise e)
  Yields-raise e = record { at = λ w a h. absurd cc }

  caught :
      (h : String → Action W A) (r : Result A) (w : W)
      → ((a : A) → r ≡ ok a → Q a)
      → ((e : String) → Yields Q (h e))
      → (a : A) → (elim r as (λ _. Result A × W) [ ok a ↦ (ok a, w) | throw e ↦ h e w ]).0 ≡ ok a
      → Q a
  caught h (ok b) w k l a e = k a e
  caught h (throw e) w k l a f = (l e).at w a f

  pub Yields-try_catch :
      (m : Action W A) (h : String → Action W A)
      → Yields Q m
      → ((e : String) → Yields Q (h e))
      → Yields Q (try_catch m h)
  Yields-try_catch m h k l = record { at = λ w a e. caught h (m w).0 (m w).1 (k.at w) l a e }

module _ {W A B : Type 0} {Q : B → Type 0} where
  went_on :
      (T : A → Type 0) (f : A → Action W B) (r : Result A) (w : W)
      → ((a : A) → r ≡ ok a → T a)
      → ((a : A) → T a → Yields Q (f a))
      → (b : B) → (elim r as (λ _. Result B × W) [ ok a ↦ f a w | throw e ↦ (throw e, w) ]).0 ≡ ok b
      → Q b
  went_on T f (ok a) w k l b e = (l a (k a refl)).at w b e
  went_on T f (throw e) w k l b h = absurd cc

  pub Yields-bind :
      (T : A → Type 0) (m : Action W A) (f : A → Action W B)
      → Yields T m
      → ((a : A) → T a → Yields Q (f a))
      → Yields Q (m >>= f)
  Yields-bind T m f k l = record { at = λ w b e. went_on T f (m w).0 (m w).1 (k.at w) l b e }

  -- where the value of the first part plays no part
  pub Yields-after :
      (m : Action W A) (f : A → Action W B) → ((a : A) → Yields Q (f a)) → Yields Q (m >>= f)
  Yields-after m f l = Yields-bind (λ _. Unit) m f (record { at = λ w a e. tt }) (λ a _. l a)
