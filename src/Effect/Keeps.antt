-- ===== src/Effect/Keeps.antt =====
-- Properties of the world that an action keeps, whether it returns or throws, with a rule for each way to
-- build an action.
use profile_service_cpp.Prelude.{String, Bool, true, false, ◌≡◌, refl, if◌then◌else◌}
use profile_service_cpp.Effect.{Result, ok, throw, Action, ret, raise, lift, try_catch, ◌>>=◌}

pub record Keeps {W A : Type 0} (I : W → Type 0) (m : Action W A) : Type 0 where
  pub at : (w : W) → I w → I (m w).1

module _ {W A : Type 0} {I : W → Type 0} where
  pub Keeps-ret : (a : A) → Keeps I (ret a)
  Keeps-ret a = record { at = λ w h. h }

  pub Keeps-raise : (e : String) → Keeps I (raise {A = A} e)
  Keeps-raise e = record { at = λ w h. h }

  pub Keeps-lift : (r : Result A) → Keeps I (lift r)
  Keeps-lift r = record { at = λ w h. h }

  pub Keeps-if :
      (b : Bool) (m n : Action W A)
      → (b ≡ true → Keeps I m)
      → (b ≡ false → Keeps I n)
      → Keeps I (if b then m else n)
  Keeps-if true m n km kn = km refl
  Keeps-if false m n km kn = kn refl

  caught :
      (h : String → Action W A) (r : Result A) (w : W)
      → ((e : String) → Keeps I (h e))
      → I w
      → I (elim r as (λ _. Result A × W) [ ok a ↦ (ok a, w) | throw e ↦ h e w ]).1
  caught h (ok a) w k i = i
  caught h (throw e) w k i = (k e).at w i

  pub Keeps-try_catch :
      (m : Action W A) (h : String → Action W A)
      → Keeps I m
      → ((e : String) → Keeps I (h e))
      → Keeps I (try_catch m h)
  Keeps-try_catch m h km kh = record { at = λ w i. caught h (m w).0 (m w).1 kh (km.at w i) }

module _ {W A B : Type 0} {I : W → Type 0} where
  went_on :
      (f : A → Action W B) (r : Result A) (w : W)
      → ((a : A) → r ≡ ok a → Keeps I (f a))
      → I w
      → I (elim r as (λ _. Result B × W) [ ok a ↦ f a w | throw e ↦ (throw e, w) ]).1
  went_on f (ok a) w k i = (k a refl).at w i
  went_on f (throw e) w k i = i

  -- the rest of a block may use what its beginning returned
  pub Keeps-bind-known :
      (m : Action W A) (f : A → Action W B) (Q : A → Type 0)
      → Keeps I m
      → ((w : W) → I w → (a : A) → (m w).0 ≡ ok a → Q a)
      → ((a : A) → Q a → Keeps I (f a))
      → Keeps I (m >>= f)
  Keeps-bind-known m f Q km yields kf = record {
    at = λ w i. went_on f (m w).0 (m w).1 (λ a e. kf a (yields w i a e)) (km.at w i);
  }

  pub Keeps-bind :
      (m : Action W A) (f : A → Action W B)
      → Keeps I m
      → ((a : A) → Keeps I (f a))
      → Keeps I (m >>= f)
  Keeps-bind m f km kf = record { at = λ w i. went_on f (m w).0 (m w).1 (λ a e. kf a) (km.at w i) }

pub ruleset keeps_rules =
    (Keeps-ret, Keeps-raise, Keeps-lift, Keeps-if, Keeps-try_catch, Keeps-bind)
