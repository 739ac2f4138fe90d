-- ===== src/Prelude/Outcomes.antt =====
-- What an action leaves: a statement about its answer and its state, and one about its error and its state.

use simloom.Prelude.Effects.{Result, ok, err, Action, and_then, ◌>>=◌}

module _ {S E : Type 0} where
  abbrev pub After : {A : Type 0} → (A → S → Type 0) → (E → S → Type 0) → Result E A × S → Type 0
  After P X (ok a, s) = P a s
  After P X (err e, s) = X e s

  pub bind-After :
      {A B : Type 0} (P : A → S → Type 0) (Q : B → S → Type 0) (X : E → S → Type 0)
      (m : Action S E A) (f : A → Action S E B) (s : S)
      → After P X (m s)
      → ((a : A) (t : S) → P a t → After Q X (f a t))
      → After Q X ((m >>= f) s)
  bind-After {A = A} P Q X m f s h k = on_result (m s) h
    where
      on_result : (r : Result E A × S) → After P X r → After Q X (let (x, t) = r in and_then x f t)
      on_result (ok a, t) h = k a t h
      on_result (err e, t) h = h

  pub weaken-After :
      {A : Type 0} (P Q : A → S → Type 0) (X Y : E → S → Type 0) (r : Result E A × S)
      → After P X r
      → ((a : A) (t : S) → P a t → Q a t)
      → ((e : E) (t : S) → X e t → Y e t)
      → After Q Y r
  weaken-After P Q X Y (ok a, t) h f g = f a t h
  weaken-After P Q X Y (err e, t) h f g = g e t h
