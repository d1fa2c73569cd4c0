-- ===== src/Engine/Task/Yields.antt =====
-- weather-core/engine/src/handlers: what holds of the answer of a task that is not dropped.
use weather_app.Common.{
  Bool, true, false, Option, none, some, ◌≡◌, refl, subst, if◌then◌else◌, Result, ok, err,
}
use weather_app.Engine.Task.{AnyError, World, Task, return, on_ok, continue, ◌>>=◌, ◌>>◌, ◌>>?◌}

-- What holds of a value holds of the result that carries it.
abbrev pub OnOk {ℓ κ} : {A : Type ℓ} {E : Type 0} → (A → Type κ) → Result A E → Type κ
OnOk Q (ok a) = Q a
OnOk Q (err e) = Unit

-- What holds of the answer, where there is one.
abbrev pub OnSome {ℓ κ} : {A : Type ℓ} → (A → Type κ) → Option A → Type κ
OnSome Q none = Unit
OnSome Q (some a) = Q a

pub OnSome-of {ℓ κ} :
    {A : Type ℓ} {Q : A → Type κ} (o : Option A) → ((a : A) → o ≡ some a → Q a) → OnSome Q o
OnSome-of none h = tt
OnSome-of (some a) h = h a refl

-- Nothing is known of an answer.
abbrev Anything : {A : Type 0} → A → Type 0
Anything a = Unit

pub same_answer : {A : Type 0} {a b : A} → Path (Option A) (some a) (some b) → a ≡ b
same_answer e = cc

pub no_answer : {A : Type 0} {a : A} → Path (Option A) none (some a) → ⊥
no_answer e = cc

module _ {F S : Type 0} where
  pub record Yields {A : Type 0} (Q : A → Type 0) (t : Task F S A) : Type 0 where
    pub yields : (w : World F S) (a : A) → (t w).1 ≡ some a → Q a

  pub return-Yields : {A : Type 0} {Q : A → Type 0} (a : A) → Q a → Yields Q (return a)
  unfolding return
  return-Yields {Q} a h = record { yields = λ w b e. subst Q (same_answer e) h }

  continue-yields :
      {A B : Type 0} {R : A → Type 0} {Q : B → Type 0} (out : World F S × Option A)
      (f : A → Task F S B) (b : B)
      → ((a : A) → out.1 ≡ some a → R a)
      → ((a : A) → R a → Yields Q (f a))
      → (continue out f).1 ≡ some b
      → Q b
  continue-yields (w, none) f b r q e = absurd (no_answer e)
  continue-yields (w, some a) f b r q e = (q a (r a refl)).yields w b e

  pub >>=-Yields :
      {A B : Type 0} (R : A → Type 0) {Q : B → Type 0} (m : Task F S A) (f : A → Task F S B)
      → Yields R m
      → ((a : A) → R a → Yields Q (f a))
      → Yields Q (m >>= f)
  unfolding ◌>>=◌
  >>=-Yields R m f r q = record { yields = λ w b e. continue-yields (m w) f b (r.yields w) q e }

  Anything-Yields : {A : Type 0} (t : Task F S A) → Yields (Anything {A = A}) t
  Anything-Yields t = record { yields = λ w a e. tt }

  pub then_Yields :
      {A B : Type 0} {Q : B → Type 0} (m : Task F S A) (f : A → Task F S B)
      → ((a : A) → Yields Q (f a))
      → Yields Q (m >>= f)
  then_Yields m f q = >>=-Yields (Anything) m f (Anything-Yields m) (λ a u. q a)

  pub >>-Yields :
      {A B : Type 0} {Q : B → Type 0} (m : Task F S A) (t : Task F S B)
      → Yields Q t
      → Yields Q (m >> t)
  unfolding ◌>>◌
  >>-Yields m t q = then_Yields m (λ _. t) (λ _. q)

  on_ok-Yields :
      {A B : Type 0} {Q : B → Type 0} (f : A → Task F S (Result B AnyError)) (r : Result A AnyError)
      → ((a : A) → Yields (OnOk Q) (f a))
      → Yields (OnOk Q) (on_ok f r)
  unfolding on_ok
  on_ok-Yields f (ok a) q = q a
  on_ok-Yields f (err e) q = return-Yields _ tt

  pub >>?-Yields :
      {A B : Type 0} {Q : B → Type 0} (m : Task F S (Result A AnyError))
      (f : A → Task F S (Result B AnyError))
      → ((a : A) → Yields (OnOk Q) (f a))
      → Yields (OnOk Q) (m >>? f)
  unfolding ◌>>?◌
  >>?-Yields m f q = then_Yields m (on_ok f) (λ r. on_ok-Yields f r q)

  pub if_Yields :
      {A : Type 0} {Q : A → Type 0} (b : Bool) (s t : Task F S A)
      → Yields Q s
      → Yields Q t
      → Yields Q (if b then s else t)
  if_Yields true s t h k = h
  if_Yields false s t h k = k
