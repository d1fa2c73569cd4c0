-- ===== src/Engine/Task.antt =====
-- weather-core/engine/src/handlers: a handler as a task over services that are awaited, which may be dropped
-- at each `await`, and the events that it publishes.
pub mod Yields
use weather_app.Common.{List, [], ◌∷◌, ◌++◌, Option, none, some, Result, ok, err}
use weather_app.Common.Text.{Text, text, join}
use weather_app.Engine.Events.{Event}

-- An error of `anyhow`, from its outermost context to its cause.
abbrev pub AnyError : Type 0
AnyError = List Text

-- A call that is awaited: the services may do anything meanwhile, and `none` says that the task
-- was dropped there.
abbrev pub Await : Type 0 → Type 0 → Type 0
Await S A = S → S × Option A

-- `{err:#}` and `{err}`.
unfoldable pub full_text : AnyError → Text
full_text e = join (text ": ") e

unfoldable pub outer_text : AnyError → Text
outer_text [] = []
outer_text (context ∷ causes) = context

-- The services, and what was published, the first first.
pub record World (F S : Type 0) : Type 0 where
  pub services : S
  pub published : List (Event F)

-- `none`: the task was dropped.
abbrev pub Task : Type 0 → Type 0 → Type 0 → Type 0
Task F S A = World F S → World F S × Option A

abbrev pub continue :
    {F S A B : Type 0} → World F S × Option A → (A → Task F S B) → World F S × Option B
continue (w, none) f = (w, none)
continue (w, some a) f = f a w

infixl 5 ◌>>=◌ ◌>>◌
unfoldable pub ◌>>=◌ : {F S A B : Type 0} → Task F S A → (A → Task F S B) → Task F S B
◌>>=◌ m f w = continue (m w) f

unfoldable pub ◌>>◌ : {F S A B : Type 0} → Task F S A → Task F S B → Task F S B
unfolding ◌>>=◌
◌>>◌ m f = m >>= λ _. f

unfoldable pub return : {F S A : Type 0} → A → Task F S A
return a w = (w, some a)

unfoldable pub await : {F S A : Type 0} → Await S A → Task F S A
await call w = let (s, answer) = call w.services in (record w { services = s }, answer)

unfoldable pub reads : {F S A : Type 0} → (S → A) → Task F S A
reads f w = (w, some (f w.services))

unfoldable pub calls : {F S A : Type 0} → (S → S × A) → Task F S A
calls call w = let (s, answer) = call w.services in (record w { services = s }, some answer)

unfoldable pub publish : {F S : Type 0} → Event F → Task F S (Unit {0})
publish event w = (record w { published = w.published ++ event ∷ [] }, some tt)

unfoldable pub on_ok :
    {F S A B : Type 0}
    → (A → Task F S (Result B AnyError))
    → Result A AnyError
    → Task F S (Result B AnyError)
unfolding return
on_ok f (ok a) = f a
on_ok f (err e) = return (err e)

-- `?`
infixl 5 ◌>>?◌
unfoldable pub ◌>>?◌ :
    {F S A B : Type 0}
    → Task F S (Result A AnyError)
    → (A → Task F S (Result B AnyError))
    → Task F S (Result B AnyError)
unfolding ◌>>=◌ on_ok
m >>? f = m >>= on_ok f
