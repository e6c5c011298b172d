-- ===== src/Prelude/State.antt =====
-- Methods over an object's state: the new state, and a result or what was thrown.
-- What was written before a throw stays written.
use mathlib.Core.Bool.{Bool, true, false}
use mathlib.Core.Option.{Option, none, some}
use xautojs_devspace.Prelude.Result.{Result, ok, err}

abbrev pub Method : Type 0 → Type 0 → Type 0 → Type 0
Method S E A = S → S × Result E A

abbrev pub continue : {S E A B : Type 0} → (A → Method S E B) → S × Result E A → S × Result E B
continue f (s, ok a) = f a s
continue f (s, err e) = (s, err e)

infixl 5 ◌>>=◌ ◌>>◌
abbrev pub ◌>>=◌ : {S E A B : Type 0} → Method S E A → (A → Method S E B) → Method S E B
◌>>=◌ m f s = continue f (m s)

abbrev pub ◌>>◌ : {S E A B : Type 0} → Method S E A → Method S E B → Method S E B
m >> k = m >>= λ _. k

abbrev pub pure : {S E A : Type 0} → A → Method S E A
pure a s = (s, ok a)

-- Code that reads no state.
abbrev pub lift : {S E A : Type 0} → Result E A → Method S E A
lift r s = (s, r)

abbrev pub throw : {S E A : Type 0} → E → Method S E A
throw e s = (s, err e)

abbrev pub gets : {S E A : Type 0} → (S → A) → Method S E A
gets f s = (s, ok (f s))

abbrev pub modify : {S E : Type 0} → (S → S) → Method S E (Unit {0})
modify f s = (f s, ok tt)

-- `if (test) throw e`
abbrev pub throw_if : {S E : Type 0} → Bool → E → Method S E (Unit {0})
throw_if true e = throw e
throw_if false e = pure tt

-- `if (!value) throw e`
abbrev pub or_throw : {S E A : Type 0} → Option A → E → Method S E A
or_throw none e = throw e
or_throw (some a) e = pure a
