-- ===== src/Base/Http.antt =====
-- The parts of HTTP that auth.rs and web.rs answer with.
use Prim.Native.String.{String}
use mathlib.Core.Path.{◌≡◌, refl}
use vm_vitals.Base.Results.{Result}

-- The `StatusCode`s that the handlers use.
pub data Status : Type 0 where
  ok bad_request unauthorized forbidden not_found internal_server_error service_unavailable : Status

-- `(StatusCode, String)`, the error of a handler.
abbrev pub Reject : Type 0
Reject = Status × String

-- A handler over shared state.
abbrev pub Handler : Type 0 → Type 0 → Type 0
Handler S A = S → S × Result A Reject

-- What `?` does with a result: an error ends the handler, and the state stays as it is then.
abbrev pub and_then_handler :
    {S A B : Type 0} → S × Result A Reject → (A → Handler S B) → S × Result B Reject
and_then_handler (s, Result.ok a) f = f a s
and_then_handler (s, Result.err e) f = (s, Result.err e)

infixl 5 ◌>>=◌ ◌>>◌
abbrev pub ◌>>=◌ : {S A B : Type 0} → Handler S A → (A → Handler S B) → Handler S B
◌>>=◌ m f s = and_then_handler (m s) f

abbrev pub ◌>>◌ : {S A B : Type 0} → Handler S A → Handler S B → Handler S B
m >> k = m >>= λ _. k

abbrev pub pure : {S A : Type 0} → A → Handler S A
pure a s = (s, Result.ok a)

-- `return Err(e)`.
abbrev pub reject : {S A : Type 0} → Reject → Handler S A
reject e s = (s, Result.err e)

-- `r?`.
abbrev pub lift : {S A : Type 0} → Result A Reject → Handler S A
lift r s = (s, r)

abbrev pub gets : {S A : Type 0} → (S → A) → Handler S A
gets f s = (s, Result.ok (f s))

abbrev pub modify : {S : Type 0} → (S → S) → Handler S (Unit {0})
modify f s = (f s, Result.ok tt)

pub and_then_handler_assoc :
    {S A B C : Type 0} (x : S × Result A Reject) (f : A → Handler S B) (g : B → Handler S C)
    → and_then_handler (and_then_handler x f) g
      ≡ and_then_handler x (λ a s. and_then_handler (f a s) g)
and_then_handler_assoc (s, Result.ok a) f g = refl
and_then_handler_assoc (s, Result.err e) f g = refl
