-- ===== src/Async/Answers.antt =====
-- What the callback of an asynchronous call is told.
use spdm_working.Common.{◌≡◌, refl, List, [], Option, none, some, Bool, true, false}
use spdm_working.Exceptions.{bad_function_call, Result, ok, threw}
use spdm_working.Exceptions.Action.{Action}
use spdm_working.Async.{Function, invoke, captures, report, upon_error, get_managed_objects_async}

-- The one call of a callback that an operation makes, or the exception that it ends with instead.
pub data Told (A : Type 0) : Type 0 where
  told : Bool × List A → Told A
  told_nothing : Told A

-- By the order of the two captures and by the answer.
abbrev pub outcome : {A : Type 0} → Bool → Option (List A) → Told A
outcome true none = told_nothing
outcome true (some objects) = told (true, objects)
outcome false answer = told (false, [])

abbrev pub carried_out :
    {S A : Type 0} → (Bool × List A → Action S (Unit {0})) → Told A → Action S (Unit {0})
carried_out f (told a) s = f a s
carried_out f told_nothing s = (threw bad_function_call, s)

-- Where a moved-from function is empty and the callback does not throw: the operation calls it once
-- with the objects if the closure of `then` was made first and the call gave objects, it throws
-- without having called it if that closure was made first and the call failed, and it reports a
-- failure whatever the call gave if the closure of `upon_error` was made first.
pub get_managed_objects_async-told :
    {S A : Type 0} (moved : Function S (Bool × List A) → Function S (Bool × List A))
    (then_first : Bool) (f : Bool × List A → Action S (Unit {0})) (answer : Option (List A)) (s : S)
    → moved (some f) ≡ none
    → ((a : Bool × List A) (t : S) → (f a t).0 ≡ ok tt)
    → get_managed_objects_async moved then_first (some f) answer s
      ≡ carried_out f (outcome then_first answer) s
unfolding get_managed_objects_async captures report invoke
get_managed_objects_async-told moved true f none s e h = rw e refl
get_managed_objects_async-told moved true f (some objects) s e h =
    passes (f (true, objects) s).0 (f (true, objects) s).1 (h (true, objects) s)
  where
    passes :
        (r : Result (Unit {0})) (t : _) → r ≡ ok tt → upon_error (moved (some f)) (r, t) ≡ (r, t)
    passes r t q = rw q refl
get_managed_objects_async-told moved false f none s e h = refl
get_managed_objects_async-told moved false f (some objects) s e h = rw e refl
