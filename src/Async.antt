-- ===== src/Async.antt =====
-- The asynchronous calls of requester/utils.cpp: `getManagedObjectsAsync` and
-- `getManagedObjectsFromEMAsync`, which differ in the object that is asked. What the call answers is
-- an argument, `none` where it ends with an exception. A spawned operation's steps are those that it
-- takes when the answer is there.

pub mod Answers
use spdm_working.Common.{List, [], ◌∷◌, Option, none, some, Bool, true, false}
use spdm_working.Exceptions.{Exception, bad_function_call, Result, ok, threw, unfinished}
use spdm_working.Exceptions.Action.{Action, throw}

-- `std::function<void(A)>`, which is empty or has a target.
abbrev pub Function : Type 0 → Type 0 → Type 0
Function S A = Option (A → Action S (Unit {0}))

-- The call operator, which throws where there is no target.
unfoldable pub invoke : {S A : Type 0} → Function S A → A → Action S (Unit {0})
invoke none a = throw bad_function_call
invoke (some f) a = f a

-- The two operands of `|` move the one parameter `callback` into their closures, in an order that
-- C++ leaves open: the closure of `then` and that of `upon_error`, where `moved` is what a moved-from
-- function holds.
unfoldable pub captures : {F : Type 0} → (F → F) → Bool → F → F × F
captures moved true callback = (callback, moved callback)
captures moved false callback = (moved callback, callback)

module _ {S A : Type 0} where
  -- The body of `upon_error`, which catches every `std::exception`.
  unfoldable pub report : Function S (Bool × List A) → Action S (Unit {0})
  report on_error = invoke on_error (false, [])

  -- An exception of the closure of `then` goes on to `upon_error`.
  abbrev pub upon_error : Function S (Bool × List A) → Result (Unit {0}) × S → Result (Unit {0}) × S
  upon_error on_error (ok u, s) = (ok u, s)
  upon_error on_error (threw e, s) = report on_error s
  upon_error on_error (unfinished, s) = (unfinished, s)

  abbrev pub settle :
      Function S (Bool × List A) × Function S (Bool × List A)
      → Option (List A)
      → Action S (Unit {0})
  settle (on_value, on_error) none s = report on_error s
  settle (on_value, on_error) (some objects) s =
      upon_error on_error (invoke on_value (true, objects) s)

  -- What the spawned operation comes to; where it throws, its context gets the exception.
  unfoldable pub get_managed_objects_async :
      (Function S (Bool × List A) → Function S (Bool × List A))
      → Bool
      → Function S (Bool × List A)
      → Option (List A)
      → Action S (Unit {0})
  unfolding captures
  get_managed_objects_async moved then_first callback answer =
      settle (captures moved then_first callback) answer
