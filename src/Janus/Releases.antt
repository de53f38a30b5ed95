-- ===== src/Janus/Releases.antt =====
-- What the replies of janus/src/pjanus.c release.
use kore_io_websocket.Base.{
  ℕ, ◌+◌, ◌≡◌, List, [], ◌∷◌, ◌++◌, Bool, true, false, String, Option, none, some, arith,
  if◌then◌else◌,
}
use kore_io_websocket.Janus.{
  World, Reply, Call, Value, reply, error_data, payload, root, json_new, json_handed, json_decref,
  ErrorCode, Reason, failure,
}
use kore_io_websocket.Janus.Replies.{answer_error, janus_process_error}

abbrev pub is_value : Value → Value → Bool
is_value root root = true
is_value reply reply = true
is_value error_data error_data = true
is_value payload payload = true
is_value _ _ = false

abbrev once : Bool → ℕ
once b = if b then 1 else 0

abbrev makes : Value → Call → ℕ
makes v (json_new u) = once (is_value u v)
makes v _ = 0

abbrev gives : Value → Call → ℕ
gives v (json_handed u) = once (is_value u v)
gives v (json_decref u) = once (is_value u v)
gives v _ = 0

-- The references to a value that are made, and those that are handed on or released.
abbrev pub made : Value → List Call → ℕ
made v [] = 0
made v (x ∷ xs) = makes v x + made v xs

abbrev pub given : Value → List Call → ℕ
given v [] = 0
given v (x ∷ xs) = gives v x + given v xs

made-append : (v : Value) (xs ys : List Call) → made v (xs ++ ys) ≡ made v xs + made v ys
made-append v [] ys = omega arith
made-append v (x ∷ xs) ys = omega (arith, made-append v xs ys)

given-append : (v : Value) (xs ys : List Call) → given v (xs ++ ys) ≡ given v xs + given v ys
given-append v [] ys = omega arith
given-append v (x ∷ xs) ys = omega (arith, given-append v xs ys)

-- An error that is answered makes a reply and an `error_data`, hands `error_data` to the reply, and
-- releases both, whether or not the reply can be written: `error_data` is given up twice for the one
-- reference that there was.
pub error_overreleases :
    (dumps : Reply → Option String) (c sid : ℕ) (t : Option String) (code : ErrorCode) (r : Reason)
    (w : World)
    → let w' = janus_process_error dumps c sid t code r w in
      (made error_data w'.calls ≡ made error_data w.calls + 1)
      × (given error_data w'.calls ≡ given error_data w.calls + 2)
      × (made reply w'.calls ≡ made reply w.calls + 1)
      × (given reply w'.calls ≡ given reply w.calls + 1)
unfolding janus_process_error
error_overreleases dumps c sid t code r w = go (dumps (failure sid t code r))
  where
    go :
        (o : Option String)
        → (made error_data (answer_error c o w).calls ≡ made error_data w.calls + 1)
          × (given error_data (answer_error c o w).calls ≡ given error_data w.calls + 2)
          × (made reply (answer_error c o w).calls ≡ made reply w.calls + 1)
          × (given reply (answer_error c o w).calls ≡ given reply w.calls + 1)
    go none = (
      made-append error_data w.calls _,
      given-append error_data w.calls _,
      made-append reply w.calls _,
      given-append reply w.calls _,
    )
    go (some text) = (
      made-append error_data w.calls _,
      given-append error_data w.calls _,
      made-append reply w.calls _,
      given-append reply w.calls _,
    )
