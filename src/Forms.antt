-- ===== src/Forms.antt =====
-- trackr_app/http_security.py: the body of a form is read to its end, and bounded, before the
-- application sees it. Bytes are numbers, and the content type's test is the argument `is_form`.
pub mod Bound
pub mod Origin
use summer_intern.Prelude.{
  ℕ, ◌+◌, ◌*◌, Bool, true, false, not, List, [], ◌∷◌, ◌++◌, ltb, if◌then◌else◌, length,
}

abbrev pub max_form_bytes : ℕ
max_form_bytes = 64 * 1024

-- A message of the connection: a part of the body with `more_body`, or its end.
pub data Event : Type 0 where
  disconnect : Event
  part : List ℕ → Bool → Event

-- What comes of a request: nothing, status 413, the application with the whole body, or the
-- application with the connection as it is. A connection that ends without a message waits.
pub data FormOutcome : Type 0 where
  waiting dropped too_large untouched : FormOutcome
  replayed : List ℕ → FormOutcome

-- The loop; `b''.join(chunks)` is the body so far.
unfoldable pub collect : ℕ → List ℕ → List Event → FormOutcome
collect size body [] = waiting
collect size body (disconnect ∷ events) = dropped
collect size body (part chunk more ∷ events) =
    let rest = collect (size + length chunk) (body ++ chunk) events in
    if ltb max_form_bytes (size + length chunk)
    then too_large
    else if not more
    then replayed (body ++ chunk)
    else rest

unfoldable pub handle_http : Bool → List Event → FormOutcome
unfolding collect
handle_http is_form events = if is_form then collect 0 [] events else untouched
