-- ===== src/Forms/Bound.antt =====
-- trackr_app/http_security.py: the bound on the body of a form.
use summer_intern.Prelude.{
  ℕ, ◌+◌, ◌≤◌, ◌≡◌, refl, sym, ◌∙◌, true, false, List, [], ◌∷◌, ◌++◌, ltb, length, length-append,
  arith, Bool-cases, inl, inr,
}
use summer_intern.Forms.{max_form_bytes, Event, disconnect, part, replayed, collect, handle_http}

-- The bytes of the parts up to the last one.
abbrev pub body_of : List Event → List ℕ
body_of [] = []
body_of (disconnect ∷ events) = []
body_of (part chunk true ∷ events) = chunk ++ body_of events
body_of (part chunk false ∷ events) = chunk

append_assoc : (xs ys zs : List ℕ) → (xs ++ ys) ++ zs ≡ xs ++ (ys ++ zs)
append_assoc [] ys zs = refl
append_assoc (x ∷ xs) ys zs = rw (append_assoc xs ys zs) refl

collected :
    (size : ℕ) (body : List ℕ) (events : List Event) (whole : List ℕ)
    → size ≡ length body
    → collect size body events ≡ replayed whole
    → (whole ≡ body ++ body_of events) × (length whole ≤ max_form_bytes)
unfolding collect
collected size body [] whole e h = absurd (cc)
collected size body (disconnect ∷ events) whole e h = absurd (cc)
collected size body (part chunk false ∷ events) whole e h =
    elim (Bool-cases (ltb max_form_bytes (size + length chunk))) [
      | inl large ↦ absurd (cc (rw large at h))
      | inr fits ↦
          let same : body ++ chunk ≡ whole = cc (rw fits at h) in
          let total = length-append body chunk in
          (sym same, rw (← same) (ground (arith, fits, e, total)))
    ]
collected size body (part chunk true ∷ events) whole e h =
    elim (Bool-cases (ltb max_form_bytes (size + length chunk))) [
      | inl large ↦ absurd (cc (rw large at h))
      | inr fits ↦
          let total = length-append body chunk in
          let rest =
            collected (size + length chunk) (body ++ chunk) events whole (omega (arith, e, total))
              (rw fits at h) in
          (rest.0 ∙ append_assoc body chunk (body_of events), rest.1)
    ]

-- A form that reaches the application arrives whole and has at most 64 KiB.
pub handle_http_bound :
    (events : List Event) (whole : List ℕ)
    → handle_http true events ≡ replayed whole
    → (whole ≡ body_of events) × (length whole ≤ max_form_bytes)
unfolding handle_http
handle_http_bound events whole h = collected 0 [] events whole refl h
