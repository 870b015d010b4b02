-- ===== src/Preferences/Query.antt =====
-- The SQL of `matching_query` and the Python of `offer_is_open` and `offer_matches` agree.
use summer_intern.Prelude.{
  Bool, true, false, ◌&&◌, ◌||◌, Option, List, [], ◌∷◌, String, ◌==◌, string_eq, ◌≡◌, refl, ap, ◌∙◌,
  if◌then◌else◌, arith, any,
}
use summer_intern.Model.{Db, Date, Preference, Offer, OfferSource}
use summer_intern.Common.Dates.{dates_are_open}
use summer_intern.Preferences.Matching.{
  sources_of, is_empty, in_scope, source_is_open, source_matches, offer_matches, offer_is_open,
  sql_scope, query_selects, offer_in_scope,
}

or-false : (b : Bool) → (b || false) ≡ b
or-false true = refl
or-false false = refl

module _ (season : String) (today : Date) (p : Preference) where
  scope_agrees :
      (is_open : Bool) (region programme_type : String) (start_term : Option String)
      (opening closing : Option Date)
      → sql_scope season today p is_open region programme_type start_term opening closing
        ≡ (is_open && in_scope today p region programme_type start_term opening closing)
  unfolding sql_scope in_scope
  scope_agrees is_open region programme_type start_term opening closing = ground arith

  any_agrees :
      (ss : List OfferSource)
      → any
          (λ (s : OfferSource).
            s.season == season
            && sql_scope season today p s.is_open s.region s.programme_type s.start_term
                s.opening_date s.closing_date)
          ss
        ≡ any (source_matches season today p) ss
  any_agrees [] = refl
  any_agrees (s ∷ ss) = ground (
    arith,
    any_agrees ss,
    scope_agrees s.is_open s.region s.programme_type s.start_term s.opening_date s.closing_date,
  )

  -- A source that matches is open.
  any_open :
      (ss : List OfferSource)
      → any (source_matches season today p) ss ≡ true
      → any (source_is_open season today) ss ≡ true
  unfolding in_scope
  any_open [] h = h
  any_open (s ∷ ss) h = ground (arith, any_open ss)

  implied : (a b c : Bool) → (b ≡ true → c ≡ true) → (a && b) ≡ ((a && c) && b)
  implied a b c h = ground arith

  by_sources :
      (o : Offer) (ss : List OfferSource)
      → (o.is_open
          && (any
                (λ (s : OfferSource).
                  s.season == season
                  && sql_scope season today p s.is_open s.region s.programme_type s.start_term
                      s.opening_date s.closing_date)
                ss
              || is_empty ss
                && sql_scope season today p o.is_open o.region o.programme_type o.start_term
                    o.opening_date o.closing_date))
        ≡ ((if is_empty ss
              then o.is_open && dates_are_open o.opening_date o.closing_date today
              else o.is_open && any (source_is_open season today) ss)
            && (if is_empty ss
                then offer_in_scope season today p o
                else any (source_matches season today p) ss))
  unfolding in_scope
  by_sources o [] = ground (
    arith,
    scope_agrees o.is_open o.region o.programme_type o.start_term o.opening_date o.closing_date,
  )
  by_sources o (s ∷ ss) =
      ap (λ b. o.is_open && (b || false)) (any_agrees (s ∷ ss))
      ∙ ap (λ b. o.is_open && b) (or-false (any (source_matches season today p) (s ∷ ss)))
      ∙ implied o.is_open (any (source_matches season today p) (s ∷ ss))
          (any (source_is_open season today) (s ∷ ss)) (any_open (s ∷ ss))

  -- `matching_query` selects an offer exactly when it is open and matches by the Python tests, with
  -- sources or without.
  pub query_selects_exact :
      (db : Db) (o : Offer)
      → query_selects season today p db o
        ≡ (offer_is_open season today o db && offer_matches season today o p db)
  unfolding query_selects offer_is_open offer_matches
  query_selects_exact db o = by_sources o (sources_of o db)
