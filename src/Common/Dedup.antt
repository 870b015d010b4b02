-- ===== src/Common/Dedup.antt =====
-- trackr_common.py, `offer_key` and `deduplicate_offers`.
use summer_intern.Prelude.{Bool, List, [], ◌∷◌, String, ◌==◌, string_eq, if◌then◌else◌, contains}
use Prim.Native.String.{◌++◌ as append}
use summer_intern.Common.Urls.{Urllib, canonical_offer_url}

-- The entries of a collected offer that the deduplication reads; a missing one is "".
pub record RawOffer : Type 0 where
  pub name : String
  pub company : String
  pub offer_url : String

module _ (lib : Urllib) where
  unfoldable pub offer_key : RawOffer → String
  offer_key o =
      let url = lib.strip o.offer_url in
      if url == ""
      then append "fallback:"
          (append (lib.lower (lib.strip o.company)) (append ":" (lib.lower (lib.strip o.name))))
      else append "url:" (canonical_offer_url lib url)

  -- No canonical form: the offer is skipped.
  abbrev pub has_no_url : RawOffer → Bool
  has_no_url o = canonical_offer_url lib (lib.strip o.offer_url) == ""

  -- The loop of `deduplicate_offers`, without its counts for the log.
  unfoldable pub dedup_from : List String → List RawOffer → List RawOffer
  dedup_from seen [] = []
  dedup_from seen (o ∷ os) =
      let kept = o ∷ dedup_from (offer_key o ∷ seen) os in
      let rest = dedup_from seen os in
      if has_no_url o then rest else if contains seen (offer_key o) then rest else kept

  unfoldable pub deduplicate_offers : List RawOffer → List RawOffer
  unfolding dedup_from
  deduplicate_offers os = dedup_from [] os
