-- ===== src/Polling/Freshness/Response.antt =====
-- The whole response of evaluate_source_freshness.
use atlas_pulse.Prelude.{
  suc, ◌+◌, ◌≤◌, ◌≡◌, ◌≢◌, true, List, [], ◌∷◌, map, length, All, all, ok, arith, refl, ap, sym,
  ◌∙◌, unique, contains,
}
use atlas_pulse.Polling.Types.{
  SourceName, firms, gdelt, nws, usgs, Datetime, SourcePollPolicy, SourcePollState,
  SourceFreshnessItem, SourceFreshnessResponse, source_name_eq,
}
use atlas_pulse.Polling.Validate.Attempts.{IsUtc, require_utc-Decides}
use atlas_pulse.Polling.Freshness.{
  evaluate_source_freshness, validate_response, is_canonical, name_order,
}
use atlas_pulse.Polling.Freshness.Returns.{Stored, evaluate_policies-returns, is_item_aged}

length-map-source :
    (items : List SourceFreshnessItem) → length (map (λ i. i.source) items) ≡ length items
length-map-source [] = refl
length-map-source (i ∷ items) = ap suc (length-map-source items)

no_policies : (l : List SourcePollPolicy) → map (λ p. p.source) l ≡ [] → l ≡ []
no_policies [] h = refl
no_policies (p ∷ l) h = cc

name_order-le : (a : SourceName) → name_order a ≤ 3
unfolding name_order
name_order-le firms = omega arith
name_order-le gdelt = omega arith
name_order-le nws = omega arith
name_order-le usgs = omega arith

-- There are four names, so a canonical list has at most four.
length-is_canonical :
    (a : SourceName) (l : List SourceName)
    → is_canonical (a ∷ l) ≡ true
    → length l + name_order a ≤ 3
unfolding is_canonical
length-is_canonical a [] h = omega (arith, name_order-le a)
length-is_canonical a (b ∷ l) h = ground (arith, length-is_canonical b l)

length-is_canonical-le : (l : List SourceName) → is_canonical l ≡ true → length l ≤ 4
length-is_canonical-le [] h = omega arith
length-is_canonical-le (a ∷ l) h = omega (arith, length-is_canonical a l h)

validate_response-valid :
    (r : SourceFreshnessResponse)
    → r.items ≢ []
    → IsUtc r.generated_at
    → is_canonical (map (λ i. i.source) r.items) ≡ true
    → all (is_item_aged r.generated_at) r.items ≡ true
    → r.passed ≡ all (λ i. i.passed) r.items
    → validate_response r ≡ ok r
unfolding validate_response
validate_response-valid r some_items utc canonical aged passed = ground (
  arith,
  require_utc-Decides r.generated_at,
  length-map-source r.items,
  length-is_canonical-le (map (λ i. i.source) r.items) canonical,
)

module _ (policies : List SourcePollPolicy) (states : List SourcePollState) (now : Datetime) where
  -- On at least one policy, each accepted by its validator, in canonical order, with states
  -- known and at most one for each policy, of well-formed attempts under that policy, the
  -- evaluation at a UTC time raises nothing and returns a response of that time: one item for
  -- each policy in the policies' order, passed exactly if every item is.
  pub evaluate_source_freshness-returns :
      policies ≢ []
      → IsUtc now
      → is_canonical (map (λ p. p.source) policies) ≡ true
      → unique (map (λ s. s.source) states) ≡ true
      → all (λ s. contains s.source (map (λ p. p.source) policies)) states ≡ true
      → All (Stored now states) policies
      → (r : SourceFreshnessResponse) × (evaluate_source_freshness policies states now ≡ ok r)
        × (r.generated_at ≡ now)
        × (map (λ i. i.source) r.items ≡ map (λ p. p.source) policies)
        × (r.passed ≡ all (λ i. i.passed) r.items)
  unfolding evaluate_source_freshness
  evaluate_source_freshness-returns some_policies utc canonical distinct known stored =
      let (items, e, sources, aged) = evaluate_policies-returns now states policies stored in
      let r : SourceFreshnessResponse = record {
        generated_at = now;
        items = items;
        passed = all (λ i. i.passed) items;
      } in
      let valid =
        validate_response-valid r
          (λ h. some_policies (no_policies policies (sym sources ∙ ap (map (λ i. i.source)) h))) utc
          (rw sources canonical) aged refl in
      (r, ground (arith, require_utc-Decides now), refl, sources, refl)
