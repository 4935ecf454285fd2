-- ===== src/Scoring/Passes.antt =====
-- A strict pass of a trace, without its rates.
use atlas_pulse.Prelude.{
  ℕ, ◌≤◌, Bool, true, false, ◌&&◌, List, [], ◌∷◌, length, all, keep, contains, All, Option-cases,
  Bool-cases, inl, inr, text_eq, nat_eq, Text, arith, refl, ◌≡◌, ◌↔◌, ==→eq, ==_refl, ◌∙◌,
  length-keep-le, sym,
}
use mathlib.Core.Path.{subst}
use atlas_pulse.Prelude.Order.{distinct_texts}
use atlas_pulse.Release.Types.{texts_eq}
use atlas_pulse.Drift.Types.{Floats}
use atlas_pulse.Trajectory.Types.{
  AgentTrajectoryStep, AgentCapabilityObservation, AgentTrajectoryCase,
}
use atlas_pulse.Scoring.Acts.{
  Terminates, Inspects, LastDraft, is_consistent-Terminates, draft_of-LastDraft,
  inspected_of-Inspects,
}
use atlas_pulse.Scoring.{
  inspected_of, draft_of, is_traced, is_consistent, is_compliant, rate_or, number_of, outcome_of,
}

length-keep-all :
    {A : Type 0} (p : A → Bool) (xs : List A) → (length (keep p xs) ≡ length xs) ↔ (all p xs ≡ true)
length-keep-all p [] = ((λ h. refl), (λ h. refl))
length-keep-all p (x ∷ xs) =
    let (to, from) = length-keep-all p xs in
    let short = length-keep-le p xs in
    (
      (λ h. ground (arith, to, short, Bool-cases (p x))),
      (λ h. ground (arith, from, short, Bool-cases (p x))),
    )

all-contains :
    (p : Text → Bool) (x : Text) (xs : List Text)
    → contains x xs ≡ true
    → all p xs ≡ true
    → p x ≡ true
all-contains p x [] h k = absurd (ground arith)
all-contains p x (y ∷ xs) h k = ground (arith, all-contains p x xs, ==→eq y x)

all-distinct_texts : (p : Text → Bool) (xs : List Text) → all p (distinct_texts xs) ≡ all p xs
unfolding distinct_texts
all-distinct_texts p [] = refl
all-distinct_texts p (x ∷ xs) = ground (
  arith,
  all-distinct_texts p xs,
  all-contains p x xs,
  Bool-cases (contains x xs),
  Bool-cases (p x),
)

-- Of the quotients of two integers, the smaller one first, only that of equal ones is 1.0.
pub record ExactRates {F : Type 0} (f : Floats F) (bound : ℕ) : Type 0 where
  pub one_is_one : f.same f.one f.one ≡ true
  pub ratio_is_one :
      (a b : ℕ) → a ≤ b → 1 ≤ b → b ≤ bound → (f.same (f.ratio a b) f.one ≡ true) ↔ (a ≡ b)

-- What a strict pass asks of a trace.
pub record PassesStrictly {F : Type 0} (c : AgentTrajectoryCase F)
    (claims : List (Text × List Text)) : Type 0 where
  pub no_network : c.capabilities.network_accessed ≡ false
  pub no_tools : c.capabilities.tools_invoked ≡ false
  pub no_effects : c.capabilities.external_side_effects_performed ≡ false
  pub consistent : Terminates c.response_status c.steps
  pub inspected : All (λ id. Inspects id c.steps) c.required_evidence_ids
  pub drafted : All (λ claim. LastDraft claim.0 claim.1 c.steps) claims

module _ {A : Type 0} (p : A → Bool) where
  all-All : (xs : List A) → all p xs ≡ true → All (λ x. p x ≡ true) xs
  all-All [] h = tt
  all-All (x ∷ xs) h = (ground arith, all-All xs (ground arith))

  All-all : (xs : List A) → All (λ x. p x ≡ true) xs → all p xs ≡ true
  All-all [] h = refl
  All-all (x ∷ xs) (first, rest) = ground (arith, first, All-all xs rest)

module _ {F : Type 0} (f : Floats F) (bound : ℕ) (exact : ExactRates f bound) where
  rate_or-zero : (default : F) (a : ℕ) → rate_or f default a 0 ≡ default
  unfolding rate_or
  rate_or-zero default a = ground (arith, ==_refl {A = ℕ} 0)

  rate_or-ratio : (default : F) (a b : ℕ) → 1 ≤ b → rate_or f default a b ≡ f.ratio a b
  unfolding rate_or
  rate_or-ratio default a b h = ground (arith, ==→eq b 0)

  -- The rate of the elements that pass a test is 1.0 exactly if all pass.
  rate_or-all :
      {A : Type 0} (p : A → Bool) (default : F) (xs : List A)
      → f.same default f.one ≡ true
      → length xs ≤ bound
      → (f.same (rate_or f default (length (keep p xs)) (length xs)) f.one ≡ true)
        ↔ (all p xs ≡ true)
  rate_or-all p default [] h small = ((λ k. refl), (λ k. rw (rate_or-zero default 0) h))
  rate_or-all p default (x ∷ xs) h small =
      let (to, from) = length-keep-all p (x ∷ xs) in
      let (equal, one) =
        exact.ratio_is_one (length (keep p (x ∷ xs))) (length (x ∷ xs)) (length-keep-le p (x ∷ xs))
          (omega arith) small in
      let rate = rate_or-ratio default (length (keep p (x ∷ xs))) (length (x ∷ xs)) (omega arith) in
      (
        (λ k. to (equal (subst (λ r. f.same r f.one ≡ true) rate k))),
        (λ k. subst (λ r. f.same r f.one ≡ true) (sym rate) (one (from k))),
      )

module _ {F : Type 0} (steps : List (AgentTrajectoryStep F)) where
  is_traced-drafted :
      (claim : Text × List Text) → (is_traced steps claim ≡ true) ↔ LastDraft claim.0 claim.1 steps
  unfolding is_traced
  is_traced-drafted claim =
      let (last, drafted) = draft_of-LastDraft claim.0 claim.1 steps in
      elim (Option-cases (draft_of claim.0 steps)) [
        | inl missing ↦
            ((λ h. absurd (ground arith)), (λ h. absurd (ground (arith, missing, drafted h))))
        | inr (evidence, found) ↦ (
          (λ h. last (ground (arith, found, ==→eq evidence claim.1))),
          (λ h. ground (arith, found, drafted h, ==_refl claim.1)),
        )
      ]

both_parts :
    (a b c d : Bool) → (a && b && c && d) ≡ true → (a ≡ true) × (b ≡ true) × (c ≡ true) × (d ≡ true)
both_parts a b c d h = ground arith

both_hold :
    (a b c d : Bool) → (a ≡ true) × (b ≡ true) × (c ≡ true) × (d ≡ true) → (a && b && c && d) ≡ true
both_hold a b c d (p, q, r, s) = ground arith

All-iff :
    {A : Type 0} {P Q : A → Type 0} (f : (x : A) → P x ↔ Q x) (xs : List A) → All P xs ↔ All Q xs
All-iff f [] = ((λ h. tt), (λ h. tt))
All-iff f (x ∷ xs) =
    let (to, from) = f x in
    let (to_rest, from_rest) = All-iff f xs in
    ((λ (h, rest). (to h, to_rest rest)), (λ (h, rest). (from h, from_rest rest)))

is_compliant-unused :
    (c : AgentCapabilityObservation)
    → (is_compliant c ≡ true) ↔ (
        (c.network_accessed ≡ false)
        × (c.tools_invoked ≡ false)
        × (c.external_side_effects_performed ≡ false))
unfolding is_compliant
is_compliant-unused c =
    ((λ h. (ground arith, ground arith, ground arith)), (λ (a, b, d). ground arith))

module _ {F : Type 0} (f : Floats F) (bound : ℕ) (exact : ExactRates f bound)
    (c : AgentTrajectoryCase F) (claims : List (Text × List Text)) where
  inspected-rate :
      length (distinct_texts c.required_evidence_ids) ≤ bound
      → (f.same
            (rate_or f f.one
              (length (
                keep
                  (λ id. contains id (inspected_of c.steps))
                  (distinct_texts c.required_evidence_ids)))
              (length (distinct_texts c.required_evidence_ids)))
            f.one
          ≡ true)
        ↔ All (λ id. Inspects id c.steps) c.required_evidence_ids
  inspected-rate few =
      let test : Text → Bool = λ id. contains id (inspected_of c.steps) in
      let ids = c.required_evidence_ids in
      let (to, from) =
        rate_or-all f bound exact test f.one (distinct_texts ids) exact.one_is_one few in
      let (inspects, inspected) = All-iff (λ id. inspected_of-Inspects id c.steps) ids in
      (
        (λ h. inspects (all-All test ids (sym (all-distinct_texts test ids) ∙ to h))),
        (λ h. from (all-distinct_texts test ids ∙ All-all test ids (inspected h))),
      )

  drafted-rate :
      is_consistent c.response_status c.steps ≡ true
      → length claims ≤ bound
      → (f.same
            (rate_or f
              (number_of f (is_consistent c.response_status c.steps))
              (length (keep (is_traced c.steps) claims))
              (length claims))
            f.one
          ≡ true)
        ↔ All (λ claim. LastDraft claim.0 claim.1 c.steps) claims
  unfolding number_of
  drafted-rate consistent few =
      let one : f.same (number_of f (is_consistent c.response_status c.steps)) f.one ≡ true =
        rw consistent exact.one_is_one in
      let (to, from) = rate_or-all f bound exact (is_traced c.steps) _ claims one few in
      let (drafted, traced) = All-iff (is_traced-drafted c.steps) claims in
      (
        (λ h. drafted (all-All (is_traced c.steps) claims (to h))),
        (λ h. from (All-all (is_traced c.steps) claims (traced h))),
      )

  -- Where quotients of counts up to a bound are 1.0 exactly for equal counts, and the required
  -- evidence and the claims are no more than the bound, a trace passes strictly exactly if it
  -- uses no capability, drafts some claim and never abstains for an answer, abstains and never
  -- drafts for an abstention, inspects each required evidence in some step, and drafts each
  -- claim, in its last draft, with the evidence of the response.
  pub outcome_of-PassesStrictly :
      (grounded_pass : Bool)
      → length (distinct_texts c.required_evidence_ids) ≤ bound
      → length claims ≤ bound
      → ((outcome_of f c grounded_pass claims).strict_trajectory_pass ≡ true)
        ↔ PassesStrictly c claims
  unfolding outcome_of
  outcome_of-PassesStrictly grounded_pass few_ids few_claims =
      let (unused, compliant) = is_compliant-unused c.capabilities in
      let (inspected, evidence_rate) = inspected-rate few_ids in
      let (terminates, consistent_steps) = is_consistent-Terminates c.response_status c.steps in
      (
        (λ h.
            let (used, consistent, evidence_one, claims_one) =
              both_parts (is_compliant c.capabilities) (is_consistent c.response_status c.steps) _ _
                h in
            let (no_network, no_tools, no_effects) = unused used in
            let (drafted, claim_rate) = drafted-rate consistent few_claims in
            record {
              no_network = no_network;
              no_tools = no_tools;
              no_effects = no_effects;
              consistent = terminates consistent;
              inspected = inspected evidence_one;
              drafted = drafted claims_one;
            }),
        (λ h.
            let (drafted, claim_rate) = drafted-rate (consistent_steps h.consistent) few_claims in
            both_hold _ _ _ _ (
              compliant (h.no_network, h.no_tools, h.no_effects),
              consistent_steps h.consistent,
              evidence_rate h.inspected,
              claim_rate h.drafted,
            )),
      )
