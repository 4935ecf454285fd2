-- ===== src/Ingestion/Attempts.antt =====
-- The attempt that closes a cycle.
use atlas_pulse.Prelude.{
  ℕ, ◌≤◌, ◌≡◌, ◌≢◌, not, Option, none, some, List, length, ok, raise, IfSome, arith, refl, inl, inr,
  length-keep-le, Result-cases,
}
use atlas_pulse.Polling.Types.{Datetime, SourcePollStage, SourcePollAttempt}
use atlas_pulse.Polling.Validate.{is_some, validate_attempt}
use atlas_pulse.Polling.Validate.Attempts.{IsUtc, WellFormed, validate_attempt-iff-WellFormed}
use atlas_pulse.MemoryBus.{PublishResult}
use atlas_pulse.Ingestion.{
  CycleError, FetchedDocument, NormalizedBatch, Collaborators, Ended, finished, broken, attempts_of,
  published_count, run, generated_at_of, basis_of, closing_attempt,
}

-- No more than the 20 transport attempts that a poll may count.
abbrev pub IsBounded : CycleError → Type 0
IsBounded e = attempts_of e 0 ≤ 20

-- What the collaborators keep to: 1 to 20 transport attempts, UTC timestamps, and one outcome for
-- each event.
pub record Respects {E : Type 0} (c : Collaborators E) : Type 0 where
  pub fetched :
      (f : FetchedDocument)
      → c.fetch ≡ ok f
      → (1 ≤ f.transport_attempts) × (f.transport_attempts ≤ 20)
  pub fetch_error : (e : CycleError) → c.fetch ≡ raise e → IsBounded e
  pub write_error : (f : FetchedDocument) (e : CycleError) → c.write f ≡ raise e → IsBounded e
  pub normalize_error :
      (f : FetchedDocument) (e : CycleError) → c.normalize f ≡ raise e → IsBounded e
  pub publish_error :
      (events : List E) (e : CycleError) → c.publish_many events ≡ raise e → IsBounded e
  pub normalized :
      (f : FetchedDocument) (b : NormalizedBatch E) → c.normalize f ≡ ok b → IsUtc b.generated_at
  pub published :
      (events : List E) (outcomes : List PublishResult)
      → c.publish_many events ≡ ok outcomes
      → length outcomes ≡ length events

attempts_of-le : (e : CycleError) (n : ℕ) → IsBounded e → n ≤ 20 → attempts_of e n ≤ 20
unfolding attempts_of
attempts_of-le e n h b = ground arith

module _ {E : Type 0} where
  -- How a cycle of such collaborators ends.
  abbrev IsRegular : Ended E → Type 0
  IsRegular (finished f snapshot b outcomes) =
      (1 ≤ f.transport_attempts)
      × (f.transport_attempts ≤ 20)
      × IsUtc b.generated_at
      × (length outcomes ≡ length b.events)
  IsRegular (broken e stage n b) =
      (attempts_of e n ≤ 20) × (stage ≢ SourcePollStage.complete) × IfSome (generated_at_of b) IsUtc

  dated_with_basis :
      (b : Option (NormalizedBatch E)) → is_some (generated_at_of b) ≡ is_some (basis_of b)
  unfolding generated_at_of basis_of
  dated_with_basis none = refl
  dated_with_basis (some b) = refl

  run-IsRegular : (c : Collaborators E) → Respects c → IsRegular (run c)
  unfolding run generated_at_of
  run-IsRegular c r = elim (Result-cases c.fetch) [
    | inr (e, p) ↦ ground (arith, attempts_of-le e 0 (r.fetch_error e p))
    | inl (f, p) ↦ elim (Result-cases (c.write f)) [
      | inr (e, q) ↦
          ground (arith, r.fetched f p, attempts_of-le e f.transport_attempts (r.write_error f e q))
      | inl (snapshot, q) ↦ elim (Result-cases (c.normalize f)) [
        | inr (e, t) ↦
            ground (
              arith,
              r.fetched f p,
              attempts_of-le e f.transport_attempts (r.normalize_error f e t),
            )
        | inl (b, t) ↦ elim (Result-cases (c.publish_many b.events)) [
          | inr (e, u) ↦ ground (
            arith,
            r.fetched f p,
            r.normalized f b t,
            attempts_of-le e f.transport_attempts (r.publish_error b.events e u),
          )
          | inl (outcomes, u) ↦
              ground (arith, r.fetched f p, r.normalized f b t, r.published b.events outcomes u)
        ]
      ]
    ]
  ]

  closing_attempt-WellFormed :
      (attempt : SourcePollAttempt) (now : Datetime) (ended : Ended E)
      → WellFormed attempt
      → IsUtc now
      → attempt.started_at.instant ≤ now.instant
      → IsRegular ended
      → WellFormed (closing_attempt attempt now ended)
  unfolding closing_attempt published_count
  closing_attempt-WellFormed attempt now (finished f snapshot b outcomes) w utc later regular =
      let le = length-keep-le (λ o. not o.deduplicated) outcomes in
      record {
        identified = w.identified;
        bounded = regular.1;
        started = w.started;
        completed = utc;
        ordered = later;
        generated = regular.2;
        based = refl;
        lifecycle = (refl, refl, refl, refl, regular.0, ground (arith, le, regular));
      }
  closing_attempt-WellFormed attempt now (broken e stage n b) w utc later regular = record {
    identified = w.identified;
    bounded = regular.0;
    started = w.started;
    completed = utc;
    ordered = later;
    generated = regular.2;
    based = dated_with_basis b;
    lifecycle = (refl, refl, regular.1, refl, refl);
  }

  -- With collaborators that keep to their bounds, whatever stage the cycle ends in, the attempt that
  -- closes a well-formed attempt at a later UTC time passes the validator.
  pub closing_attempt-validates :
      (c : Collaborators E) (attempt : SourcePollAttempt) (now : Datetime)
      → Respects c
      → WellFormed attempt
      → IsUtc now
      → attempt.started_at.instant ≤ now.instant
      → validate_attempt (closing_attempt attempt now (run c))
        ≡ ok (closing_attempt attempt now (run c))
  closing_attempt-validates c attempt now r w utc later =
      (validate_attempt-iff-WellFormed (closing_attempt attempt now (run c))).1
        (closing_attempt-WellFormed attempt now (run c) w utc later (run-IsRegular c r))
