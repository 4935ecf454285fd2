-- ===== src/Tests/HttpClient.antt =====
-- A fetch through a loop that retries as its library documents.
use atlas_pulse.Prelude.{
  ℕ, zero, suc, ◌+◌, ◌-◌, ◌≤◌, ◌<◌, ◌≡◌, none, some, [], ◌∷◌, codes, Result, ok, raise, refl, arith,
  ℕ_discrete, inl, inr, ◌⊎◌, Bool-discrete,
}
use atlas_pulse.Prelude.{ltb, Bool-cases}
use mathlib.Core.Path.{subst}
use atlas_pulse.Ingestion.{CycleError, FetchedDocument}
use atlas_pulse.HttpClient.{
  bytes, Answer, responded, transport_error, HttpSettings, exceeds, is_retryable_status,
  is_success_status, read_chunks, source_url_of, fetch_attempt, RetryLoop, fetch,
}
use atlas_pulse.HttpClient.Attempts.{IsForeign, IsRetrying, FitsIn, fetch-document, fetch-error}
use atlas_pulse.Tests.Polling.{at}

http_program : Unit {0}
unfolding ℕ_discrete Bool-discrete exceeds is_retryable_status is_success_status read_chunks
    source_url_of fetch_attempt fetch
http_program = tt

abbrev Outcome : Type 0
Outcome = Result CycleError FetchedDocument

-- The outcome of an attempt, or of what follows if it is retried.
abbrev or_again : Outcome → Outcome → Outcome
or_again (ok d) again = ok d
or_again (raise (CycleError.retryable k)) again = again
or_again (raise (CycleError.permanent k)) again = raise (CycleError.permanent k)
or_again (raise (CycleError.other_fetch k)) again = raise (CycleError.other_fetch k)
or_again (raise CycleError.unexpected) again = raise CycleError.unexpected

or_again-kept :
    (o again : Outcome) → ((k : ℕ) → ¬ (o ≡ raise (CycleError.retryable k))) → or_again o again ≡ o
or_again-kept (ok d) again kept = refl
or_again-kept (raise (CycleError.retryable k)) again kept = absurd (kept k refl)
or_again-kept (raise (CycleError.permanent k)) again kept = refl
or_again-kept (raise (CycleError.other_fetch k)) again kept = refl
or_again-kept (raise CycleError.unexpected) again kept = refl

-- At most `more` attempts after the one of number `n`.
abbrev retry_from : ℕ → ℕ → (ℕ → Outcome) → Outcome
retry_from zero n body = body n
retry_from (suc more) n body = or_again (body n) (retry_from more (suc n) body)

abbrev retrying : RetryLoop
retrying bound body = retry_from (bound - 1) 1 body

abbrev Stops : ℕ → ℕ → (ℕ → Outcome) → ℕ → Type 0
Stops more n body last =
    (n ≤ last)
    × (last ≤ n + more)
    × (retry_from more n body ≡ body last)
    × ((i : ℕ) → n ≤ i → i < last → (k : ℕ) × (body i ≡ raise (CycleError.retryable k)))
    × ((k : ℕ) → body last ≡ raise (CycleError.retryable k) → last ≡ n + more)

is_retried :
    (o : Outcome)
    → ((k : ℕ) × (o ≡ raise (CycleError.retryable k)))
      ⊎ ((k : ℕ) → ¬ (o ≡ raise (CycleError.retryable k)))
is_retried (ok d) = inr (λ k h. cc)
is_retried (raise (CycleError.retryable k)) = inl (k, refl)
is_retried (raise (CycleError.permanent j)) = inr (λ k h. cc)
is_retried (raise (CycleError.other_fetch j)) = inr (λ k h. cc)
is_retried (raise CycleError.unexpected) = inr (λ k h. cc)

abbrev Retried : (ℕ → Outcome) → ℕ → Type 0
Retried body i = (k : ℕ) × (body i ≡ raise (CycleError.retryable k))

Retried-from :
    (body : ℕ → Outcome) (n last : ℕ)
    → Retried body n
    → ((i : ℕ) → suc n ≤ i → i < last → Retried body i)
    → (i : ℕ) → n ≤ i
    → i < last
    → Retried body i
Retried-from body n last first later i low high = elim (Bool-cases (ltb n i)) [
  | inl above ↦ later i (ground arith) high
  | inr equal ↦ (let same : n ≡ i = ground arith in subst (Retried body) same first)
]

retry_from-Stops : (more n : ℕ) (body : ℕ → Outcome) → (last : ℕ) × Stops more n body last
retry_from-Stops zero n body =
    (n, (omega arith, omega arith, refl, λ i low high. absurd (omega arith), λ k h. omega arith))
retry_from-Stops (suc more) n body = elim (is_retried (body n)) [
  | inl (k, failed) ↦
      let (last, (low, high, outcome, earlier, exhausted)) = retry_from-Stops more (suc n) body in
      (
        last,
        (
          omega arith,
          omega arith,
          rw failed outcome,
          Retried-from body n last (k, failed) earlier,
          λ k h. omega (arith, exhausted k h),
        ),
      )
  | inr kept ↦ (
    n,
    (
      omega arith,
      omega arith,
      or_again-kept (body n) (retry_from more (suc n) body) kept,
      λ i low high. absurd (omega arith),
      λ k h. absurd (kept k h),
    ),
  )
]

retrying-IsRetrying : IsRetrying retrying
retrying-IsRetrying = record {
  stops = λ bound body positive.
      let (last, (low, high, outcome, earlier, exhausted)) = retry_from-Stops (bound - 1) 1 body in
      (last, low, omega arith, outcome, earlier, λ k h. omega (arith, exhausted k h));
}

abbrev settings : HttpSettings
settings = record { public_source_url = none; max_response_bytes = some 4; max_attempts = 3 }

-- A server that fails once and then responds.
abbrev answers : ℕ → Answer
answers zero = transport_error
answers (suc zero) = transport_error
answers (suc (suc n)) = responded (record {
  status_code = 200;
  url = codes "u";
  content_type = none;
  chunks = bytes (codes "ab") ∷ bytes (codes "cd") ∷ [];
  read_at = at 7;
})

abbrev document : FetchedDocument
document = record {
  raw = codes "abcd";
  fetched_at = at 7;
  source_url = codes "u";
  content_type = none;
  transport_attempts = 2;
}

fetched : fetch retrying settings answers ≡ ok document
unfolding http_program
fetched = refl

fetch-document_example :
    FitsIn (some 4) (codes "abcd")
    × (1 ≤ 2)
    × (2 ≤ 3)
    × ((n : ℕ)
        → 1 ≤ n
        → n < 2
        → fetch_attempt settings n (answers n) ≡ raise (CycleError.retryable n))
fetch-document_example =
    fetch-document retrying retrying-IsRetrying settings answers (omega arith) document fetched

-- A server that is never reached.
fetch-error_example :
    (CycleError.retryable 3 ≡ CycleError.retryable 3)
    ⊎ ((n : ℕ) × (1 ≤ n)
        × (n ≤ 3)
        × ((CycleError.retryable 3 ≡ CycleError.permanent n)
            ⊎ ((CycleError.retryable 3 ≡ CycleError.unexpected) × IsForeign transport_error)))
unfolding http_program
fetch-error_example =
    fetch-error retrying retrying-IsRetrying settings (λ n. transport_error) (omega arith)
      (CycleError.retryable 3) refl
