-- ===== src/HttpClient/Attempts.antt =====
-- The attempts of a fetch, and its outcome.
use atlas_pulse.Prelude.{
  ℕ, ◌+◌, ◌≤◌, ◌<◌, Option, none, some, List, [], ◌∷◌, ◌++◌, length, Result, ok, raise, raise_if,
  nat_eq, Text, arith, refl, ◌≡◌, length-append, returns_before, Result-cases, inl, inr, IfSome,
  Bool-cases, ◌⊎◌, Bool, true, false, any,
}
use mathlib.Core.Path.{subst}
use atlas_pulse.Ingestion.{CycleError, FetchedDocument}
use atlas_pulse.HttpClient.{
  Chunk, bytes, broken, undecodable, Answer, responded, transport_error, other_error, HttpSettings,
  exceeds, is_retryable_status, is_success_status, read_chunks, source_url_of, fetch_attempt,
  RetryLoop, fetch,
}

-- What the retry library documents: the outcome is that of one of the attempts, all before it failed
-- in a way that is retried, and one that fails so is the last that is allowed.
pub record IsRetrying (retrying : RetryLoop) : Type 0 where
  pub stops :
      (bound : ℕ) (body : ℕ → Result CycleError FetchedDocument)
      → 1 ≤ bound
      → (last : ℕ) × (1 ≤ last)
        × (last ≤ bound)
        × (retrying bound body ≡ body last)
        × ((n : ℕ) → 1 ≤ n → n < last → (k : ℕ) × (body n ≡ raise (CycleError.retryable k)))
        × ((k : ℕ) → body last ≡ raise (CycleError.retryable k) → last ≡ bound)

abbrev pub FitsIn : Option ℕ → Text → Type 0
FitsIn limit raw = IfSome limit (λ l. length raw ≤ l)

read_chunks-FitsIn :
    (limit : Option ℕ) (attempt : ℕ) (raw : Text) (chunks : List Chunk) (all_read : Text)
    → FitsIn limit raw
    → read_chunks limit attempt raw chunks ≡ ok all_read
    → FitsIn limit all_read
unfolding read_chunks exceeds
read_chunks-FitsIn none attempt raw chunks all_read fits h = tt
read_chunks-FitsIn (some l) attempt raw [] all_read fits h = ground arith
read_chunks-FitsIn (some l) attempt raw (broken ∷ chunks) all_read fits h = absurd (ground arith)
read_chunks-FitsIn (some l) attempt raw (undecodable ∷ chunks) all_read fits h =
    absurd (ground arith)
read_chunks-FitsIn (some l) attempt raw (bytes chunk ∷ chunks) all_read fits h =
    let (_, small, rest) =
      returns_before (raise_if _ (CycleError.permanent attempt))
        (λ _. read_chunks (some l) attempt (raw ++ chunk) chunks) all_read h in
    read_chunks-FitsIn (some l) attempt (raw ++ chunk) chunks all_read
      (ground (arith, length-append raw chunk)) rest

-- The other errors of the HTTP library: of the call, or of a chunk of the response.
abbrev pub is_undecodable : Chunk → Bool
is_undecodable (bytes chunk) = false
is_undecodable broken = false
is_undecodable undecodable = true

abbrev pub IsForeign : Answer → Type 0
IsForeign (responded r) = any is_undecodable r.chunks ≡ true
IsForeign transport_error = ⊥
IsForeign other_error = Unit

-- An error of an attempt has its number, or is another error of the HTTP library.
abbrev Fails : ℕ → Type 0 → CycleError → Type 0
Fails attempt foreign e =
    (e ≡ CycleError.retryable attempt)
    ⊎ ((e ≡ CycleError.permanent attempt) ⊎ ((e ≡ CycleError.unexpected) × foreign))

read_chunks-attempt :
    (limit : Option ℕ) (attempt : ℕ) (raw : Text) (chunks : List Chunk) (e : CycleError)
    → read_chunks limit attempt raw chunks ≡ raise e
    → Fails attempt (any is_undecodable chunks ≡ true) e
unfolding read_chunks
read_chunks-attempt limit attempt raw [] e h = absurd (ground arith)
read_chunks-attempt limit attempt raw (broken ∷ chunks) e h = inl (ground arith)
read_chunks-attempt limit attempt raw (undecodable ∷ chunks) e h = inr (inr (ground arith, refl))
read_chunks-attempt limit attempt raw (bytes chunk ∷ chunks) e h =
    elim (Bool-cases (exceeds limit (length raw + length chunk))) [
      | inl over ↦ inr (inl (ground arith))
      | inr within ↦ read_chunks-attempt limit attempt (raw ++ chunk) chunks e (ground arith)
    ]

FitsIn-nil : (limit : Option ℕ) → FitsIn limit []
FitsIn-nil none = tt
FitsIn-nil (some l) = omega arith

fetch_attempt-document :
    (c : HttpSettings) (attempt : ℕ) (answer : Answer) (d : FetchedDocument)
    → fetch_attempt c attempt answer ≡ ok d
    → (d.transport_attempts ≡ attempt) × FitsIn c.max_response_bytes d.raw
unfolding fetch_attempt
fetch_attempt-document c attempt transport_error d h = absurd (ground arith)
fetch_attempt-document c attempt other_error d h = absurd (ground arith)
fetch_attempt-document c attempt (responded r) d h =
    elim (Result-cases (read_chunks c.max_response_bytes attempt [] r.chunks)) [
      | inl (raw, all_read) ↦
          let document : FetchedDocument = record {
            raw = raw;
            fetched_at = r.read_at;
            source_url = source_url_of c.public_source_url r.url;
            content_type = r.content_type;
            transport_attempts = attempt;
          } in
          let same : document ≡ d = ground arith in
          subst (λ d. (d.transport_attempts ≡ attempt) × FitsIn c.max_response_bytes d.raw) same
            (
              refl,
              read_chunks-FitsIn c.max_response_bytes attempt [] r.chunks raw
                  (FitsIn-nil c.max_response_bytes) all_read,
            )
      | inr (e, raised) ↦ absurd (ground arith)
    ]

fetch_attempt-error :
    (c : HttpSettings) (attempt : ℕ) (answer : Answer) (e : CycleError)
    → fetch_attempt c attempt answer ≡ raise e
    → Fails attempt (IsForeign answer) e
unfolding fetch_attempt
fetch_attempt-error c attempt transport_error e h = inl (ground arith)
fetch_attempt-error c attempt other_error e h = inr (inr (ground arith, tt))
fetch_attempt-error c attempt (responded r) e h =
    elim (Result-cases (read_chunks c.max_response_bytes attempt [] r.chunks)) [
      | inl (raw, all_read) ↦ ground (
        arith,
        Bool-cases (is_retryable_status r.status_code),
        Bool-cases (is_success_status r.status_code),
      )
      | inr (raised, failed) ↦ ground (
        arith,
        read_chunks-attempt c.max_response_bytes attempt [] r.chunks raised failed,
        Bool-cases (is_retryable_status r.status_code),
        Bool-cases (is_success_status r.status_code),
      )
    ]

module _ (retrying : RetryLoop) (documented : IsRetrying retrying) (c : HttpSettings)
    (answers : ℕ → Answer) (positive : 1 ≤ c.max_attempts) where
  -- A document that is fetched holds no more bytes than the limit, if there is one, and was fetched in
  -- 1 to max_attempts attempts, of which all but the last failed in a way that is retried.
  pub fetch-document :
      (d : FetchedDocument)
      → fetch retrying c answers ≡ ok d
      → FitsIn c.max_response_bytes d.raw
        × (1 ≤ d.transport_attempts)
        × (d.transport_attempts ≤ c.max_attempts)
        × ((n : ℕ)
            → 1 ≤ n
            → n < d.transport_attempts
            → fetch_attempt c n (answers n) ≡ raise (CycleError.retryable n))
  unfolding fetch
  fetch-document d h =
      let (last, low, high, outcome, earlier, _) =
        documented.stops c.max_attempts (λ n. fetch_attempt c n (answers n)) positive in
      let (count, fits) = fetch_attempt-document c last (answers last) d (ground arith) in
      (
        fits,
        ground arith,
        ground arith,
        λ n one below.
            let (k, failed) = earlier n one (ground arith) in
            ground (arith, fetch_attempt-error c n (answers n) (CycleError.retryable k) failed),
      )

  -- Through a loop that retries as its library documents, with at least one attempt allowed, a
  -- fetch that fails has made all max_attempts attempts and failed in a way that is retried, or
  -- failed permanently and says at which attempt from 1 to max_attempts, or lets an error of
  -- the HTTP library through that is no transport error and that one of these attempts has met.
  pub fetch-error :
      (e : CycleError)
      → fetch retrying c answers ≡ raise e
      → (e ≡ CycleError.retryable c.max_attempts)
        ⊎ ((n : ℕ) × (1 ≤ n)
            × (n ≤ c.max_attempts)
            × ((e ≡ CycleError.permanent n)
                ⊎ ((e ≡ CycleError.unexpected) × IsForeign (answers n))))
  unfolding fetch
  fetch-error e h =
      let (last, low, high, outcome, _, exhausted) =
        documented.stops c.max_attempts (λ n. fetch_attempt c n (answers n)) positive in
      let failed : fetch_attempt c last (answers last) ≡ raise e = ground arith in
      elim (fetch_attempt-error c last (answers last) e failed) [
        | inl retried ↦ inl (ground (arith, exhausted last (ground arith)))
        | inr finally ↦ inr (last, low, high, finally)
      ]
