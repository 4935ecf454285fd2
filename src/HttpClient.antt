-- ===== src/HttpClient.antt =====
-- sources/http.py: RetryingHttpClient, which fetches a document with bounded retries. What the HTTP
-- library answers at an attempt is data, and the loop of the retry library is a parameter.
pub mod Attempts
use atlas_pulse.Prelude.{
  ℕ, ◌+◌, Bool, true, false, ◌||◌, ◌&&◌, not, Option, none, some, List, [], ◌∷◌, ◌++◌, length,
  Result, ok, raise, ◌>>=◌, ◌>>◌, raise_if, ltb, leb, ◌==◌, nat_eq, Text, if◌then◌else◌,
}
use atlas_pulse.Polling.Types.{Datetime}
use atlas_pulse.Ingestion.{CycleError, FetchedDocument}

-- What `aiter_bytes` yields: bytes, or a transport error, or another of its errors, such as that of a
-- content that it cannot decode.
pub data Chunk : Type 0 where
  bytes : Text → Chunk
  broken undecodable : Chunk

pub record Response : Type 0 where
  pub status_code : ℕ
  pub url : Text
  pub content_type : Option Text
  pub chunks : List Chunk
  pub read_at : Datetime

-- `stream` responds, or raises a transport error, or another of its errors, such as those of an address
-- that is not valid and of too many redirects.
pub data Answer : Type 0 where
  responded : Response → Answer
  transport_error other_error : Answer

-- The settings that a fetch reads.
pub record HttpSettings : Type 0 where
  pub public_source_url : Option Text
  pub max_response_bytes : Option ℕ
  pub max_attempts : ℕ

unfoldable pub exceeds : Option ℕ → ℕ → Bool
exceeds none size = false
exceeds (some limit) size = ltb limit size

unfoldable pub is_retryable_status : ℕ → Bool
is_retryable_status status = status == 429 || leb 500 status

unfoldable pub is_success_status : ℕ → Bool
is_success_status status = leb 200 status && ltb status 300

-- The chunks after the bytes that were read, at the attempt of a number. An error that is no transport
-- error is not caught.
unfoldable pub read_chunks : Option ℕ → ℕ → Text → List Chunk → Result CycleError Text
read_chunks limit attempt raw [] = ok raw
read_chunks limit attempt raw (broken ∷ chunks) = raise (CycleError.retryable attempt)
read_chunks limit attempt raw (undecodable ∷ chunks) = raise CycleError.unexpected
read_chunks limit attempt raw (bytes chunk ∷ chunks) = do
  raise_if (exceeds limit (length raw + length chunk)) (CycleError.permanent attempt)
  read_chunks limit attempt (raw ++ chunk) chunks

unfoldable pub source_url_of : Option Text → Text → Text
source_url_of none url = url
source_url_of (some public_url) url = if leb (length public_url) 0 then url else public_url

-- The body of the loop.
unfoldable pub fetch_attempt : HttpSettings → ℕ → Answer → Result CycleError FetchedDocument
fetch_attempt c attempt transport_error = raise (CycleError.retryable attempt)
fetch_attempt c attempt other_error = raise CycleError.unexpected
fetch_attempt c attempt (responded r) = do
  raise_if (is_retryable_status r.status_code) (CycleError.retryable attempt)
  raise_if (not (is_success_status r.status_code)) (CycleError.permanent attempt)
  raw ← read_chunks c.max_response_bytes attempt [] r.chunks
  ok (record {
    raw = raw;
    fetched_at = r.read_at;
    source_url = source_url_of c.public_source_url r.url;
    content_type = r.content_type;
    transport_attempts = attempt;
  })

-- A loop over attempts of which the number is bounded: `AsyncRetrying` for the bound, the condition on
-- the error and `reraise` that the client gives it.
abbrev pub RetryLoop : Type 0
RetryLoop = ℕ → (ℕ → Result CycleError FetchedDocument) → Result CycleError FetchedDocument

-- RetryingHttpClient.fetch, where `answers` gives what the HTTP library answers at each attempt.
unfoldable pub fetch : RetryLoop → HttpSettings → (ℕ → Answer) → Result CycleError FetchedDocument
fetch retrying c answers =
    retrying c.max_attempts (λ attempt. fetch_attempt c attempt (answers attempt))
