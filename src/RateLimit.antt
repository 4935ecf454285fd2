-- ===== src/RateLimit.antt =====
-- rate_limit.py: fixed-window request budgets, evaluated by a script that runs atomically in Valkey.
pub mod Window
use atlas_pulse.Prelude.{
  ℕ, zero, suc, ◌+◌, ◌*◌, ◌-◌, ◌/◌, max, ◌≡◌, Bool, true, false, ◌&&◌, ◌||◌, not, Option, none,
  some, List, [], ◌∷◌, ◌++◌, Result, ok, raise, ◌>>=◌, ◌>>◌, raise_if, ltb, leb, ◌==◌, text_eq,
  nat_eq, if◌then◌else◌, Text, codes, all, contains, length, is_hex, strip_prefix,
}

-- The commands of Valkey that the script calls, on a state `S` of the server. `value` is the counter
-- at a key, 0 where there is none. PTTL's negative replies are `none`.
pub record Valkey (S : Type 0) : Type 0 where
  pub value : Text → S → ℕ
  pub incr : Text → S → S
  pub pexpire : Text → ℕ → S → S
  pub pttl : Text → S → Option ℕ

pub data PolicyError : Type 0 where
  name_not_lowercase requests_not_positive window_not_positive : PolicyError
  client_secret_length policies_not_distinct expensive_exceeds_general : PolicyError
  windows_differ client_header_changed : PolicyError

pub record RateLimitPolicy : Type 0 where
  pub name : Text
  pub requests : ℕ
  pub window_seconds : ℕ

pub record RateLimitDecision : Type 0 where
  pub policy : Text
  pub allowed : Bool
  pub limit : ℕ
  pub remaining : ℕ
  pub reset_after_seconds : ℕ

pub record ApiRateLimitConfig : Type 0 where
  pub client_secret : Text
  pub general_policy : RateLimitPolicy
  pub expensive_policy : RateLimitPolicy
  pub client_header : Text

-- RateLimiterUnavailable
pub data LimiterError : Type 0 where
  unavailable : LimiterError

unfoldable pub is_name_character : ℕ → Bool
is_name_character c = leb 97 c && leb c 122 || c == 45

-- RateLimitPolicy.__post_init__
unfoldable pub check_policy : RateLimitPolicy → Result PolicyError (Unit {0})
check_policy p = do
  raise_if (length p.name == 0 || not (all is_name_character p.name)) name_not_lowercase
  raise_if (ltb p.requests 1) requests_not_positive
  raise_if (ltb p.window_seconds 1) window_not_positive

-- ApiRateLimitConfig.__post_init__
unfoldable pub check_config : ApiRateLimitConfig → Result PolicyError (Unit {0})
check_config c = do
  raise_if (not (leb 32 (length c.client_secret) && leb (length c.client_secret) 128))
      client_secret_length
  raise_if (c.general_policy.name == c.expensive_policy.name) policies_not_distinct
  raise_if (ltb c.general_policy.requests c.expensive_policy.requests) expensive_exceeds_general
  raise_if (not (c.expensive_policy.window_seconds == c.general_policy.window_seconds))
      windows_differ
  raise_if (not (c.client_header == codes "X-Atlas-Client-IP")) client_header_changed

unfoldable pub expensive_api_paths : List Text
expensive_api_paths =
    codes "/v1/agent-runs/preflight"
    ∷ codes "/v1/evidence-packs"
    ∷ codes "/v1/incidents"
    ∷ codes "/v1/search"
    ∷ []

unfoldable pub policies_for_path : ApiRateLimitConfig → Text → List RateLimitPolicy
policies_for_path c path = elim (strip_prefix (codes "/v1/") path) [
  | none ↦ []
  | some rest ↦
      if contains path expensive_api_paths
      then c.general_policy ∷ c.expensive_policy ∷ []
      else c.general_policy ∷ []
]

-- `_budget_key`
unfoldable pub budget_key : Text → RateLimitPolicy → Result LimiterError Text
budget_key client_key policy =
    if not (length client_key == 64) || not (all is_hex client_key)
    then raise unavailable
    else ok (codes "{atlas-rate:" ++ client_key ++ codes "}:" ++ policy.name)

-- `_decision`, on the count and the time to live that the script returns.
unfoldable pub decision : ℕ → ℕ → RateLimitPolicy → Result LimiterError RateLimitDecision
decision count ttl policy =
    if ltb count 1 || ltb ttl 1
    then raise unavailable
    else ok (record {
      policy = policy.name;
      allowed = leb count policy.requests;
      limit = policy.requests;
      remaining = policy.requests - count;
      reset_after_seconds = max 1 ((ttl + 999) / 1000);
    })

module _ {S : Type 0} (valkey : Valkey S) where
  -- The time to live that the script reads back, and repairs where it is below 1.
  unfoldable pub repair_ttl : Text → ℕ → Option ℕ → S → ℕ × S
  repair_ttl key ms none s = (ms, valkey.pexpire key ms s)
  repair_ttl key ms (some ttl) s = if ltb ttl 1 then (ms, valkey.pexpire key ms s) else (ttl, s)

  -- `_CONSUME_BUDGET`
  unfoldable pub consume_budget : Text → ℕ → S → ℕ × ℕ × S
  consume_budget key ms s =
      let counted = valkey.incr key s in
      let count = valkey.value key counted in
      let started = if count == 1 then valkey.pexpire key ms counted else counted in
      let (ttl, repaired) = repair_ttl key ms (valkey.pttl key started) started in
      (count, ttl, repaired)

  -- ValkeyRateLimiter.consume
  unfoldable pub consume : Text → RateLimitPolicy → S → Result LimiterError RateLimitDecision × S
  consume client_key policy s = elim (budget_key client_key policy) [
    | raise e ↦ (raise e, s)
    | ok key ↦
        let (count, ttl, next) = consume_budget key (policy.window_seconds * 1000) s in
        (decision count ttl policy, next)
  ]

  -- `n` requests of one client in a row.
  unfoldable pub consume_times :
      ℕ → Text → RateLimitPolicy → S → List (Result LimiterError RateLimitDecision) × S
  consume_times zero client_key policy s = ([], s)
  consume_times (suc n) client_key policy s =
      let (first, next) = consume client_key policy s in
      let (rest, last) = consume_times n client_key policy next in (first ∷ rest, last)

-- The decision was made, and it allows the request.
unfoldable pub is_allowed : Result LimiterError RateLimitDecision → Bool
is_allowed (raise e) = false
is_allowed (ok d) = d.allowed
