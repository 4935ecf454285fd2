-- ===== src/RateLimit/Window.antt =====
-- What a budget allows while its key does not expire.
use atlas_pulse.Prelude.{
  ℕ, zero, suc, ◌+◌, ◌-◌, ◌<◌, ◌≤◌, min, ◌≡◌, Option, none, some, ok, leb, keep, length, Text,
  arith, ◌∙◌, ◌*◌, ◌==◌, nat_eq, if◌then◌else◌,
}
use atlas_pulse.RateLimit.{
  Valkey, RateLimitPolicy, budget_key, decision, repair_ttl, consume_budget, consume, consume_times,
  is_allowed,
}

abbrev pub greatest_counter : ℕ
greatest_counter = 9223372036854775807

-- What the limiter relies on: INCR adds one to a counter that is below the greatest signed integer of 64
-- bits, which it refuses to exceed, and PEXPIRE with a positive time leaves it as it is.
pub record Laws {S : Type 0} (valkey : Valkey S) : Type 0 where
  pub value-incr :
      (key : Text) (s : S)
      → valkey.value key s < greatest_counter
      → valkey.value key (valkey.incr key s) ≡ suc (valkey.value key s)
  pub value-pexpire :
      (key : Text) (ms : ℕ) (s : S)
      → 1 ≤ ms
      → valkey.value key (valkey.pexpire key ms s) ≡ valkey.value key s

module _ {S : Type 0} (valkey : Valkey S) (laws : Laws valkey) where
  repair_ttl-value :
      (key : Text) (ms : ℕ) (o : Option ℕ) (s : S)
      → 1 ≤ ms
      → (1 ≤ (repair_ttl valkey key ms o s).0)
        × (valkey.value key (repair_ttl valkey key ms o s).1 ≡ valkey.value key s)
  unfolding repair_ttl
  repair_ttl-value key ms none s h = (h, laws.value-pexpire key ms s h)
  repair_ttl-value key ms (some ttl) s h = ground (arith, laws.value-pexpire key ms s h)

  consume_budget-value :
      (key : Text) (ms : ℕ) (s : S)
      → 1 ≤ ms
      → valkey.value key s < greatest_counter
      → ((consume_budget valkey key ms s).0 ≡ suc (valkey.value key s))
        × (1 ≤ (consume_budget valkey key ms s).1)
        × (valkey.value key (consume_budget valkey key ms s).2 ≡ suc (valkey.value key s))
  unfolding consume_budget
  consume_budget-value key ms s h below =
      let counted = valkey.incr key s in
      let started =
        if valkey.value key counted == 1 then valkey.pexpire key ms counted else counted in
      let value_started : valkey.value key started ≡ suc (valkey.value key s) =
        ground (arith, laws.value-incr key s below, laws.value-pexpire key ms counted h) in
      let (positive, kept) = repair_ttl-value key ms (valkey.pttl key started) started h in
      (laws.value-incr key s below, positive, kept ∙ value_started)

  consume-counts :
      (client_key key : Text) (policy : RateLimitPolicy) (s : S)
      → 1 ≤ policy.window_seconds
      → budget_key client_key policy ≡ ok key
      → valkey.value key s < greatest_counter
      → (is_allowed (consume valkey client_key policy s).0
          ≡ leb (suc (valkey.value key s)) policy.requests)
        × (valkey.value key (consume valkey client_key policy s).1 ≡ suc (valkey.value key s))
  unfolding consume decision is_allowed
  consume-counts client_key key policy s h named below =
      ground (arith, consume_budget-value key (policy.window_seconds * 1000) s (omega arith) below)

  -- Where INCR adds one to a counter below the greatest signed integer of 64 bits, and PEXPIRE
  -- with a positive time keeps the counter: under a policy with a positive window, n requests
  -- in a row of a client with a valid key, whose counter does not expire and stays within that
  -- integer, are allowed exactly as far as the policy has requests left.
  pub consume_times-allowed :
      (n : ℕ) (client_key key : Text) (policy : RateLimitPolicy) (s : S)
      → 1 ≤ policy.window_seconds
      → budget_key client_key policy ≡ ok key
      → valkey.value key s + n ≤ greatest_counter
      → length (keep is_allowed (consume_times valkey n client_key policy s).0)
        ≡ min n (policy.requests - valkey.value key s)
  unfolding consume_times
  consume_times-allowed zero client_key key policy s h named below = ground arith
  consume_times-allowed (suc n) client_key key policy s h named below =
      let (first, counted) = consume-counts client_key key policy s h named (omega arith) in
      ground (
        arith,
        first,
        counted,
        consume_times-allowed n client_key key policy (consume valkey client_key policy s).1 h named
            (omega (arith, counted)),
      )
