-- ===== src/Tests/RateLimit.antt =====
-- Requests against one budget.
use atlas_pulse.Prelude.{
  ℕ, true, false, suc, ◌==◌, ◌≡◌, [], ◌∷◌, Text, codes, refl, arith, if◌then◌else◌, some, keep,
  length, map, is_hex, text_eq, ℕ_discrete, Text-discrete, ==_refl,
}
use atlas_pulse.RateLimit.{
  Valkey, RateLimitPolicy, budget_key, decision, repair_ttl, consume_budget, consume, consume_times,
  is_allowed,
}
use atlas_pulse.RateLimit.Window.{Laws, consume_times-allowed}

limit_program : Unit {0}
unfolding budget_key decision repair_ttl consume_budget consume consume_times is_allowed is_hex
    ℕ_discrete Text-discrete
limit_program = tt

-- A server whose keys do not expire.
abbrev valkey : Valkey (Text → ℕ)
valkey = record {
  value = λ key s. s key;
  incr = λ key s. λ other. if other == key then suc (s key) else s other;
  pexpire = λ key ms s. s;
  pttl = λ key s. some 5000;
}

valkey-Laws : Laws valkey
valkey-Laws = record {
  value-incr = λ key s below. ground (arith, ==_refl key);
  value-pexpire = λ key ms s h. refl;
}

abbrev policy : RateLimitPolicy
policy = record { name = codes "api"; requests = 2; window_seconds = 60 }

abbrev client : Text
client = codes "00112233445566778899aabbccddeeff00112233445566778899aabbccddeeff"

abbrev key : Text
key = codes "{atlas-rate:00112233445566778899aabbccddeeff00112233445566778899aabbccddeeff}:api"

allowed_in_order :
    map is_allowed (consume_times valkey 3 client policy (λ k. 0)).0 ≡ true ∷ true ∷ false ∷ []
unfolding limit_program
allowed_in_order = refl

consume_times-allowed_example :
    length (keep is_allowed (consume_times valkey 3 client policy (λ k. 0)).0) ≡ 2
unfolding limit_program
consume_times-allowed_example =
    consume_times-allowed valkey valkey-Laws 3 client key policy (λ k. 0) (omega arith) refl
      (omega arith)
