-- ===== src/Middleware/Tests.antt =====
-- Requests with and without a key, and a burst of requests.
use multisub_infra.Prelude.{◌+◌, ◌≡◌, refl, Text, true, none, some, [], ◌∷◌, codes, ◌⊎◌, ◌↔◌}
use multisub_infra.Redis.{Redis}
use multisub_infra.Middleware.Auth.{
  Tenant, TenantStatus, answer, Environment, Headers, Database, next, HasKey, HasBypass,
  require_auth, by_api_key, check_status, require_auth-next, require_auth-production,
}
use multisub_infra.Middleware.RateLimit.{passed_in, arrivals_in, passed_in_exact}
use Prim.Native.Nat.{min}

abbrev tenant : Tenant
tenant = record { id = codes "t1"; status = TenantStatus.active }

-- A digest that prefixes the key; the database knows one.
abbrev prefix : Text → Text
prefix key = 35 ∷ key

abbrev tenants : Database
tenants = record { by_id = λ _. answer (some tenant); by_hash = λ _. answer (some tenant) }

abbrev production : Environment
production = record { allow_test_auth = true; production = true }

abbrev with_key : Headers
with_key = record { test_tenant_id = some (codes "t1"); api_key = some (codes "k") }

with_key_passes : require_auth prefix tenants production with_key ≡ next (codes "t1")
unfolding require_auth by_api_key check_status
with_key_passes = refl

require_auth-next_example :
    HasKey prefix tenants with_key (codes "t1")
    ⊎ HasBypass prefix tenants production with_key (codes "t1")
require_auth-next_example =
    require_auth-next prefix tenants production with_key (codes "t1") with_key_passes

require_auth-production_example :
    (require_auth prefix tenants production with_key ≡ next (codes "t1"))
    ↔ HasKey prefix tenants with_key (codes "t1")
require_auth-production_example =
    require_auth-production prefix tenants production with_key (codes "t1") refl

abbrev counters : Redis
counters = record { auth = λ _. none; card = λ _. none; rate = λ _ _. 1; processed = λ _. none }

-- Three requests of window 0 and one of window 1, with one counted before and a limit of three.
passed_in_exact_example :
    passed_in 0 counters 3 (codes "t1") (10 ∷ 20 ∷ 61000 ∷ 30 ∷ []) + min 3 1
    ≡ min 3 (1 + arrivals_in 0 (10 ∷ 20 ∷ 61000 ∷ 30 ∷ []))
passed_in_exact_example = passed_in_exact 0 counters 3 (codes "t1") (10 ∷ 20 ∷ 61000 ∷ 30 ∷ [])
