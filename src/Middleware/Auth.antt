-- ===== src/Middleware/Auth.antt =====
-- backend/src/middleware/auth.ts: from the headers of a request to the tenant that it acts for.
-- SHA-256 and the database are parameters: the digest is a function, and a query answers or throws.
use multisub_infra.Prelude.{
  ℕ, ◌≡◌, refl, Text, Bool, true, false, not, Option, none, some, [], ◌∷◌, arith, ◌&&◌, ◌⊎◌, ◌↔◌,
  inl, inr, if◌then◌else◌, Bool-cases, Option-cases, ap,
}

pub data TenantStatus : Type 0 where
  active suspended disabled other : TenantStatus

pub record Tenant : Type 0 where
  pub id : Text
  pub status : TenantStatus

pub data Query : Type 0 where
  thrown : Query
  answer : Option Tenant → Query

-- `ALLOW_TEST_AUTH === "true"` and `NODE_ENV === "production"`.
pub record Environment : Type 0 where
  pub allow_test_auth : Bool
  pub production : Bool

-- A header is a text, or absent (or repeated, which the code treats alike).
pub record Headers : Type 0 where
  pub test_tenant_id : Option Text
  pub api_key : Option Text

pub record Database : Type 0 where
  pub by_id : Text → Query
  pub by_hash : Text → Query

pub data AuthError : Type 0 where
  missing_key invalid_key tenant_suspended tenant_disabled access_denied internal : AuthError

pub data AuthOutcome : Type 0 where
  next : Text → AuthOutcome
  deny : ℕ → AuthError → AuthOutcome

abbrev nonempty : Option Text → Option Text
nonempty none = none
nonempty (some []) = none
nonempty (some (c ∷ s)) = some (c ∷ s)

-- The checks of the tenant's status, in the code's order.
unfoldable pub check_status : Tenant → AuthOutcome
check_status t = elim t.status [
  | suspended ↦ deny 403 tenant_suspended
  | disabled ↦ deny 403 tenant_disabled
  | other ↦ deny 403 access_denied
  | active ↦ next t.id
]

Query-cases :
    (q : Query) → ((q ≡ thrown) ⊎ (q ≡ answer none)) ⊎ ((t : Tenant) × (q ≡ answer (some t)))
Query-cases thrown = inl (inl refl)
Query-cases (answer none) = inl (inr refl)
Query-cases (answer (some t)) = inr (t, refl)

module _ (sha256 : Text → Text) (db : Database) where
  -- The part behind the test bypass.
  unfoldable pub by_api_key : Headers → AuthOutcome
  unfolding check_status
  by_api_key h = elim (nonempty h.api_key) [
    | none ↦ deny 401 missing_key
    | some key ↦ elim (db.by_hash (sha256 key)) [
      | thrown ↦ deny 500 internal
      | answer none ↦ deny 401 invalid_key
      | answer (some t) ↦ check_status t
    ]
  ]

  unfoldable pub require_auth : Environment → Headers → AuthOutcome
  unfolding by_api_key
  require_auth env h =
      if env.allow_test_auth && not env.production
      then (elim (nonempty h.test_tenant_id) [
        | none ↦ by_api_key h
        | some id ↦ elim (db.by_id id) [
          | thrown ↦ deny 500 internal
          | answer none ↦ by_api_key h
          | answer (some _) ↦ next id
        ]
      ])
      else by_api_key h

  -- The two ways in.
  pub record HasKey (h : Headers) (id : Text) : Type 0 where
    pub key : Text
    pub tenant : Tenant
    pub given : nonempty h.api_key ≡ some key
    pub found : db.by_hash (sha256 key) ≡ answer (some tenant)
    pub is_active : tenant.status ≡ active
    pub names : tenant.id ≡ id

  pub record HasBypass (env : Environment) (h : Headers) (id : Text) : Type 0 where
    pub allowed : env.allow_test_auth ≡ true
    pub outside : env.production ≡ false
    pub given : nonempty h.test_tenant_id ≡ some id
    pub tenant : Tenant
    pub found : db.by_id id ≡ answer (some tenant)

  check_status-next :
      (t : Tenant) (id : Text) → check_status t ≡ next id → (t.status ≡ active) × (t.id ≡ id)
  unfolding check_status
  check_status-next t id e = ground arith

  by_api_key-HasKey : (h : Headers) (id : Text) → by_api_key h ≡ next id → HasKey h id
  unfolding by_api_key
  by_api_key-HasKey h id e = elim (Option-cases (nonempty h.api_key)) [
    | inl absent ↦ absurd (ground (arith, absent))
    | inr (key, given) ↦ elim (Query-cases (db.by_hash (sha256 key))) [
      | inl failed ↦ absurd (ground (arith, given))
      | inr (t, found) ↦
          let (is_active, names) = check_status-next t id (ground (arith, given, found)) in
          record {
            key = key;
            tenant = t;
            given = given;
            found = found;
            is_active = is_active;
            names = names;
          }
    ]
  ]

  bypass-next :
      (env : Environment) (h : Headers) (id : Text)
      → env.allow_test_auth ≡ true
      → env.production ≡ false
      → require_auth env h ≡ next id
      → HasKey h id ⊎ HasBypass env h id
  unfolding require_auth
  bypass-next env h id allowed outside e = elim (Option-cases (nonempty h.test_tenant_id)) [
    | inl absent ↦ inl (by_api_key-HasKey h id (ground (arith, absent)))
    | inr (named, given) ↦ elim (Query-cases (db.by_id named)) [
      | inl (inl failed) ↦ absurd (ground (arith, given))
      | inl (inr unknown) ↦ inl (by_api_key-HasKey h id (ground (arith, given, unknown)))
      | inr (t, found) ↦
          let same : named ≡ id = ground (arith, given, found) in
          inr (record {
            allowed = allowed;
            outside = outside;
            given = cc (given, same);
            tenant = t;
            found = cc (found, ap db.by_id same);
          })
    ]
  ]

-- A request passes as a tenant only with the key of that tenant, which is active, or by the test
-- bypass, which is switched on, outside production, and names a tenant that exists.
pub require_auth-next :
    (sha256 : Text → Text) (db : Database) (env : Environment) (h : Headers) (id : Text)
    → require_auth sha256 db env h ≡ next id
    → HasKey sha256 db h id ⊎ HasBypass sha256 db env h id
unfolding require_auth
require_auth-next sha256 db env h id e = elim (Bool-cases env.allow_test_auth) [
  | inl allowed ↦ elim (Bool-cases env.production) [
    | inl production ↦ inl (by_api_key-HasKey sha256 db h id (ground arith))
    | inr outside ↦ bypass-next sha256 db env h id allowed outside e
  ]
  | inr off ↦ inl (by_api_key-HasKey sha256 db h id (ground arith))
]

-- In production an active tenant's key is the only way in: a request passes exactly with one.
pub require_auth-production :
    (sha256 : Text → Text) (db : Database) (env : Environment) (h : Headers) (id : Text)
    → env.production ≡ true
    → (require_auth sha256 db env h ≡ next id) ↔ HasKey sha256 db h id
unfolding require_auth check_status
require_auth-production sha256 db env h id p = (
  λ e. by_api_key-HasKey sha256 db h id (ground arith),
  λ k. ground (arith, k.given, k.found, k.is_active, k.names),
)
