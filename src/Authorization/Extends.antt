-- ===== src/Authorization/Extends.antt =====
-- A store that has lost no cache entry of another.
use multisub_infra.Prelude.{◌≡◌, Text, some}
use multisub_infra.Types.{AuthorizationCache}
use multisub_infra.Redis.{Redis}
use multisub_infra.Redis.Script.{AllWellFormed}

-- The store still holds each cache entry that it held.
pub record Extends (r0 r : Redis) : Type 0 where
  pub formed : AllWellFormed r
  pub entries : (k : Text) (c : AuthorizationCache) → r0.auth k ≡ some c → r.auth k ≡ some c

-- Of the store behind an error nothing is asked.
abbrev pub Any : Redis → Type 0
Any r = Unit {0}
