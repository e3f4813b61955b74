-- ===== src/Authorization/Ensures.antt =====
-- What an action establishes about the Redis store: from a store where `P` holds it returns a value
-- and a store where `Q` holds, or throws at a store where `E` holds, whatever happens to its calls.
use multisub_infra.Prelude.{◌≡◌, refl, Bool, true, false, List, [], ◌∷◌, arith, if◌then◌else◌}
use multisub_infra.Redis.{Redis}
use multisub_infra.Authorization.State.{
  Fate, answered, failed, lost, aborted, Event, World, Database, Error, failure, Result, ok, err,
  Action, pure, raise, catch, call, read, write, date, next_event, ◌>>=◌,
}

abbrev pub Done : {A : Type 0} → (A → Redis → Type 0) → (Redis → Type 0) → Result A × World → Type 0
Done Q E (ok a, w) = Q a w.redis
Done Q E (err e, w) = E w.redis

pub record Ensures {A : Type 0} (P : Redis → Type 0) (m : Action A) (Q : A → Redis → Type 0)
    (E : Redis → Type 0) : Type 0 where
  pub at : (w : World) → P w.redis → Done Q E (m w)

next_event-redis : (w : World) → (next_event w).1.redis ≡ w.redis
unfolding next_event
next_event-redis w = go w.events refl
  where
    go : (l : List Event) → w.events ≡ l → (next_event w).1.redis ≡ w.redis
    go [] e = ground arith
    go (x ∷ l) e = ground arith

module _ {A : Type 0} (Q : A → Redis → Type 0) (E : Redis → Type 0) where
  Done-catch :
      (a : A) (x : Result A × World) (E' : Redis → Type 0)
      → ((r : Redis) → E r → Q a r)
      → Done Q E x
      → Done Q E' (elim x.0 [ ok b ↦ (ok b, x.1) | err e ↦ (ok a, x.1) ])
  Done-catch a (ok b, w) E' h d = d
  Done-catch a (err e, w) E' h d = h w.redis d

  Done-call :
      (act : Bool → Redis → A × Redis) (fate : Fate) (w : World)
      → Q (act true w.redis).0 (act true w.redis).1
      → Q (act false w.redis).0 (act false w.redis).1
      → E w.redis
      → E (act true w.redis).1
      → Done Q E (elim fate [
        | answered ↦ (ok (act true w.redis).0, record w { redis = (act true w.redis).1 })
        | failed ↦ (err failure, w)
        | lost ↦ (err failure, record w { redis = (act true w.redis).1 })
        | aborted ↦ (ok (act false w.redis).0, record w { redis = (act false w.redis).1 })
      ])
  Done-call act answered w a b c d = a
  Done-call act failed w a b c d = c
  Done-call act lost w a b c d = d
  Done-call act aborted w a b c d = b

module _ {A B : Type 0} (R : A → Redis → Type 0) (Q : B → Redis → Type 0) (E : Redis → Type 0) where
  Done-bind :
      (f : A → Action B) (x : Result A × World)
      → ((a : A) → Ensures (R a) (f a) Q E)
      → Done R E x
      → Done Q E (elim x.0 [ ok a ↦ f a x.1 | err e ↦ (err e, x.1) ])
  Done-bind f (ok a, w) k d = (k a).at w d
  Done-bind f (err e, w) k d = d

module _ {P E : Redis → Type 0} where
  module _ {A : Type 0} {Q : A → Redis → Type 0} where
    pub Ensures-pure : (a : A) → ((r : Redis) → P r → Q a r) → Ensures P (pure a) Q E
    unfolding pure
    Ensures-pure a h = record { at = λ w p. h w.redis p }

    pub Ensures-raise : (e : Error) → ((r : Redis) → P r → E r) → Ensures P (raise {A = A} e) Q E
    unfolding raise
    Ensures-raise e h = record { at = λ w p. h w.redis p }

    pub Ensures-catch :
        (m : Action A) (a : A) {E' : Redis → Type 0}
        → Ensures P m Q E
        → ((r : Redis) → E r → Q a r)
        → Ensures P (catch m a) Q E'
    unfolding catch
    Ensures-catch m a {E'} k h = record { at = λ w p. Done-catch Q E a (m w) E' h (k.at w p) }

    pub Ensures-if :
        (b : Bool) (m n : Action A)
        → (b ≡ true → Ensures P m Q E)
        → (b ≡ false → Ensures P n Q E)
        → Ensures P (if b then m else n) Q E
    Ensures-if true m n km kn = km refl
    Ensures-if false m n km kn = kn refl

  pub Ensures-call :
      {A : Type 0} {Q : A → Redis → Type 0} (act : Bool → Redis → A × Redis)
      → ((r : Redis) → P r → Q (act true r).0 (act true r).1)
      → ((r : Redis) → P r → Q (act false r).0 (act false r).1)
      → ((r : Redis) → P r → E r)
      → ((r : Redis) → P r → E (act true r).1)
      → Ensures P (call act) Q E
  unfolding call
  Ensures-call {Q} act a b c d = record {
    at = λ w p.
        let w' = (next_event w).1 in
        let p' : P w'.redis = rw (next_event-redis w) p in
        Done-call Q E act (next_event w).0 w' (a w'.redis p') (b w'.redis p') (c w'.redis p')
          (d w'.redis p');
  }

  pub Ensures-read :
      {A : Type 0} (f : Redis → A)
      → ((r : Redis) → P r → E r)
      → Ensures P (read f) (λ a r. P r × (a ≡ f r)) E
  unfolding read
  Ensures-read f h = Ensures-call (λ _ r. (f r, r)) (λ r p. (p, refl)) (λ r p. (p, refl)) h h

  pub Ensures-write :
      (f : Redis → Redis)
      → ((r : Redis) → P r → P (f r))
      → ((r : Redis) → P r → E r)
      → Ensures P (write f) (λ _ r. P r) E
  unfolding write
  Ensures-write f h e = Ensures-call (λ _ r. (tt, f r)) h h e (λ r p. e (f r) (h r p))

  pub Ensures-date : (db : Database) → Ensures P (date db) (λ _ r. P r) E
  unfolding date
  Ensures-date db = record { at = λ w p. p }

module _ {P E : Redis → Type 0} {A B : Type 0} {R : A → Redis → Type 0}
    {Q : B → Redis → Type 0} where
  pub Ensures-bind :
      (m : Action A) (f : A → Action B)
      → Ensures P m R E
      → ((a : A) → Ensures (R a) (f a) Q E)
      → Ensures P (m >>= f) Q E
  unfolding ◌>>=◌
  Ensures-bind m f h k = record { at = λ w p. Done-bind R Q E f (m w) k (h.at w p) }

pub Ensures-pre :
    {A : Type 0} {P P' E : Redis → Type 0} {Q : A → Redis → Type 0} {m : Action A}
    → ((r : Redis) → P' r → P r)
    → Ensures P m Q E
    → Ensures P' m Q E
Ensures-pre h k = record { at = λ w p. k.at w (h w.redis p) }

Done-weaken :
    {A : Type 0} (Q Q' : A → Redis → Type 0) (E : Redis → Type 0) (x : Result A × World)
    → ((a : A) (r : Redis) → Q a r → Q' a r)
    → Done Q E x
    → Done Q' E x
Done-weaken Q Q' E (ok a, w) h d = h a w.redis d
Done-weaken Q Q' E (err e, w) h d = d

pub Ensures-post :
    {A : Type 0} {P E : Redis → Type 0} {Q Q' : A → Redis → Type 0} {m : Action A}
    → ((a : A) (r : Redis) → Q a r → Q' a r)
    → Ensures P m Q E
    → Ensures P m Q' E
Ensures-post {E} {Q} {Q'} {m} h k = record { at = λ w p. Done-weaken Q Q' E (m w) h (k.at w p) }

-- A fact that does not speak of the store comes out of what an action starts from.
pub Ensures-fact :
    {A : Type 0} {P E : Redis → Type 0} {Q : A → Redis → Type 0} {m : Action A} {F : Type 0}
    → (F → Ensures P m Q E)
    → Ensures (λ r. P r × F) m Q E
Ensures-fact h = record { at = λ w p. (h p.1).at w p.0 }
