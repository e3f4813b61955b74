-- ===== src/Delivery/Safe.antt =====
-- backend/src/services/webhook-dispatcher.ts: where posts go, and what they carry.
use multisub_infra.Prelude.{
  ℕ, suc, ◌/◌, ◌≡◌, refl, sym, ap, ◌∙◌, ◌⊎◌, inl, inr, Text, Bool, true, false, Option, none, some,
  List, [], ◌∷◌, ◌++◌, arith, if◌then◌else◌, Option-cases, Bool-cases, ◌&&◌, not, All, All-snoc,
  text_eq, text_eq_iff, includes, codes,
}
use mathlib.Core.Path.{subst}
use mathlib.Core.List.{append-nil, append_assoc}
use multisub_infra.Decimal.Texts.{number_text}
use multisub_infra.Types.{CardMapping}
use multisub_infra.Redis.{Redis, get_card_mapping}
use multisub_infra.Delivery.{
  Url, Attempt, Checked, refused, allowed, check_address, is_blocked, Post, Sent, Outbox, Tenant,
  Deps, Failure, insecure_protocol, invalid_protocol, network, truthy, retry_delays_ms,
  validate_webhook_url, attempt_all, log_failure, dispatch_to, dispatch, dispatch_for_card, post_of,
  signature_input,
}
use multisub_infra.Delivery.Attempts.{
  posted_by, posted_in, error_in, attempt_done, attempt_failed, attempt_none, dispatch-to,
}

-- The URL is of HTTP, of HTTPS in production, and its host name resolves to the address, which is
-- not blocked.
pub record IsAllowed (production : Bool) (url : Option Url) (resolve : Text → Option Text)
    (address : Text) : Type 0 where
  pub parsed : Url
  pub is_url : url ≡ some parsed
  pub is_http : (parsed.protocol ≡ codes "http:") ⊎ (parsed.protocol ≡ codes "https:")
  pub is_secure : production ≡ true → parsed.protocol ≡ codes "https:"
  pub is_resolved : resolve parsed.hostname ≡ some address
  pub is_open : is_blocked address ≡ false

check_address-open :
    (resolved : Option Text) (address : Text)
    → check_address resolved ≡ allowed address
    → (resolved ≡ some address) × (is_blocked address ≡ false)
check_address-open none address e = absurd (ground (arith, e))
check_address-open (some a) address e = elim (Bool-cases (is_blocked a)) [
  | inl bad ↦ absurd (ground (arith, e, bad))
  | inr good ↦
      let same : a ≡ address = grind (arith, e, good) in
      (ap some same, subst (λ x. is_blocked x ≡ false) same good)
]

passes_both :
    (b c : Bool) (f g : Failure) (x : Checked) (address : Text)
    → (if b then refused f else (if c then refused g else x)) ≡ allowed address
    → (b ≡ false) × (c ≡ false) × (x ≡ allowed address)
passes_both true c f g x address e = absurd (ground (arith, e))
passes_both false true f g x address e = absurd (ground (arith, e))
passes_both false false f g x address e = (refl, refl, e)

validate_webhook_url-IsAllowed :
    (production : Bool) (url : Option Url) (resolved : Text → Option Text) (address : Text)
    → validate_webhook_url production url resolved ≡ allowed address
    → IsAllowed production url resolved address
unfolding validate_webhook_url includes
validate_webhook_url-IsAllowed production none resolved address e = absurd (ground (arith, e))
validate_webhook_url-IsAllowed production (some url) resolved address e =
    let (secure, http, found) =
      passes_both (production && not (text_eq url.protocol (codes "https:")))
        (not (includes (codes "http:" ∷ codes "https:" ∷ []) url.protocol)) insecure_protocol
        invalid_protocol (check_address (resolved url.hostname)) address e in
    let (answered, good) = check_address-open (resolved url.hostname) address found in
    record {
      parsed = url;
      is_url = refl;
      is_http = elim (Bool-cases (text_eq (codes "http:") url.protocol)) [
        | inl t ↦ inl (sym ((text_eq_iff (codes "http:") url.protocol).0 t))
        | inr f ↦
            inr (sym ((text_eq_iff (codes "https:") url.protocol).0 (ground (arith, f, http))))
      ];
      is_secure = λ h. (text_eq_iff url.protocol (codes "https:")).0 (ground (arith, h, secure));
      is_resolved = answered;
      is_open = good;
    }

module _ {E : Type 0} (deps : Deps E) (now : ℕ) (answers : ℕ → Attempt) (tenant_id : Text)
    (event : E) where
  -- The post of an event for a tenant at a time: to the tenant's URL, whose host one of the attempts
  -- resolved to the address that was checked; signed with the tenant's secret over its timestamp and
  -- its payload.
  pub record IsSafe (s : Sent) : Type 0 where
    pub attempt : ℕ
    pub destination :
        IsAllowed deps.production (deps.parse_url s.post.url) (answers attempt).resolved s.checked
    pub tenant : Tenant
    pub secret : Text
    pub found : deps.tenant tenant_id ≡ some tenant
    pub own_url : truthy tenant.webhook_url ≡ some s.post.url
    pub own_secret : truthy tenant.webhook_secret ≡ some secret
    pub of_event : s.post.payload ≡ deps.stringify event
    pub of_time : s.post.timestamp ≡ number_text (now / 1000)
    pub signed :
        s.post.signature ≡ deps.crypto.digest secret (s.post.timestamp ++ b'.' ∷ s.post.payload)

  -- What was sent before, and safe posts behind it.
  abbrev pub Grown : List Sent → List Sent → Type 0
  Grown base sent = (new : List Sent) × (sent ≡ base ++ new) × All IsSafe new

  Grown-snoc :
      (base sent : List Sent) (s : Sent) → Grown base sent → IsSafe s → Grown base (sent ++ s ∷ [])
  Grown-snoc base sent s (new, e, h) safe = (
    new ++ s ∷ [],
    ap (λ (x : List Sent). x ++ s ∷ []) e ∙ append_assoc base new (s ∷ []),
    All-snoc IsSafe new s h safe,
  )

  -- What is known of a post before its URL is checked.
  abbrev Signed : Post → Type 0
  Signed post =
      (i : ℕ) (address : Text)
      → IsAllowed deps.production (deps.parse_url post.url) (answers i).resolved address
      → IsSafe (record { post = post; checked = address })

  module _ (base : List Sent) (post : Post) (s : Signed post) where
    posted_by-Grown :
        (i : ℕ) (sent : List Sent) (c : Checked)
        → ((address : Text)
            → c ≡ allowed address
            → IsAllowed deps.production (deps.parse_url post.url) (answers i).resolved address)
        → Grown base sent
        → Grown base (sent ++ posted_by deps post c)
    posted_by-Grown i sent (refused e) k h = subst (Grown base) (sym (append-nil sent)) h
    posted_by-Grown i sent (allowed address) k h =
        Grown-snoc base sent _ h (s i address (k address refl))

    posted_in-Grown :
        (i : ℕ) (sent : List Sent)
        → Grown base sent
        → Grown base (sent ++ posted_in deps post (answers i))
    posted_in-Grown i sent h =
        posted_by-Grown i sent _
          (validate_webhook_url-IsAllowed deps.production (deps.parse_url post.url)
            (answers i).resolved)
          h

    attempt_all-Grown :
        (delays : List ℕ) (i : ℕ) (last : Failure) (o : Outbox E)
        → Grown base o.posts
        → Grown base (attempt_all deps post delays answers i last o).1.posts
    attempt_all-Grown [] i last o h =
        subst (λ (x : Option Failure × Outbox E). Grown base x.1.posts)
          (sym (attempt_none deps post answers i last o)) h
    attempt_all-Grown (delay ∷ delays) i last o h =
        let more = posted_in-Grown i o.posts h in
        elim (Option-cases (error_in deps post (answers i))) [
          | inl e ↦
              subst (λ (x : Option Failure × Outbox E). Grown base x.1.posts)
                (sym (attempt_done deps post answers delay delays i last o e)) more
          | inr (f, e) ↦
              subst (λ (x : Option Failure × Outbox E). Grown base x.1.posts)
                (sym (attempt_failed deps post answers delay delays i last f o e))
                (attempt_all-Grown delays (suc i) f _ more)
        ]

  log_failure-posts :
      (takes : Bool) (url : Text) (x : Option Failure × Outbox E)
      → (log_failure deps takes tenant_id event url x).posts ≡ x.1.posts
  unfolding log_failure
  log_failure-posts takes url (none, o) = refl
  log_failure-posts true url (some e, o) = refl
  log_failure-posts false url (some e, o) = refl

  module _ (takes : Bool) where
    configured-Grown :
        (tenant : Tenant) (url secret : Text) (o : Outbox E)
        → deps.tenant tenant_id ≡ some tenant
        → truthy tenant.webhook_url ≡ some url
        → truthy tenant.webhook_secret ≡ some secret
        → Grown o.posts (dispatch deps takes now answers tenant_id event o).posts
    unfolding post_of signature_input
    configured-Grown tenant url secret o e f g =
        let post = post_of deps url secret event now in
        let tried = attempt_all deps post retry_delays_ms answers 0 network o in
        subst (λ (x : Outbox E). Grown o.posts x.posts)
          (sym (dispatch-to deps takes now answers tenant_id event url secret o tenant e f g))
          (subst (Grown o.posts) (sym (log_failure-posts takes url tried)) (
            attempt_all-Grown o.posts post
              (λ i address k. record {
                attempt = i;
                destination = k;
                tenant = tenant;
                secret = secret;
                found = e;
                own_url = f;
                own_secret = g;
                of_event = refl;
                of_time = refl;
                signed = refl;
              })
              retry_delays_ms 0 network o ([], sym (append-nil o.posts), tt)))

    dispatch-cases :
        (o : Outbox E)
        → (dispatch deps takes now answers tenant_id event o ≡ o)
          ⊎ ((tenant : Tenant) × (url : Text) × (secret : Text) × (deps.tenant tenant_id
                ≡ some tenant)
              × (truthy tenant.webhook_url ≡ some url)
              × (truthy tenant.webhook_secret ≡ some secret))
    unfolding dispatch dispatch_to
    dispatch-cases o = elim (Option-cases (deps.tenant tenant_id)) [
      | inl e ↦ inl (grind (arith, e))
      | inr (tenant, e) ↦ elim (Option-cases (truthy tenant.webhook_url)) [
        | inl f ↦ inl (grind (arith, e, f))
        | inr (url, f) ↦ elim (Option-cases (truthy tenant.webhook_secret)) [
          | inl g ↦ inl (grind (arith, e, f, g))
          | inr (secret, g) ↦ inr (tenant, url, secret, e, f, g)
        ]
      ]
    ]

    pub dispatch-Grown :
        (o : Outbox E) → Grown o.posts (dispatch deps takes now answers tenant_id event o).posts
    dispatch-Grown o = elim (dispatch-cases o) [
      | inl same ↦
          subst (λ (x : Outbox E). Grown o.posts x.posts) (sym same)
            ([], sym (append-nil o.posts), tt)
      | inr (tenant, url, secret, e, f, g) ↦ configured-Grown tenant url secret o e f g
    ]

for_none :
    {E : Type 0} (deps : Deps E) (takes : Bool) (now : ℕ) (answers : ℕ → Attempt) (r : Redis)
    (card_token : Text) (make : Text → E) (o : Outbox E)
    → get_card_mapping r card_token ≡ none
    → dispatch_for_card deps takes now answers (some r) card_token make o ≡ o
unfolding dispatch_for_card
for_none deps takes now answers r card_token make o e = grind (arith, e)

for_some :
    {E : Type 0} (deps : Deps E) (takes : Bool) (now : ℕ) (answers : ℕ → Attempt) (r : Redis)
    (card_token : Text) (make : Text → E) (o : Outbox E) (m : CardMapping)
    → get_card_mapping r card_token ≡ some m
    → dispatch_for_card deps takes now answers (some r) card_token make o
      ≡ dispatch deps takes now answers m.tenant_id (make m.tenant_id) o
unfolding dispatch_for_card
for_some deps takes now answers r card_token make o m e = grind (arith, e)

-- However a dispatch for a card goes: it posts nothing, or the card is mapped in the store, and every
-- post that it adds carries the event for the mapping's tenant, goes to that tenant's URL and is
-- signed with that tenant's secret over its timestamp and its payload; the URL is of HTTP, and of
-- HTTPS in production; and its host name is one that the lookup of an attempt has resolved to
-- the address that was checked, which is not blocked.
pub dispatch_for_card-IsSafe :
    {E : Type 0} (deps : Deps E) (takes : Bool) (now : ℕ) (answers : ℕ → Attempt)
    (redis : Option Redis) (card_token : Text) (make : Text → E) (o : Outbox E)
    → let o' = dispatch_for_card deps takes now answers redis card_token make o in
      (o'.posts ≡ o.posts)
      ⊎ ((r : Redis) × (m : CardMapping) × (redis ≡ some r)
          × (get_card_mapping r card_token ≡ some m)
          × Grown deps now answers m.tenant_id (make m.tenant_id) o.posts o'.posts)
unfolding dispatch_for_card
dispatch_for_card-IsSafe deps takes now answers none card_token make o = inl refl
dispatch_for_card-IsSafe deps takes now answers (some r) card_token make o =
    elim (Option-cases (get_card_mapping r card_token)) [
      | inl e ↦
          inl
            (ap (λ (x : Outbox _). x.posts) (for_none deps takes now answers r card_token make o e))
      | inr (m, e) ↦ inr (
        r,
        m,
        refl,
        e,
        subst
            (λ (x : Outbox _).
              Grown deps now answers m.tenant_id (make m.tenant_id) o.posts x.posts)
            (sym (for_some deps takes now answers r card_token make o m e))
            (dispatch-Grown deps now answers m.tenant_id (make m.tenant_id) takes o),
      )
    ]
