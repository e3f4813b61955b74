-- ===== src/Delivery/Address.antt =====
-- backend/src/services/webhook-dispatcher.ts: which IPv4 addresses BLOCKED_IP_RANGES stops.
use multisub_infra.Prelude.{
  ℕ, ◌≡◌, refl, sym, ap, ◌∙◌, Text, Bool, true, false, ◌&&◌, ◌||◌, [], ◌∷◌, ◌++◌, All, length,
  arith, text_eq, ◌==◌, leb, codes,
}
use multisub_infra.Decimal.{Decimal, big_int, value_from, to_string, emit, IsDigit, IsCanonical}
use multisub_infra.Decimal.Bounds.{IsCanonical-pow, pow10_pos}
use multisub_infra.Decimal.Print.{big_int-to_string, to_string-IsCanonical}
use multisub_infra.Decimal.Texts.{
  digit_text, number_text, starts_with, is_digit, to_string-digits, starts_with-number, number_eq,
}
use multisub_infra.Delivery.{private_second, after, is_blocked}

pub record Ipv4 : Type 0 where
  pub a : ℕ
  pub b : ℕ
  pub c : ℕ
  pub d : ℕ

-- Dotted decimal.
unfoldable pub address_text : Ipv4 → Text
address_text ip =
    number_text ip.a
    ++ (b'.' ∷ (number_text ip.b ++ (b'.' ∷ (number_text ip.c ++ (b'.' ∷ number_text ip.d)))))

-- Loopback, the private networks, link-local and "this network".
abbrev pub is_internal : Ipv4 → Bool
is_internal ip =
    ip.a == 127
    || ip.a == 10
    || (ip.a == 172 && leb 16 ip.b && leb ip.b 31)
    || (ip.a == 192 && ip.b == 168)
    || (ip.a == 169 && ip.b == 254)
    || ip.a == 0

private_second-digits :
    (ds : Decimal) (rest : Text)
    → IsCanonical ds
    → All IsDigit ds
    → private_second (digit_text ds ++ b'.' ∷ rest) ≡ (leb 16 (big_int ds) && leb (big_int ds) 31)
unfolding private_second big_int value_from
private_second-digits [] rest h g = absurd h
private_second-digits (x ∷ []) [] h g = ground (arith, h)
private_second-digits (x ∷ []) (r ∷ rest) h g = ground (arith, h)
private_second-digits (x ∷ y ∷ []) rest (p, h, g) k = ground (arith, p, h, k)
private_second-digits (x ∷ y ∷ z ∷ ds) rest h g =
    ground (arith, g.1.1.0, IsCanonical-pow (x ∷ y ∷ z ∷ ds) h (omega arith), pow10_pos (length ds))

private_second-number :
    (n : ℕ) (rest : Text) → private_second (number_text n ++ b'.' ∷ rest) ≡ (leb 16 n && leb n 31)
unfolding number_text
private_second-number n rest =
    private_second-digits (to_string n) rest (to_string-IsCanonical n) (to_string-digits n)
    ∙ ap (λ v. leb 16 v && leb v 31) (big_int-to_string n)

after-dot :
    (xs ys : Decimal) (test : Text → Bool) (rest : Text)
    → All IsDigit xs
    → All IsDigit ys
    → after (digit_text xs ++ b'.' ∷ []) test (digit_text ys ++ b'.' ∷ rest)
      ≡ (text_eq (digit_text xs) (digit_text ys) && test rest)
unfolding text_eq
after-dot [] [] test rest hx hy = ground arith
after-dot [] (y ∷ ys) test rest hx (h, hy) = ground (arith, h)
after-dot (x ∷ xs) [] test rest (h, hx) hy = ground (arith, h)
after-dot (x ∷ xs) (y ∷ ys) test rest (_, hx) (_, hy) =
    ground (arith, after-dot xs ys test rest hx hy)

after-digits :
    (n m : ℕ) (test : Text → Bool) (rest : Text)
    → after (number_text n ++ b'.' ∷ []) test (number_text m ++ b'.' ∷ rest)
      ≡ (text_eq (number_text n) (number_text m) && test rest)
unfolding number_text
after-digits n m test rest =
    after-dot (to_string n) (to_string m) test rest (to_string-digits n) (to_string-digits m)

-- A test behind a number and a dot, on an address.
after-number :
    (n m : ℕ) (test : Text → Bool) (rest : Text)
    → after (number_text n ++ b'.' ∷ []) test (number_text m ++ b'.' ∷ rest)
      ≡ ((n == m) && test rest)
after-number n m test rest = after-digits n m test rest ∙ ap (λ b. b && test rest) (number_eq n m)

starts_with-append : (p q t : Text) → starts_with (p ++ q) t ≡ after p (starts_with q) t
starts_with-append [] q t = refl
starts_with-append (c ∷ p) q [] = refl
starts_with-append (c ∷ p) q (d ∷ t) = ap (λ b. (c == d) && b) (starts_with-append p q t)

starts_with-two :
    (n m a b : ℕ) (rest : Text)
    → starts_with
        ((number_text n ++ b'.' ∷ []) ++ (number_text m ++ b'.' ∷ []))
        (number_text a ++ (b'.' ∷ (number_text b ++ b'.' ∷ rest)))
      ≡ ((n == a) && (m == b))
starts_with-two n m a b rest =
    starts_with-append (number_text n ++ b'.' ∷ []) (number_text m ++ b'.' ∷ []) _
    ∙ after-number n a (starts_with (number_text m ++ b'.' ∷ [])) (number_text b ++ b'.' ∷ rest)
    ∙ ap (λ t. (n == a) && t) (starts_with-number m b rest)

-- An IPv6 prefix that does not begin with a digit stops no dotted address.
no_prefix :
    (c : ℕ) (p : Text) (ds : Decimal) (rest : Text)
    → IsCanonical ds
    → All IsDigit ds
    → is_digit c ≡ false
    → starts_with (c ∷ p) (digit_text ds ++ rest) ≡ false
no_prefix c p [] rest h g e = absurd h
no_prefix c p (x ∷ ds) rest h (k, _) e = ground (arith, k, e)

no_loopback :
    (p : Text) (ds : Decimal) (rest : Text)
    → IsCanonical ds
    → All IsDigit ds
    → text_eq (b':' ∷ p) (digit_text ds ++ rest) ≡ false
unfolding text_eq
no_loopback p [] rest h g = absurd h
no_loopback p (x ∷ ds) rest h (k, _) = ground (arith, k)

eq_comm : (n m : ℕ) → (n == m) ≡ (m == n)
eq_comm n m = ground arith

and_assoc : (a b c : Bool) → (a && b && c) ≡ (a && (b && c))
and_assoc true b c = refl
and_assoc false b c = refl

or_false : (b : Bool) → (b || false || false || false) ≡ b
or_false true = refl
or_false false = refl

module _ (ip : Ipv4) where
  is_net :
      (n : ℕ) (p : Text)
      → p ≡ number_text n ++ b'.' ∷ []
      → starts_with p (address_text ip) ≡ (ip.a == n)
  unfolding address_text
  is_net n p e =
      ap (λ q. starts_with q (address_text ip)) e ∙ starts_with-number n ip.a _ ∙ eq_comm n ip.a

  is_subnet :
      (n m : ℕ) (p : Text)
      → p ≡ (number_text n ++ b'.' ∷ []) ++ (number_text m ++ b'.' ∷ [])
      → starts_with p (address_text ip) ≡ (ip.a == n && ip.b == m)
  unfolding address_text
  is_subnet n m p e =
      ap (λ q. starts_with q (address_text ip)) e
      ∙ starts_with-two n m ip.a ip.b _
      ∙ cc (eq_comm n ip.a, eq_comm m ip.b)

  is_172 :
      (p : Text)
      → p ≡ number_text 172 ++ b'.' ∷ []
      → after p private_second (address_text ip) ≡ (ip.a == 172 && leb 16 ip.b && leb ip.b 31)
  unfolding address_text
  is_172 p e =
      ap (λ q. after q private_second (address_text ip)) e
      ∙ after-number 172 ip.a private_second _
      ∙ cc (
        eq_comm 172 ip.a,
        private_second-number ip.b (number_text ip.c ++ (b'.' ∷ number_text ip.d)),
      )
      ∙ sym (and_assoc (ip.a == 172) (leb 16 ip.b) (leb ip.b 31))

  no_v6 : (c : ℕ) (p : Text) → is_digit c ≡ false → starts_with (c ∷ p) (address_text ip) ≡ false
  unfolding address_text number_text
  no_v6 c p e =
      no_prefix c p (to_string ip.a) _ (to_string-IsCanonical ip.a) (to_string-digits ip.a) e

  not_loopback : (p : Text) → text_eq (b':' ∷ p) (address_text ip) ≡ false
  unfolding address_text number_text
  not_loopback p =
      no_loopback p (to_string ip.a) _ (to_string-IsCanonical ip.a) (to_string-digits ip.a)

-- Of the addresses in dotted decimal, BLOCKED_IP_RANGES stops exactly those of 127.0.0.0/8,
-- 10.0.0.0/8, 172.16.0.0/12, 192.168.0.0/16, 169.254.0.0/16 and 0.0.0.0/8.
pub is_blocked-internal : (ip : Ipv4) → is_blocked (address_text ip) ≡ is_internal ip
unfolding is_blocked
is_blocked-internal ip =
    rw
      (
        is_net ip 127 (codes "127.") (unfold number_text to_string emit in refl),
        is_net ip 10 (codes "10.") (unfold number_text to_string emit in refl),
        is_172 ip (codes "172.") (unfold number_text to_string emit in refl),
        is_subnet ip 192 168 (codes "192.168.") (unfold number_text to_string emit in refl),
        is_subnet ip 169 254 (codes "169.254.") (unfold number_text to_string emit in refl),
        is_net ip 0 (codes "0.") (unfold number_text to_string emit in refl),
        not_loopback ip (codes ":1"),
        no_v6 ip b'f' (codes "c00:") refl,
        no_v6 ip b'f' (codes "e80:") refl,
      )
      (or_false (is_internal ip))
