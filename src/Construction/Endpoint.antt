-- ===== src/Construction/Endpoint.antt =====
-- The endpoint of the connection URL, loaded from the environment again.
use hellnet_lib_database.Prelude.{
  ℕ, ◌≡◌, refl, ap, inl, inr, true, false, some, [], ◌∷◌, ◌++◌, any, all, ◌==◌, ==_iff, Bool-cases,
  arith,
}
use hellnet_lib_database.Prelude.Int.{ℤ, pos, negsuc, ◌≤ℤ◌, ◌<ℤ◌}
use hellnet_lib_database.Text.{Text, codes, is_empty}
use hellnet_lib_database.Environment.{
  itoa_int, break_first, net_split_host_port, split_host_port, Durations, env_string, env_int, from,
  load_from_env,
}
use hellnet_lib_database.Environment.Numbers.{atoi-itoa_int}
use hellnet_lib_database.Options.{Options}
use hellnet_lib_database.Environment.Loaded.{
  is_host_char, itoa_host, has_none, plain_split, no_space, trim_space-no_space, all_host-no_space,
}
use hellnet_lib_database.Construction.{join_host_port, url_of}

break_first-append :
    (c : ℕ) (s t : Text) → any (λ x. x == c) s ≡ false → break_first c (s ++ c ∷ t) ≡ some (s, t)
unfolding break_first
break_first-append c [] t h = rw ((==_iff c c).1 refl) refl
break_first-append c (x ∷ s) t h =
    let f : (x == c) ≡ false = ground arith in
    rw f (rw (break_first-append c s t (ground arith)) refl)

-- a bracketed host in front of a port that is made of digits and a sign
bracketed_split :
    (host port : Text)
    → any (λ c. c == b'[') host ≡ false
    → any (λ c. c == b']') host ≡ false
    → all is_host_char port ≡ true
    → net_split_host_port (b'[' ∷ (host ++ b']' ∷ b':' ∷ port)) ≡ some (host, port)
unfolding net_split_host_port
bracketed_split host port a b k =
    rw (break_first-append b']' host (b':' ∷ port) b)
      (rw (a, has_none b':' port refl k, has_none b'[' port refl k, has_none b']' port refl k) refl)

split-join :
    (host : Text) (n : ℤ)
    → any (λ c. c == b'[') host ≡ false
    → any (λ c. c == b']') host ≡ false
    → net_split_host_port (join_host_port host (itoa_int n)) ≡ some (host, itoa_int n)
unfolding join_host_port
split-join host n a b = elim (Bool-cases (any (λ c. c == b':') host)) [
  | inl y ↦ rw y (bracketed_split host (itoa_int n) a b (itoa_host n))
  | inr f ↦ rw f (plain_split host (itoa_int n) f a b (itoa_host n))
]

no_space-append : (s t : Text) → no_space s ≡ true → no_space t ≡ true → no_space (s ++ t) ≡ true
no_space-append [] t h k = k
no_space-append (c ∷ s) t h k = ground (arith, no_space-append s t)

join-no_space :
    (host port : Text)
    → no_space host ≡ true
    → no_space port ≡ true
    → no_space (join_host_port host port) ≡ true
unfolding join_host_port
join-no_space host port h k = elim (Bool-cases (any (λ c. c == b':') host)) [
  | inl y ↦ rw y (no_space-append host (b']' ∷ b':' ∷ port) h k)
  | inr f ↦ rw f (no_space-append host (b':' ∷ port) h k)
]

join-nonempty : (host port : Text) → is_empty (join_host_port host port) ≡ false
unfolding join_host_port
join-nonempty [] port = refl
join-nonempty (c ∷ host) port = elim (Bool-cases (any (λ x. x == b':') (c ∷ host))) [
  | inl y ↦ rw y refl
  | inr f ↦ rw f refl
]

-- splitHostPort takes the endpoint of a connection URL apart into the host and the port of the options
split_host_port-url_of :
    (o : Options) (port : ℤ)
    → any (λ c. c == b'[') o.host ≡ false
    → any (λ c. c == b']') o.host ≡ false
    → no_space o.host ≡ true
    → negsuc 9223372036854775807 ≤ℤ o.port
    → o.port <ℤ pos 9223372036854775808
    → split_host_port (url_of o).host port ≡ (o.host, o.port)
unfolding split_host_port url_of
split_host_port-url_of o port a b h m n =
    let digits = all_host-no_space (itoa_int o.port) (itoa_host o.port) in
    let whole =
      trim_space-no_space (join_host_port o.host (itoa_int o.port))
        (join-no_space o.host (itoa_int o.port) h digits) in
    rw whole (rw (split-join o.host o.port a b) (rw (atoi-itoa_int o.port m n) refl))

-- When DATABASE_HOST holds the endpoint of the connection URL of some options, whose host has neither brackets nor
-- white space, as an IPv6 address has none, and whose port is an int64, LoadFromEnv gives their host and their
-- port, whatever DATABASE_PORT says.
pub load_from_env-url_of :
    (o : Options) (getenv : Text → Text) (time : Durations)
    → any (λ c. c == b'[') o.host ≡ false
    → any (λ c. c == b']') o.host ≡ false
    → no_space o.host ≡ true
    → negsuc 9223372036854775807 ≤ℤ o.port
    → o.port <ℤ pos 9223372036854775808
    → getenv (codes "DATABASE_HOST") ≡ (url_of o).host
    → ((load_from_env getenv time).host ≡ o.host) × ((load_from_env getenv time).port ≡ o.port)
unfolding load_from_env from env_string url_of
load_from_env-url_of o getenv time a b h m n set =
    let port = env_int getenv (codes "DATABASE_PORT") (pos 0) in
    let e = split_host_port-url_of o port a b h m n in
    let filled = join-nonempty o.host (itoa_int o.port) in
    rw (set, filled) (ap (λ q. q.0) e, ap (λ q. q.1) e)
