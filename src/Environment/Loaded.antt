-- ===== src/Environment/Loaded.antt =====
-- Options that are loaded from the environment: the endpoint in DATABASE_HOST, and variables that are not set.
use hellnet_lib_database.Prelude.{
  ℕ, suc, zero, ◌+◌, ◌/◌, ◌%◌, ◌≡◌, refl, inl, inr, Bool, true, false, ◌||◌, not, none, some, [],
  ◌∷◌, ◌++◌, any, all, ◌==◌, ==_iff, Bool-cases, arith,
}
use hellnet_lib_database.Prelude.Int.{ℤ, pos, negsuc, ◌≤ℤ◌, ◌<ℤ◌}
use hellnet_lib_database.Text.{
  Text, is_word, is_space, digits, itoa, trim_left, trim_right, trim_space,
}
use hellnet_lib_database.Environment.{
  itoa_int, break_last, net_split_host_port, split_host_port, Durations, from, load_from_env,
}
use hellnet_lib_database.Environment.Numbers.{atoi-itoa_int}
use hellnet_lib_database.Options.{default}

-- the characters of a host name, a sign and digits
abbrev pub is_host_char : ℕ → Bool
is_host_char c = is_word c || (c == b'.' || c == b'-')

digits_host :
    (fuel n : ℕ) (acc : Text)
    → all is_host_char acc ≡ true
    → all is_host_char (digits fuel n acc) ≡ true
unfolding digits
digits_host zero n acc h = h
digits_host (suc fuel) n acc h =
    let acc' : Text = (b'0' + n % 10) ∷ acc in
    let safe : all is_host_char acc' ≡ true = ground arith in
    elim (Bool-cases (n / 10 == 0)) [
      | inl e ↦ rw e safe
      | inr e ↦ rw e (digits_host fuel (n / 10) acc' safe)
    ]

pub itoa_host : (n : ℤ) → all is_host_char (itoa_int n) ≡ true
unfolding itoa_int itoa
itoa_host (pos n) = digits_host (suc n) n [] refl
itoa_host (negsuc n) = rw (digits_host (suc (suc n)) (suc n) [] refl) refl

pub has_none :
    (x : ℕ) (s : Text)
    → is_host_char x ≡ false
    → all is_host_char s ≡ true
    → any (λ c. c == x) s ≡ false
has_none x [] f h = refl
has_none x (c ∷ s) f h = ground (arith, has_none x s f)

-- a text without white space is its own trimming
is_host_char-ne_space : (c : ℕ) → is_host_char c ≡ true → is_space c ≡ false
is_host_char-ne_space c h = ground arith

abbrev pub no_space : Text → Bool
no_space s = all (λ c. not (is_space c)) s

trim_right-no_space : (s : Text) → no_space s ≡ true → trim_right s ≡ s
unfolding trim_right
trim_right-no_space [] h = refl
trim_right-no_space (c ∷ s) h = ground (arith, trim_right-no_space s)

pub trim_space-no_space : (s : Text) → no_space s ≡ true → trim_space s ≡ s
unfolding trim_space trim_left
trim_space-no_space [] h = trim_right-no_space [] refl
trim_space-no_space (c ∷ s) h =
    let f : is_space c ≡ false = ground arith in rw f (trim_right-no_space (c ∷ s) h)

host_no_space :
    (s t : Text) → all is_host_char s ≡ true → no_space t ≡ true → no_space (s ++ t) ≡ true
host_no_space [] t h k = k
host_no_space (c ∷ s) t h k = ground (arith, host_no_space s t, is_host_char-ne_space c)

-- the last colon
break_last-none : (c : ℕ) (s : Text) → any (λ x. x == c) s ≡ false → break_last c s ≡ none
unfolding break_last
break_last-none c [] h = refl
break_last-none c (x ∷ s) h =
    let f : (x == c) ≡ false = ground arith in rw (break_last-none c s (ground arith)) (rw f refl)

break_last-append :
    (c : ℕ) (s t : Text) → any (λ x. x == c) t ≡ false → break_last c (s ++ c ∷ t) ≡ some (s, t)
unfolding break_last
break_last-append c [] t h = rw (break_last-none c t h) (rw ((==_iff c c).1 refl) refl)
break_last-append c (x ∷ s) t h = rw (break_last-append c s t h) refl

pub all_host-no_space : (s : Text) → all is_host_char s ≡ true → no_space s ≡ true
all_host-no_space [] h = refl
all_host-no_space (c ∷ s) h = ground (arith, all_host-no_space s, is_host_char-ne_space c)

-- a host without a colon, and no bracket anywhere
pub plain_split :
    (host port : Text)
    → any (λ c. c == b':') host ≡ false
    → any (λ c. c == b'[') host ≡ false
    → any (λ c. c == b']') host ≡ false
    → all is_host_char port ≡ true
    → net_split_host_port (host ++ b':' ∷ port) ≡ some (host, port)
unfolding net_split_host_port
plain_split [] port a b c k =
    rw
      (
        break_last-append b':' [] port (has_none b':' port refl k),
        has_none b'[' port refl k,
        has_none b']' port refl k,
      )
      refl
plain_split (x ∷ s) port a b c k =
    let f : (x == b'[') ≡ false = ground arith in
    rw f (
      rw (break_last-append b':' (x ∷ s) port (has_none b':' port refl k))
        (rw (a, b, c, has_none b'[' port refl k, has_none b']' port refl k) refl))

-- An endpoint that is made of a host name of letters, digits, _, . and -, a colon and a printed int64 is split
-- into the host and that number, whatever DATABASE_PORT says.
split_host_port-itoa_int :
    (host : Text) (n port : ℤ)
    → all is_host_char host ≡ true
    → negsuc 9223372036854775807 ≤ℤ n
    → n <ℤ pos 9223372036854775808
    → split_host_port (host ++ b':' ∷ itoa_int n) port ≡ (host, n)
unfolding split_host_port
split_host_port-itoa_int host n port h a b =
    let digits = itoa_host n in
    let whole =
      trim_space-no_space (host ++ b':' ∷ itoa_int n)
        (host_no_space host (b':' ∷ itoa_int n) h (all_host-no_space (itoa_int n) digits)) in
    rw whole (
      rw
        (plain_split host (itoa_int n) (has_none b':' host refl h) (has_none b'[' host refl h)
          (has_none b']' host refl h) digits)
        (rw (atoi-itoa_int n a b) refl))

module _ (getenv : Text → Text) (time : Durations) (unset : (key : Text) → getenv key ≡ []) where
  -- When no variable is set and package time reads back the durations of the defaults that it prints, LoadFromEnv
  -- gives the defaults.
  load_from_env-unset :
      time.parse (time.print default.command_timeout) ≡ some default.command_timeout
      → time.parse (time.print default.connection_timeout) ≡ some default.connection_timeout
      → time.parse (time.print default.retry_base_delay) ≡ some default.retry_base_delay
      → time.parse (time.print default.slow_query) ≡ some default.slow_query
      → load_from_env getenv time ≡ default
  unfolding load_from_env from trim_space itoa
  load_from_env-unset a b c d = simp (unset, a, b, c, d) refl
