-- ===== src/Environment.antt =====
-- internal/env/env.go, and the part of database/database.go that fills Options from the environment. The
-- process environment is the parameter `getenv`, whose answer is empty for a variable that is not set;
-- parsing and printing of durations (time.ParseDuration, Duration.String, fmt.Sscanf) are parameters too.
pub mod Numbers
pub mod Loaded
use hellnet_lib_database.Prelude.{
  ℕ, suc, zero, ◌+◌, ◌-◌, ◌*◌, Bool, true, false, ◌||◌, not, Option, none, some, List, [], ◌∷◌,
  ◌++◌, any, ltb, leb, ◌==◌, if◌then◌else◌,
}
use hellnet_lib_database.Prelude.Int.{ℤ, pos, negsuc, ◌+ℤ◌, ◌*ℤ◌, int64}
use hellnet_lib_database.Text.{Text, codes, text_eq, is_empty, is_digit, trim_space, itoa}
use hellnet_lib_database.Options.{Options, default}

-- strconv.Itoa
unfoldable pub itoa_int : ℤ → Text
itoa_int (pos n) = itoa n
itoa_int (negsuc n) = b'-' ∷ itoa (suc n)

unfoldable pub parse_digits : ℕ → Text → Option ℕ
parse_digits acc [] = some acc
parse_digits acc (c ∷ s) = if is_digit c then parse_digits (acc * 10 + (c - b'0')) s else none

abbrev pub parse_unsigned : Text → Option ℕ
parse_unsigned [] = none
parse_unsigned (c ∷ s) = parse_digits 0 (c ∷ s)

-- a magnitude with its sign, if it is an int64
abbrev pub positive : Option ℕ → Option ℤ
positive none = none
positive (some n) = if ltb n 9223372036854775808 then some (pos n) else none

abbrev pub minus : ℕ → ℤ
minus zero = pos 0
minus (suc n) = negsuc n

abbrev pub negative : Option ℕ → Option ℤ
negative none = none
negative (some n) = if leb n 9223372036854775808 then some (minus n) else none

-- strconv.Atoi, with none for its error
unfoldable pub atoi : Text → Option ℤ
unfolding parse_digits
atoi [] = none
atoi (c ∷ s) =
    if c == b'-'
    then negative (parse_unsigned s)
    else if c == b'+'
    then positive (parse_unsigned s)
    else positive (parse_unsigned (c ∷ s))

-- strconv.FormatBool
abbrev pub format_bool : Bool → Text
format_bool true = codes "true"
format_bool false = codes "false"

-- strconv.ParseBool
unfoldable pub parse_bool : Text → Option Bool
unfolding text_eq codes
parse_bool s =
    if any (text_eq s)
      (codes "1" ∷ codes "t" ∷ codes "T" ∷ codes "TRUE" ∷ codes "true" ∷ codes "True" ∷ [])
    then some true
    else if any (text_eq s)
        (codes "0" ∷ codes "f" ∷ codes "F" ∷ codes "FALSE" ∷ codes "false" ∷ codes "False" ∷ [])
    then some false
    else none

abbrev pub or_fallback {ℓ} : {A : Type ℓ} → Option A → A → A
or_fallback none fallback = fallback
or_fallback (some x) fallback = x

-- what package time knows of durations
pub record Durations : Type 0 where
  pub print : ℤ → Text  -- Duration.String
  pub parse : Text → Option ℤ  -- time.ParseDuration
  pub clock : Text → Option (ℤ × ℤ × ℤ)  -- fmt.Sscanf with "%d:%d:%d"

-- h:m:s as nanoseconds, on int64
abbrev pub of_clock : Option (ℤ × ℤ × ℤ) → Option ℤ
of_clock none = none
of_clock (some (h, m, s)) =
    some (int64 (h *ℤ pos 3600000000000 +ℤ m *ℤ pos 60000000000 +ℤ s *ℤ pos 1000000000))

abbrev pub first_of {ℓ} : {A : Type ℓ} → Option A → Option A → Option A
first_of none b = b
first_of (some x) b = some x

-- net.SplitHostPort: the text around the first, and the last, character `c`
unfoldable pub break_first : ℕ → Text → Option (Text × Text)
break_first c [] = none
break_first c (x ∷ s) =
    let rest = break_first c s in
    if x == c then some ([], s) else elim rest [ none ↦ none | some p ↦ some (x ∷ p.0, p.1) ]

unfoldable pub break_last : ℕ → Text → Option (Text × Text)
break_last c [] = none
break_last c (x ∷ s) = elim (break_last c s) [
  | some p ↦ some (x ∷ p.0, p.1)
  | none ↦ if x == c then some ([], s) else none
]

abbrev has : ℕ → Text → Bool
has c s = any (λ x. x == c) s

-- behind a closing bracket: a colon and a port, with no colon or bracket in it
abbrev port_after : Text → Text → Option (Text × Text)
port_after host [] = none
port_after host (c ∷ port) =
    if not (c == b':') || (has b':' port || (has b'[' port || has b']' port))
    then none
    else some (host, port)

abbrev bracketed : Option (Text × Text) → Option (Text × Text)
bracketed none = none
bracketed (some (host, rest)) = if has b'[' host then none else port_after host rest

abbrev plain : Option (Text × Text) → Option (Text × Text)
plain none = none
plain (some (host, port)) =
    if has b':' host || (has b'[' host || (has b']' host || (has b'[' port || has b']' port)))
    then none
    else some (host, port)

unfoldable pub net_split_host_port : Text → Option (Text × Text)
unfolding break_first break_last
net_split_host_port [] = none
net_split_host_port (c ∷ s) =
    if c == b'[' then bracketed (break_first b']' s) else plain (break_last b':' (c ∷ s))

abbrev with_port : Text → ℤ → Text → Option ℤ → Text × ℤ
with_port host port parsed none = (host, port)
with_port host port parsed (some n) = (parsed, n)

abbrev with_split : Text → ℤ → Option (Text × Text) → Text × ℤ
with_split host port none = (host, port)
with_split host port (some (parsed, digits)) = with_port host port parsed (atoi digits)

-- splitHostPort
unfoldable pub split_host_port : Text → ℤ → Text × ℤ
unfolding net_split_host_port atoi
split_host_port host port =
    let trimmed = trim_space host in with_split trimmed port (net_split_host_port trimmed)

module _ (getenv : Text → Text) where
  -- Environment: the files that godotenv loads for these variables, and the default file for an empty list
  unfoldable pub dotenv_paths : List Text → List Text
  dotenv_paths [] = []
  dotenv_paths (key ∷ keys) =
      let rest = dotenv_paths keys in if is_empty (getenv key) then rest else getenv key ∷ rest

  -- String
  unfoldable pub env_string : Text → Text → Text
  env_string key fallback = if is_empty (getenv key) then fallback else getenv key

  -- Int
  unfoldable pub env_int : Text → ℤ → ℤ
  unfolding env_string atoi itoa_int
  env_int key fallback = or_fallback (atoi (env_string key (itoa_int fallback))) fallback

  -- Bool
  unfoldable pub env_bool : Text → Bool → Bool
  unfolding env_string parse_bool
  env_bool key fallback = or_fallback (parse_bool (env_string key (format_bool fallback))) fallback

  -- Duration
  unfoldable pub env_duration : Durations → Text → ℤ → ℤ
  unfolding env_string
  env_duration time key fallback =
      let raw = env_string key (time.print fallback) in
      or_fallback (first_of (time.parse raw) (of_clock (time.clock raw))) fallback

  -- `from`, on options that have the fields of `o` where it assigns none
  unfoldable pub from : Durations → Options → Options → Options
  unfolding env_string env_int env_bool env_duration split_host_port
  from time o base =
      let (host, port) =
        split_host_port (env_string (codes "DATABASE_HOST") [])
          (env_int (codes "DATABASE_PORT") (pos 0)) in
      record o {
        host = host;
        port = port;
        database = env_string (codes "DATABASE_NAME") [];
        username = env_string (codes "DATABASE_USERNAME") [];
        password = env_string (codes "DATABASE_PASSWORD") [];
        pool_min_size = env_int (codes "DATABASE_POOL_MIN_SIZE") base.pool_min_size;
        pool_max_size = env_int (codes "DATABASE_POOL_MAX_SIZE") base.pool_max_size;
        command_timeout = env_duration time (codes "DATABASE_COMMAND_TIMEOUT") base.command_timeout;
        connection_timeout =
            env_duration time (codes "DATABASE_CONNECTION_TIMEOUT") base.connection_timeout;
        retry_enabled = env_bool (codes "DATABASE_RETRY_ENABLED") base.retry_enabled;
        retry_max_count = env_int (codes "DATABASE_RETRY_MAX_COUNT") base.retry_max_count;
        retry_base_delay =
            env_duration time (codes "DATABASE_RETRY_BASE_DELAY") base.retry_base_delay;
        slow_query = env_duration time (codes "DATABASE_SLOW_QUERY") base.slow_query;
      }

  -- LoadFromEnv, with the variables of the .env file among those of `getenv`
  unfoldable pub load_from_env : Durations → Options
  unfolding from
  load_from_env time = from time default default
