-- ===== src/Options/Defaults.antt =====
-- What withDefaults keeps and changes, and which options pass Validate.
use hellnet_lib_database.Prelude.{◌≡◌, ◌≢◌, ◌⊎◌, ◌↔◌, true, false, none, arith}
use hellnet_lib_database.Prelude.Int.{ℤ, pos, ◌<ℤ◌}
use hellnet_lib_database.Text.{Text, is_empty, trim_space}
use hellnet_lib_database.Options.{Options, text_or, int_or, default, with_defaults, validate}

text_or_idem : (s d : Text) → text_or (text_or s d) d ≡ text_or s d
unfolding text_or
text_or_idem s d = ground arith

int_or_idem : (n d : ℤ) → int_or (int_or n d) d ≡ int_or n d
unfolding int_or
int_or_idem n d = ground arith

-- Filling the defaults in twice is filling them in once.
pub with_defaults_idem : (o : Options) → with_defaults (with_defaults o) ≡ with_defaults o
unfolding with_defaults
with_defaults_idem o = simp (int_or_idem, text_or_idem) (ground arith)

-- Retries that a caller turns off come back on, if the count and the delay are left at their zero
-- values or set to the defaults: this is every configuration by DATABASE_RETRY_ENABLED=false alone.
pub with_defaults_enables_retry :
    (o : Options)
    → (o.retry_max_count ≡ pos 0) ⊎ (o.retry_max_count ≡ default.retry_max_count)
    → (o.retry_base_delay ≡ pos 0) ⊎ (o.retry_base_delay ≡ default.retry_base_delay)
    → (with_defaults o).retry_enabled ≡ true
unfolding with_defaults int_or
with_defaults_enables_retry o c d = ground arith

-- Retries stay off exactly when the caller turned them off and set the count or the delay to
-- something that is neither zero nor the default.
retry_off_iff :
    (o : Options)
    → ((with_defaults o).retry_enabled ≡ false) ↔ (
        (o.retry_enabled ≡ false)
        × (((o.retry_max_count ≢ pos 0) × (o.retry_max_count ≢ pos 3))
            ⊎ ((o.retry_base_delay ≢ pos 0) × (o.retry_base_delay ≢ pos 100000000))))
unfolding with_defaults int_or
retry_off_iff o = ground arith

-- Validate accepts exactly the options whose name, user and password are not blank and whose pool
-- maximum is positive.
pub validate_iff :
    (o : Options)
    → (validate o ≡ none) ↔ (
        (is_empty (trim_space o.database) ≡ false)
        × (is_empty (trim_space o.username) ≡ false)
        × (is_empty (trim_space o.password) ≡ false)
        × (pos 0 <ℤ o.pool_max_size))
unfolding validate
validate_iff o = ground arith
