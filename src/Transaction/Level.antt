-- ===== src/Transaction/Level.antt =====
-- The isolation levels that parseIsolationLevel takes.
use hellnet_lib_database.Prelude.{
  String, ◌≡◌, ◌≢◌, ◌⊎◌, ◌↔◌, ◌∙◌, ap, Bool, Option, some, ◌∷◌, map, arith,
}
use hellnet_lib_database.Text.{Text, codes, to_lower, to_upper, trim_space}
use hellnet_lib_database.Text.Laws.{text_eq_iff, trim_space-upper, map-lower-upper}
use hellnet_lib_database.Errors.{Err, errorf}
use hellnet_lib_database.World.{Handle, ok, err, Env, World, ret}
use hellnet_lib_database.World.Exec.{M}
use hellnet_lib_database.Core.{Conn}
use hellnet_lib_database.Transaction.{
  parse_isolation_level, isolation_levels, transactional_level, at_level,
}

abbrev pub normal_level : Text → Text
normal_level level = map to_lower (trim_space level)

-- A level is accepted exactly when, without the white space around it and in lower case, it is one
-- of the three documented names, and what is passed on is that name.
parse_level_iff :
    (level s : Text)
    → (parse_isolation_level level ≡ ok s) ↔ (
        (normal_level level ≡ s)
        × ((s ≡ codes "read committed")
            ⊎ ((s ≡ codes "repeatable read") ⊎ (s ≡ codes "serializable"))))
unfolding parse_isolation_level
parse_level_iff level s =
    let n = normal_level level in
    ground (
      arith,
      text_eq_iff (codes "read committed") n,
      text_eq_iff (codes "repeatable read") n,
      text_eq_iff (codes "serializable") n,
    )

-- An accepted level is accepted in capitals too.
pub parse_level-upper :
    (level s : Text)
    → parse_isolation_level level ≡ ok s
    → parse_isolation_level (map to_upper level) ≡ ok s
parse_level-upper level s h =
    let (a, b) = (parse_level_iff level s).0 h in
    (parse_level_iff (map to_upper level) s).1
      (ap (map to_lower) (trim_space-upper level) ∙ map-lower-upper (trim_space level) ∙ a, b)

parse_level-invalid :
    (level : Text)
    → normal_level level ≢ codes "read committed"
    → normal_level level ≢ codes "repeatable read"
    → normal_level level ≢ codes "serializable"
    → parse_isolation_level level
      ≡ err (
          errorf "database: invalid isolation level %q; valid levels: %q, %q, %q"
            (level ∷ isolation_levels))
unfolding parse_isolation_level
parse_level-invalid level a b c =
    let n = normal_level level in
    ground (
      arith,
      text_eq_iff (codes "read committed") n,
      text_eq_iff (codes "repeatable read") n,
      text_eq_iff (codes "serializable") n,
    )

-- Any other level is refused before anything is sent: the world is as it was.
invalid_level :
    (env : Env) (supports : Handle → Bool) (unsupported : String) (level : Text) (h : Handle)
    (src : Conn) (fn : Conn → M (Option Err)) (w : World)
    → normal_level level ≢ codes "read committed"
    → normal_level level ≢ codes "repeatable read"
    → normal_level level ≢ codes "serializable"
    → transactional_level env supports unsupported level h src fn w ≡ (
      ret (
          some (
            errorf "database: invalid isolation level %q; valid levels: %q, %q, %q"
              (level ∷ isolation_levels))),
      w,
    )
unfolding transactional_level at_level
invalid_level env supports unsupported level h src fn w a b c = rw (parse_level-invalid level a b c)
