-- ===== src/Examples/Hooks.antt =====
-- Runs of the operations of a connection with a hook that panics, and the registry of hooks.
use hellnet_lib_database.Prelude.{ℕ, true, none, [], ◌∷◌}
use hellnet_lib_database.Text.{Text, codes}
use hellnet_lib_database.World.{Env, user, Registry}
use hellnet_lib_database.Core.{Mapper}
use hellnet_lib_database.World.{collector}
use hellnet_lib_database.Examples.{healthy}

-- every hook panics
abbrev panicking : Env
panicking = record healthy { hook_panics = λ _. true }

abbrev pub numbers : Mapper ℕ
numbers = record {
  zero_value = 0;
  rows = λ _. (1 ∷ 2 ∷ [], none);
  one_row = λ _. (1, none);
  scanned = λ _. (1, none);
}

abbrev pub select : Text
select = codes "SELECT n FROM t"

abbrev two_hooks : Registry
two_hooks = record { hs = user 3 true ∷ collector 4 ∷ []; met = none }
