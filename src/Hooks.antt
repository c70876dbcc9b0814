-- ===== src/Hooks.antt =====
-- hookRegistry of database/hooks.go. The methods that change it hold its lock for their whole body,
-- so each of them is one step.
pub mod Order
use hellnet_lib_database.Prelude.{ℕ, ◌==◌, Option, none, some, List, [], ◌∷◌, ◌++◌, if◌then◌else◌}
use hellnet_lib_database.World.{Hook, user, collector, QueryInfo, Registry}
use hellnet_lib_database.World.Exec.{M, pure}
use hellnet_lib_database.Options.{Options}

-- newHookRegistry
abbrev pub new_hook_registry : Options → Registry
new_hook_registry o = record { hs = o.query_hooks; met = none }

-- add
unfoldable pub add : Registry → Hook → Registry
add hr h = record hr { hs = hr.hs ++ h ∷ [] }

-- the list without the first hook that is the collector `target`
unfoldable pub without : ℕ → List Hook → List Hook
without target [] = []
without target (user i contextual ∷ hs) = user i contextual ∷ without target hs
without target (collector i ∷ hs) = if i == target then hs else collector i ∷ without target hs

-- remove
unfoldable pub remove : Registry → ℕ → Registry
unfolding without
remove hr target = record hr { hs = without target hr.hs }

-- snapshot, on a registry that may be nil
unfoldable pub snapshot : Option Registry → List Hook
snapshot none = []
snapshot (some hr) = hr.hs

-- setObserved
abbrev pub set_observed : Registry → Option ℕ → Registry
set_observed hr m = record hr { met = m }

-- observed, on a registry that may be nil
unfoldable pub observed : Option Registry → Option ℕ
observed none = none
observed (some hr) = hr.met

-- QueryHookFunc, whose functions may be nil, with its BeforeHook and AfterHook
pub record QueryHookFunc : Type 0 where
  pub before : Option (QueryInfo → M (Unit {0}))
  pub after : Option (QueryInfo → M (Unit {0}))

abbrev pub call_func : Option (QueryInfo → M (Unit {0})) → QueryInfo → M (Unit {0})
call_func none info = pure tt
call_func (some f) info = f info

unfoldable pub func_before : QueryHookFunc → QueryInfo → M (Unit {0})
func_before f info = call_func f.before info

unfoldable pub func_after : QueryHookFunc → QueryInfo → M (Unit {0})
func_after f info = call_func f.after info
