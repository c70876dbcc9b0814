-- ===== src/Options/Pool.antt =====
-- The pool sizes handed to pgxpool.
use hellnet_lib_database.Prelude.{◌≡◌, ◌⊎◌, arith}
use hellnet_lib_database.Prelude.Int.{ℤ, pos, ◌≤ℤ◌, ◌<ℤ◌}
use hellnet_lib_database.Options.{Options, min_conns, max_conns, max_int32}

-- `lo` and `hi` are sizes of a pool for the options: in the range of int32, the minimum below the maximum
-- where that is possible, and each the size of the options unless that one is out of its range
abbrev pub Sized : Options → ℤ → ℤ → Type 0
Sized o lo hi =
    (pos 0 ≤ℤ lo)
    × (lo ≤ℤ max_int32)
    × (hi ≤ℤ max_int32)
    × ((lo <ℤ hi) ⊎ ((lo ≡ max_int32) × (hi ≡ max_int32)))
    × ((lo ≡ o.pool_min_size) ⊎ ((o.pool_min_size <ℤ pos 0) ⊎ (max_int32 <ℤ o.pool_min_size)))
    × ((hi ≡ o.pool_max_size) ⊎ ((o.pool_max_size ≤ℤ lo) ⊎ (max_int32 <ℤ o.pool_max_size)))

pub conns-Sized : (o : Options) → Sized o (min_conns o) (max_conns o)
unfolding max_conns
conns-Sized o = ground arith

-- Both sizes are in the range of int32, the minimum is not negative, and the maximum is above the
-- minimum unless the minimum is the largest int32 already.
conns_bounds :
    (o : Options)
    → (pos 0 ≤ℤ min_conns o)
      × (min_conns o ≤ℤ max_int32)
      × (max_conns o ≤ℤ max_int32)
      × ((min_conns o <ℤ max_conns o) ⊎ ((min_conns o ≡ max_int32) × (max_conns o ≡ max_int32)))
unfolding max_conns
conns_bounds o = ground arith
