-- ===== src/Replica.antt =====
-- database/replica.go: a cluster routes writes to its primary and reads across its replicas. A
-- pointer to a DB is its number here, and `none` is nil.
pub mod Rotation
pub mod Routed
pub mod Reads
use hellnet_lib_database.Prelude.{
  ℕ, zero, suc, ◌+◌, ◌-◌, ◌%◌, ◌^◌, Option, none, some, List, [], ◌∷◌, length, get_elem?, ltb,
  if◌then◌else◌,
}
use hellnet_lib_database.Prelude.Int.{ℤ, pos, negsuc, signed}
use hellnet_lib_database.Text.{Text, itoa}
use hellnet_lib_database.Errors.{Err, sentinel, nil_primary, errorf}
use hellnet_lib_database.World.{Reply, ok, err}

-- Cluster; `rr` is the uint32 of the atomic counter
pub record Cluster : Type 0 where
  pub primary : ℕ
  pub replicas : List ℕ
  pub rr : ℕ

-- the replicas, if none of them is nil
unfoldable pub replicas_from : ℕ → List (Option ℕ) → Reply (List ℕ)
replicas_from i [] = ok []
replicas_from i (none ∷ rs) =
    err (errorf "database: cluster replica at index %d is nil" (itoa i ∷ []))
replicas_from i (some r ∷ rs) =
    let rest = replicas_from (suc i) rs in elim rest [ ok l ↦ ok (r ∷ l) | err e ↦ err e ]

abbrev built : ℕ → Reply (List ℕ) → Reply Cluster
built primary (err e) = err e
built primary (ok replicas) = ok (record { primary = primary; replicas = replicas; rr = 0 })

-- NewCluster
unfoldable pub new_cluster : Option ℕ → List (Option ℕ) → Reply Cluster
new_cluster none replicas = err (sentinel nil_primary)
new_cluster (some primary) replicas = built primary (replicas_from 0 replicas)

-- `int(x)` of a uint32 where int has `width` bits
abbrev pub to_int : ℕ → ℕ → ℤ
to_int width x = signed width x

-- `replicas[next%n]`; a negative index is out of range
unfoldable pub pick : List ℕ → ℤ → Option ℕ
pick rs (pos k) = get_elem? rs (k % length rs)
pick rs (negsuc k) = let m = suc k % length rs in if ltb 0 m then none else get_elem? rs 0

-- the counter after `rr.Add(1)`
abbrev pub added : ℕ → ℕ
added rr = (rr + 1) % 2 ^ 32

-- `int(cl.rr.Add(1) - 1)`
unfoldable pub next_index : ℕ → ℕ → ℤ
next_index width rr = to_int width ((added rr + 2 ^ 32 - 1) % 2 ^ 32)

-- Replica, on a platform whose int has `width` bits: the DB that is chosen, or `none` for an index
-- out of range, and the cluster afterwards
unfoldable pub replica : ℕ → Cluster → Option ℕ × Cluster
replica width cl =
    if ltb 0 (length cl.replicas)
    then (pick cl.replicas (next_index width cl.rr), record cl { rr = added cl.rr })
    else (some cl.primary, cl)

-- the reads of `n` calls in a row
unfoldable pub reads : ℕ → ℕ → Cluster → List (Option ℕ)
unfolding replica
reads width zero cl = []
reads width (suc n) cl = let (r, cl') = replica width cl in r ∷ reads width n cl'
