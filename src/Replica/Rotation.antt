-- ===== src/Replica/Rotation.antt =====
-- How reads rotate over the replicas.
use native.Mathlib.Nat.{mod-eq_of_lt}
use mathlib.Core.List.{append_assoc}
use hellnet_lib_database.Prelude.{
  map, ◌++◌, length-append, get_elem?-middle, ℕ, zero, suc, ◌+◌, ◌-◌, ◌%◌, ◌^◌, ◌≤◌, ◌<◌, ◌≡◌, refl,
  ap, inl, inr, none, some, List, [], ◌∷◌, length, get_elem?, arith, Bool-cases, ltb,
}
use hellnet_lib_database.Prelude.Int.{pos, negsuc}
use hellnet_lib_database.Replica.{reads, Cluster, pick, next_index, replica}

pub get_elem?-some : (xs : List ℕ) (i : ℕ) → i < length xs → (x : ℕ) × (get_elem? xs i ≡ some x)
get_elem?-some [] i h = elim h [ ]
get_elem?-some (x ∷ xs) zero h = (x, refl)
get_elem?-some (x ∷ xs) (suc i) h = get_elem?-some xs i (omega arith)

abbrev pub u32_mod : ℕ
u32_mod = 4294967296

counter_back : (n : ℕ) → n < u32_mod → ((n + 1) % 2 ^ 32 + 2 ^ 32 - 1) % 2 ^ 32 ≡ n
counter_back n h = omega arith

next_index64 : (n : ℕ) → n < u32_mod → next_index 64 n ≡ pos n
unfolding next_index
next_index64 n h = rw (counter_back n h) (ground arith)

next_index32 : (n : ℕ) → 2 ^ 31 ≤ n → n < u32_mod → next_index 32 n ≡ negsuc (2 ^ 32 - n - 1)
unfolding next_index
next_index32 n h l = rw (counter_back n l) (ground arith)

-- Where int has 64 bits, a read of a cluster with replicas goes to the replica at the counter modulo
-- their number, and the counter moves on by one, around at 2^32.
pub replica_lem :
    (cl : Cluster)
    → cl.rr < u32_mod
    → 0 < length cl.replicas
    → replica 64 cl ≡ (
      get_elem? cl.replicas (cl.rr % length cl.replicas),
      record cl { rr = (cl.rr + 1) % 2 ^ 32 },
    )
unfolding replica pick
replica_lem cl h l = elim (Bool-cases (ltb 0 (length cl.replicas))) [
  | inl y ↦ simp (y, next_index64 cl.rr h)
  | inr n ↦ absurd (ground (arith, n))
]

reads_from :
    (primary : ℕ) (pre rest : List ℕ)
    → length (pre ++ rest) < u32_mod
    → reads 64 (length rest) (record { primary = primary; replicas = pre ++ rest; rr = length pre })
      ≡ map some rest
unfolding reads
reads_from primary pre [] h = refl
reads_from primary pre (r ∷ rest) h =
    let all_length = length-append {0} pre (r ∷ rest) in
    let e : (pre ++ r ∷ []) ++ rest ≡ pre ++ (r ∷ rest) = append_assoc pre (r ∷ []) rest in
    let l : (length pre + 1) % 2 ^ 32 ≡ length (pre ++ r ∷ []) =
      omega (arith, length-append {0} pre (r ∷ []), all_length) in
    let first =
      replica_lem (record { primary = primary; replicas = pre ++ (r ∷ rest); rr = length pre })
        (omega (arith, all_length)) (omega (arith, all_length)) in
    let m =
      mod-eq_of_lt {n = length pre} {m = length (pre ++ (r ∷ rest))} (omega (arith, all_length)) in
    let ih = reads_from primary (pre ++ r ∷ []) rest (rw e h) in
    rw (first, m, get_elem?-middle {0} pre rest r, l) (ap (λ x. some r ∷ x) (rw e at ih))

-- The first reads of a cluster, one for each replica, go to all the replicas in their order, where
-- int has 64 bits.
reads_all :
    (primary : ℕ) (replicas : List ℕ)
    → length replicas < u32_mod
    → reads 64 (length replicas) (record { primary = primary; replicas = replicas; rr = 0 })
      ≡ map some replicas
reads_all primary replicas h = reads_from primary [] replicas h

-- A cluster without replicas reads from its primary, on every platform.
replica-primary : (cl : Cluster) (w : ℕ) → cl.replicas ≡ [] → replica w cl ≡ (some cl.primary, cl)
unfolding replica
replica-primary cl w h = elim (Bool-cases (ltb 0 (length cl.replicas))) [
  | inr n ↦ rw n
  | inl y ↦ absurd (ground (arith, ap (length {0}) h, y))
]

-- Where int has 32 bits, once 2^31 reads were made, a read indexes the replicas by a negative number
-- and fails, unless that number is a multiple of their count.
pub replica_int32 :
    (cl : Cluster)
    → 2 ^ 31 ≤ cl.rr
    → cl.rr < u32_mod
    → 0 < (2 ^ 32 - cl.rr) % length cl.replicas
    → 0 < length cl.replicas
    → (replica 32 cl).0 ≡ none
unfolding replica pick
replica_int32 cl h k m l =
    let e : suc (2 ^ 32 - cl.rr - 1) ≡ 2 ^ 32 - cl.rr = omega arith in
    elim (Bool-cases (ltb 0 (length cl.replicas))) [
      | inl y ↦ simp (y, next_index32 cl.rr h k, e) (ground arith)
      | inr n ↦ absurd (ground (arith, n))
    ]
