-- ===== src/Hooks/Order.antt =====
-- Attaching and detaching a collector leaves the other hooks and their order alone.
use hellnet_lib_database.Prelude.{ℕ, ◌≡◌, ap, ◌==◌, arith, Bool, false, List, [], ◌∷◌, ◌++◌, any}
use hellnet_lib_database.World.{Hook, user, collector, Registry}
use hellnet_lib_database.Hooks.{add, without, remove}

abbrev pub is_collector : ℕ → Hook → Bool
is_collector m (user _ _) = false
is_collector m (collector i) = i == m

pub without-append :
    (m : ℕ) (hs : List Hook)
    → any (is_collector m) hs ≡ false
    → without m (hs ++ collector m ∷ []) ≡ hs
unfolding without
without-append m [] h = ground arith
without-append m (user i b ∷ hs) h = ap (λ l. user i b ∷ l) (without-append m hs h)
without-append m (collector i ∷ hs) h = ground (arith, without-append m hs)

-- Adding a collector that is not registered and removing it again gives back the registry, with
-- every other hook in its place.
remove-add :
    (hr : Registry) (m : ℕ)
    → any (is_collector m) hr.hs ≡ false
    → remove (add hr (collector m)) m ≡ hr
unfolding add remove
remove-add hr m h = rw (without-append m hr.hs h)
