-- ===== src/Runtime/Tests.antt =====
-- Runs of the pool manager, and its theorems at concrete inputs.
use funcbox.Prelude.{◌<◌, ◌≡◌, refl, codes, [], ◌∷◌, map, take, arith}
use funcbox.Runtime.Manager.{Manager, new_manager, acquire, Reach, here, next, request}
use funcbox.Runtime.Manager.Recency.{key_of, without, IsConsistent}
use funcbox.Runtime.Manager.Requests.{acquire-IsConsistent, keys-acquire}
use funcbox.Runtime.Manager.Steps.{Reach-IsConsistent}

abbrev after_a : Manager
after_a = (acquire (codes "a") (new_manager 2)).0

abbrev after_b : Manager
after_b = (acquire (codes "b") after_a).0

abbrev after_c : Manager
after_c = (acquire (codes "c") after_b).0

acquire_run : map key_of after_c.lru ≡ codes "c" ∷ codes "b" ∷ []
unfolding acquire new_manager
acquire_run = refl

after_b-Reach : Reach 2 after_b
after_b-Reach = next (next here (request (codes "a") refl)) (request (codes "b") refl)

Reach-IsConsistent_example : IsConsistent after_b × (after_b.max_pools ≡ 2)
Reach-IsConsistent_example = Reach-IsConsistent 2 (omega arith) after_b-Reach

room_b : 0 < after_b.max_pools
unfolding acquire new_manager
room_b = omega arith

after_b-IsConsistent : IsConsistent after_b
after_b-IsConsistent = (Reach-IsConsistent 2 (omega arith) after_b-Reach).0

acquire-IsConsistent_example : IsConsistent (acquire (codes "c") after_b).0
acquire-IsConsistent_example = acquire-IsConsistent (codes "c") after_b room_b after_b-IsConsistent

keys-acquire_example :
    map key_of (acquire (codes "c") after_b).0.lru
    ≡ take after_b.max_pools (codes "c" ∷ without (codes "c") (map key_of after_b.lru))
keys-acquire_example = keys-acquire (codes "c") after_b room_b after_b-IsConsistent
