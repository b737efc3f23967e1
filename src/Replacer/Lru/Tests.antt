-- ===== src/Replacer/Lru/Tests.antt =====
-- The replacer on a concrete sequence of calls.
use cscc_db.Base.{◌≡◌, refl, none, some, List, [], ◌∷◌}
use cscc_db.Replacer.Lru.{init, victim, pin, unpin, back, pop_back, erase_node}
use cscc_db.Replacer.Lru.Order.{Call, victims, pins, unpins, step, run, queue_run, run-init}

-- Frames 1, 2 and 3 are released, 1 is pinned, and 2 is released again, to no effect.
abbrev calls : List Call
calls = unpins 1 ∷ unpins 2 ∷ unpins 3 ∷ pins 1 ∷ unpins 2 ∷ victims ∷ victims ∷ victims ∷ []

run-calls : run (init 8) calls ≡ none ∷ none ∷ none ∷ none ∷ none ∷ some 2 ∷ some 3 ∷ none ∷ []
unfolding run step init victim pin unpin back pop_back erase_node
run-calls = refl

run-init_example : run (init 8) calls ≡ queue_run [] calls
run-init_example = run-init 8 calls
