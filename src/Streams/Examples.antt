-- ===== src/Streams/Examples.antt =====
-- A rope of two frames, pumped into a vector.
use openlake.Prelude.{◌≡◌, refl, List, [], ◌∷◌, ◌++◌, take, arith}
use openlake.Erasure.Codec.{Bytes}
use openlake.Erasure.Shards.{concat}
use openlake.Errors.{ok}
use openlake.Streams.{read_rope, write_vec, pump_n}
use openlake.Streams.Facts.{Gives}
use openlake.Streams.Pump.{pump_n-take}

abbrev rope : List Bytes
rope = (1 ∷ 2 ∷ []) ∷ (3 ∷ 4 ∷ 5 ∷ []) ∷ []

rope-Gives : Gives read_rope rope rope
unfolding read_rope
rope-Gives = ((3 ∷ 4 ∷ 5 ∷ []) ∷ [], refl, refl, ([], refl, refl, ([], refl)))

pump_n-take_example :
    (t : List Bytes) × (pump_n read_rope write_vec 4 rope (9 ∷ [])
      ≡ ok (t, (9 ∷ []) ++ take 4 (concat rope)))
unfolding concat
pump_n-take_example = pump_n-take read_rope 4 (9 ∷ []) rope rope rope-Gives (omega arith)
