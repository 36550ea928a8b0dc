-- ===== src/Tests/ProfileRuns.antt =====
-- The masks of the configurations at some numbers.
use libfastpaxos.Base.{◌≡◌, ◌≢◌, refl, arith}
use libfastpaxos.Base.Int.{pos, negsuc}
use libfastpaxos.Config.Profiles.{
  ring_index, remainder, highspeed, ring_index-remainder, window_apart,
}

negative_index : ring_index 1024 (negsuc 0) ≡ 1023
negative_index = refl

ring_index-remainder_example :
    (ring_index 2048 (negsuc 5) ≡ remainder 2048 (negsuc 5))
    × (ring_index 1024 (negsuc 5) ≡ remainder 1024 (negsuc 5))
    × (ring_index 1024 (negsuc 5) ≡ remainder 1024 (negsuc 5))
ring_index-remainder_example = ring_index-remainder highspeed (negsuc 5)

window_apart_example :
    (ring_index 1024 (pos 1000) ≢ ring_index 1024 (pos 1256))
    × (ring_index 2048 (pos 1000) ≢ ring_index 2048 (pos 1256))
window_apart_example =
    window_apart highspeed 1000 1000 1256 (omega arith) (omega arith) (omega arith)
