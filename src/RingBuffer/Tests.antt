-- ===== src/RingBuffer/Tests.antt =====
-- The ring at work, and where it goes wrong.
use pqnet.Common.{◌≡◌, refl, some, List, [], ◌∷◌, arith}
use pqnet.Endian.{little}
use pqnet.RingBuffer.Defs.{
  new, readable_bytes, writable_bytes, has_writable, strncpy, put_in, store, append, get_int,
  has_readable,
}
use pqnet.RingBuffer.Queue.{
  Op, puts, puts_int, gets, gets_int, number, Follows, ring_step, ring-refines,
}

abbrev session : List Op
session =
    puts (7 ∷ 8 ∷ 9 ∷ [])
    ∷ gets 2
    ∷ puts_int little 4 258
    ∷ gets 9
    ∷ gets 1
    ∷ gets_int little 4
    ∷ []

ring-refines_example : Follows session new []
ring-refines_example = ring-refines session (
  (omega arith, (refl, (refl, (refl, tt)))),
  (omega arith, (omega arith, (omega arith, (omega arith, (omega arith, tt))))),
)

session_run : (ring_step (gets_int little 4) new) ≡ some (number 0, new)
unfolding get_int has_readable readable_bytes new
session_run = refl

-- No bytes put into an empty ring make it full, and it then hands out bytes that nobody put in.
nothing_fills : readable_bytes ((append new []).1) ≡ 1024
unfolding append store has_writable writable_bytes put_in readable_bytes new
nothing_fills = refl

-- A zero byte ends the copy: what follows it is lost.
zero_cuts : strncpy 3 (5 ∷ 0 ∷ 6 ∷ []) ≡ 5 ∷ 0 ∷ 0 ∷ []
unfolding strncpy
zero_cuts = refl
