-- ===== src/Trigger/Laws.antt =====
-- What a registration leaves in the history.
use pqnet.Common.{ℕ, ◌≡◌, arith}
use pqnet.Kernel.{History, Kernel, sent_on}
use pqnet.Trigger.Defs.{
  Trigger, add_to_loop, remove_from_loop, like_reading, like_writing, omit_writing,
}

-- Registrations move no bytes.
module _ (k : Kernel) (fd : ℕ) (t : Trigger) (h : History) where
  pub sent_on-registered :
      (sent_on fd (add_to_loop k t h) ≡ sent_on fd h)
      × (sent_on fd (remove_from_loop k t h) ≡ sent_on fd h)
      × (sent_on fd (like_reading k t h).1 ≡ sent_on fd h)
      × (sent_on fd (like_writing k t h).1 ≡ sent_on fd h)
      × (sent_on fd (omit_writing k t h).1 ≡ sent_on fd h)
  unfolding sent_on add_to_loop remove_from_loop like_reading like_writing omit_writing
  sent_on-registered = ground arith
