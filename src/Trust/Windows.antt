-- ===== src/Trust/Windows.antt =====
-- The windows of the certificates.
use quosh.Base.Int.{◌+ℤ◌, ◌≤ℤ◌, ℤ, pos}
use quosh.Base.{◌*◌, arith}
use quosh.Trust.{epoch_at, window, CertChain}

-- At any time from the anchor on, the certificate of the current epoch is valid, and stays so for
-- at least 23 hours.
pub current_window :
    (c : CertChain) (now : ℤ)
    → c.anchor ≤ℤ now
    → ((window c (epoch_at c now)).0 ≤ℤ now)
      × ((now +ℤ pos (23 * 3600)) ≤ℤ (window c (epoch_at c now)).1)
unfolding epoch_at window
current_window c now h = ground arith
