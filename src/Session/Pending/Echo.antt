-- ===== src/Session/Pending/Echo.antt =====
-- The echo checkpoint: what `advance_echo_ack` takes from the inputs that were written whole.
use quosh.Base.{
  ℕ, ◌+◌, ◌≤◌, ◌<◌, ◌≡◌, refl, ap, ◌≢◌, ◌↔◌, inl, inr, Bool, true, false, not, [], ◌∷◌, ◌++◌, arith,
  leb, ◌==◌, leb→le, ==_iff, Bool-cases, All,
}
use quosh.Session.Pending.{echo_timeout, History, echo_loop, advance_echo_ack}

-- The newest input of a history, or the checkpoint there was.
abbrev pub newest_of : ℕ → History → ℕ
newest_of ack [] = ack
newest_of ack ((s, at) ∷ h) = newest_of s h

-- The first input left has not settled yet.
abbrev pub Unsettled : History → ℕ → Type 0
Unsettled [] now = Unit
Unsettled ((s, at) ∷ h) now = now < at + echo_timeout

-- The history is cut where the settled inputs end, and the checkpoint is the newest of them.
pub record Settled (ack : ℕ) (h : History) (now : ℕ) (r : ℕ × History × Bool) : Type 0 where
  pub taken : History
  pub cut : h ≡ taken ++ r.1
  pub settled : All (λ e. e.1 + echo_timeout ≤ now) taken
  pub unsettled : Unsettled r.1 now
  pub newest : r.0 ≡ newest_of ack taken
  pub moved : (r.2 ≡ true) ↔ (r.0 ≢ ack)

echo_loop-cut :
    (ack : ℕ) (h : History) (now : ℕ)
    → (taken : History) × (h ≡ taken ++ (echo_loop ack h now).1)
      × All (λ e. e.1 + echo_timeout ≤ now) taken
      × Unsettled (echo_loop ack h now).1 now
      × ((echo_loop ack h now).0 ≡ newest_of ack taken)
unfolding echo_loop
echo_loop-cut ack [] now = ([], refl, tt, tt, refl)
echo_loop-cut ack ((s, at) ∷ h) now = elim (Bool-cases (leb (at + echo_timeout) now)) [
  | inl t ↦
      let (taken, cut, settled, unsettled, newest) = echo_loop-cut s h now in
      rw t (
        (s, at) ∷ taken,
        ap (λ r. (s, at) ∷ r) cut,
        (leb→le (at + echo_timeout) now t, settled),
        unsettled,
        newest,
      )
  | inr f ↦ rw f ([], refl, tt, omega (arith, young f), refl)
]
  where
    young : leb (at + echo_timeout) now ≡ false → now < at + echo_timeout
    young f = ground arith

-- `advance_echo_ack` takes the settled inputs from the front of the history, up to the first that
-- has not settled; the newest taken is the checkpoint, and it says whether the checkpoint moved.
pub advance_echo_ack-Settled :
    (ack : ℕ) (h : History) (now : ℕ) → Settled ack h now (advance_echo_ack ack h now)
unfolding advance_echo_ack
advance_echo_ack-Settled ack h now =
    let (taken, cut, settled, unsettled, newest) = echo_loop-cut ack h now in
    record {
      taken = taken;
      cut = cut;
      settled = settled;
      unsettled = unsettled;
      newest = newest;
      moved = differs (echo_loop ack h now).0 ack;
    }
  where
    differs : (a b : ℕ) → (not (a == b) ≡ true) ↔ (a ≢ b)
    differs a b = ground (arith, ==_iff a b)
