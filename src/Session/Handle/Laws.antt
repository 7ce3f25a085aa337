-- ===== src/Session/Handle/Laws.antt =====
-- What the calls of a session's handle promise to its connections.
use quosh.Base.{
  ℕ, zero, suc, ◌+◌, ◌%◌, ◌^◌, ◌≤◌, ◌<◌, ◌≡◌, refl, ◌∙◌, ◌↔◌, inl, inr, false, some, List, arith,
  ltb, ◌==◌, if◌then◌else◌, ==_self, Bool-cases, length,
}
use quosh.Proto.{max_input_bytes}
use quosh.Session.Handle.{
  claim_transport, detach_if_epoch, outcome, try_input, OwnerMsg, Session, Sent, input, sent, full,
  closed, queued,
}

outcome-queued : (o : Sent) → (outcome o ≡ queued) ↔ (o ≡ sent)
outcome-queued sent = (λ _. refl, λ _. refl)
outcome-queued full = (λ h. ground arith, λ h. ground arith)
outcome-queued closed = (λ h. ground arith, λ h. ground arith)

-- A handle lets an input through when it has bytes, and not too many, and the channel takes it.
pub try_input-queued :
    (try_send : OwnerMsg → Sent) (seq : ℕ) (b : List ℕ)
    → (try_input try_send seq b ≡ queued)
      ↔ ((0 < length b) × (length b ≤ max_input_bytes) × (try_send (input seq b) ≡ sent))
unfolding try_input
try_input-queued try_send seq b = elim (Bool-cases (length b == 0)) [
  | inl t ↦ rw t (λ h. ground arith, λ h. ground arith)
  | inr f ↦ elim (Bool-cases (ltb max_input_bytes (length b))) [
    | inl t ↦ rw (f, t) (λ h. ground arith, λ h. ground arith)
    | inr g ↦
        rw (f, g)
          (
            λ h. (ground arith, ground arith, (outcome-queued (try_send (input seq b))).0 h),
            λ h. (outcome-queued (try_send (input seq b))).1 h.2,
          )
  ]
]

-- The handle after `k` more transports took it.
abbrev pub claimed : ℕ → Session → Session
claimed zero s = s
claimed (suc k) s = claimed k (claim_transport s).1

-- The number of the transport that has the session.
abbrev pub owned : Session → ℕ
owned s = s.epoch

claimed-epoch :
    (k : ℕ) (s : Session) → owned s < 2 ^ 64 → (claimed k s).epoch ≡ (s.epoch + k) % 2 ^ 64
unfolding claim_transport
claimed-epoch zero s h = omega arith
claimed-epoch (suc k) s h = claimed-epoch k (claim_transport s).1 (omega arith) ∙ omega arith

-- A transport took the handle, and then `k` others did, less than 2 ^ 64: when the first one leaves,
-- the handle is marked as detached if there were no others, and else stays as it is.
pub detach_if_epoch-claim_transport :
    (s : Session) (k now : ℕ)
    → s.epoch < 2 ^ 64
    → k < 2 ^ 64
    → detach_if_epoch (claimed k (claim_transport s).1) (claim_transport s).0 now ≡ (
        if k == 0
        then record (claim_transport s).1 { last_detach = some now }
        else claimed k (claim_transport s).1)
unfolding detach_if_epoch claim_transport
detach_if_epoch-claim_transport s zero now h g = simp (==_self ((s.epoch + 1) % 2 ^ 64))
detach_if_epoch-claim_transport s (suc k) now h g =
    let next = (s.epoch + 1) % 2 ^ 64 in
    let e = claimed-epoch (suc k) (claim_transport s).1 (omega arith) in
    let other : ((claimed (suc k) (claim_transport s).1).epoch == next) ≡ false =
      ground (arith, e) in
    let more : (suc k == 0) ≡ false = ground arith in simp (other, more)
