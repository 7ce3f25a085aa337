-- ===== src/Transport/Busy.antt =====
-- The inputs that wait until the channel to the owner has room.
use quosh.Base.{
  ℕ, ◌≤◌, ◌<◌, ◌≡◌, refl, sym, ap, ◌∙◌, ◌≢◌, ◌⊎◌, inl, inr, false, List, [], ◌∷◌, ◌++◌, append-nil,
  append_assoc, arith, ltb, ◌==◌, length, All,
}
use quosh.Proto.{max_input_bytes}
use quosh.Session.Handle.{outcome, try_input, OwnerMsg, Sent, input, sent, full, closed}
use quosh.Transport.Cmds.{Logs, Channel}
use quosh.Transport.{Records, send_input, drain_answer, drain_busy}

abbrev pub commands : Records → List OwnerMsg
commands [] = []
commands ((seq, bytes) ∷ q) = input seq bytes ∷ commands q

-- What `on_control` lets through to the queue.
abbrev pub IsRecord : ℕ × List ℕ → Type 0
IsRecord r = (0 < length r.1) × (length r.1 ≤ max_input_bytes)

module _ {C : Type 0} (chan : Channel C) where
  -- A part of the queue went to the owner, in its order. What is left is still queued, unless the
  -- owner is gone: then one more input is dropped.
  pub record Drained (c c' : C) (q q' : Records) : Type 0 where
    pub taken : Records
    pub logged : chan.log c' ≡ chan.log c ++ commands taken
    pub left :
        (q ≡ taken ++ q')
        ⊎ ((lost : ℕ × List ℕ) × (q ≡ taken ++ (lost ∷ q'))
            × ((d : C) × ((chan.try_send d (input lost.0 lost.1)).0 ≡ closed)))

  -- An input that may be sent comes back with what the channel says.
  send_input_lem :
      (c : C) (seq : ℕ) (b : List ℕ)
      → IsRecord (seq, b)
      → send_input chan c seq b
        ≡ (outcome (chan.try_send c (input seq b)).0, (chan.try_send c (input seq b)).1)
  unfolding send_input try_input
  send_input_lem c seq b h =
      let some_bytes : (length b == 0) ≡ false = ground arith in
      let few : ltb max_input_bytes (length b) ≡ false = ground arith in rw (some_bytes, few) refl

  -- With a channel that logs what it takes, the owner is sent a prefix of the waiting inputs, in
  -- order and once each; the rest still waits, but for one input when the owner is gone.
  pub drain_busy-Drained :
      Logs chan
      → (c : C) (q : Records) → All IsRecord q
      → Drained c (drain_busy chan c q).0 q (drain_busy chan c q).1
  drain_busy-Drained logs c [] h = record {
    taken = [];
    logged = sym (append-nil (chan.log c));
    left = inl refl;
  }
  drain_busy-Drained logs c ((seq, b) ∷ q) h =
      rw (send_input_lem c seq b h.0)
        (by_outcome (chan.try_send c m).0 refl (logs c m) (drain_busy-Drained logs c' q h.1))
    where
      m : OwnerMsg
      m = input seq b

      c' : C
      c' = (chan.try_send c m).1

      rest : C × Records
      rest = drain_busy chan c' q

      answered : Sent → C × Records
      answered s = drain_answer chan (outcome s) c' (seq, b) q rest

      by_outcome :
          (s : Sent)
          → (chan.try_send c m).0 ≡ s
          → (((chan.try_send c m).0 ≡ sent) × (chan.log c' ≡ chan.log c ++ (m ∷ [])))
            ⊎ (((chan.try_send c m).0 ≢ sent) × (chan.log c' ≡ chan.log c))
          → Drained c' rest.0 q rest.1
          → Drained c (answered s).0 ((seq, b) ∷ q) (answered s).1
      by_outcome sent e (inl l) r = record {
        taken = (seq, b) ∷ r.taken;
        logged =
            r.logged
            ∙ ap (λ t. t ++ commands r.taken) l.1
            ∙ append_assoc (chan.log c) (m ∷ []) (commands r.taken);
        left = elim r.left [
          | inl same ↦ inl (ap (λ t. (seq, b) ∷ t) same)
          | inr (lost, same, why) ↦ inr (lost, ap (λ t. (seq, b) ∷ t) same, why)
        ];
      }
      by_outcome sent e (inr n) r = absurd (n.0 e)
      by_outcome full e (inl l) r = let clash : full ≡ sent = sym e ∙ l.0 in cc
      by_outcome full e (inr n) r = record {
        taken = [];
        logged = n.1 ∙ sym (append-nil (chan.log c));
        left = inl refl;
      }
      by_outcome closed e (inl l) r = let clash : closed ≡ sent = sym e ∙ l.0 in cc
      by_outcome closed e (inr n) r = record {
        taken = [];
        logged = n.1 ∙ sym (append-nil (chan.log c));
        left = inr ((seq, b), refl, (c, e));
      }
