-- ===== src/Transport/Cmds.antt =====
-- The channel of commands to a session's owner: `tokio::sync::mpsc`, which hands on what was sent
-- in the order of the sends.
use quosh.Base.{◌≡◌, ◌≢◌, ◌⊎◌, List, [], ◌∷◌, ◌++◌}
use quosh.Session.Handle.{OwnerMsg, Sent, sent}

pub record Channel (C : Type 0) : Type 0 where
  pub try_send : C → OwnerMsg → Sent × C
  -- The messages that were sent, for the laws.
  pub log : C → List OwnerMsg

-- A message is sent and logged, or it is not and the log is as it was.
abbrev pub Logs : {C : Type 0} → Channel C → Type 0
Logs {C} chan =
    (c : C) (m : OwnerMsg)
    → (((chan.try_send c m).0 ≡ sent) × (chan.log (chan.try_send c m).1 ≡ chan.log c ++ (m ∷ [])))
      ⊎ (((chan.try_send c m).0 ≢ sent) × (chan.log (chan.try_send c m).1 ≡ chan.log c))
