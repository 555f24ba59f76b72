-- ===== src/State/Tokens.antt =====
-- `tokio_util::sync::CancellationToken`, of which the code uses `new`, `cancel` and `is_cancelled`.
-- A clone of a token is the same token.
use cloud_agent.Base.{◌≡◌, Bool, true, false}

pub record CancellationTokens : Type 1 where
  pub Token : Type 0
  pub Store : Type 0
  pub new : Store → Token × Store
  pub cancel : Token → Store → Store
  pub is_cancelled : Token → Store → Bool
  -- A new token is not cancelled.
  pub new_is_live : (s : Store) → is_cancelled (new s).0 (new s).1 ≡ false
  -- `cancel` cancels its token.
  pub cancel_cancels : (t : Token) (s : Store) → is_cancelled t (cancel t s) ≡ true
  -- `cancel` changes no other token.
  pub cancel_apart :
      (t u : Token) (s : Store) → ¬ (t ≡ u) → is_cancelled u (cancel t s) ≡ is_cancelled u s
