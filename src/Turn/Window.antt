-- ===== src/Turn/Window.antt =====
-- crates/agent-core/src/turn/compaction/window.rs: the context window since the last compaction.
use cloud_agent.Base.{
  ℕ, ◌+◌, ◌≡◌, refl, ap, ◌∙◌, ◌<◌, Bool, true, false, Option, none, some, max, arith,
  saturating_add, if◌then◌else◌, if_false,
}
use cloud_agent.Data.Event.{ModelUsage}

pub record AutoCompactWindowSnapshot : Type 0 where
  pub ordinal : ℕ  -- u64
  pub prefill_input_tokens : Option ℕ

pub record AutoCompactWindow : Type 0 where
  pub ordinal : ℕ  -- u64
  pub prefill_input_tokens : Option ℕ
  pub server_observed : Bool

abbrev pub default_snapshot : AutoCompactWindowSnapshot
default_snapshot = record { ordinal = 0; prefill_input_tokens = none }

abbrev pub new_window : AutoCompactWindow
new_window = record { ordinal = 1; prefill_input_tokens = none; server_observed = false }

pub from_snapshot : AutoCompactWindowSnapshot → AutoCompactWindow
from_snapshot s = record {
  ordinal = max s.ordinal 1;
  prefill_input_tokens = s.prefill_input_tokens;
  server_observed = false;
}

pub snapshot : AutoCompactWindow → AutoCompactWindowSnapshot
snapshot w = record { ordinal = max w.ordinal 1; prefill_input_tokens = w.prefill_input_tokens }

pub set_estimated_prefill : ℕ → AutoCompactWindow → AutoCompactWindow
set_estimated_prefill input_tokens w =
    if w.server_observed then w else record w { prefill_input_tokens = some input_tokens }

pub ensure_server_observed_prefill_from_usage : ModelUsage → AutoCompactWindow → AutoCompactWindow
ensure_server_observed_prefill_from_usage usage w =
    if w.server_observed
    then w
    else record w { prefill_input_tokens = some usage.input_tokens; server_observed = true }

pub start_next : AutoCompactWindow → AutoCompactWindow
start_next w = record {
  ordinal = max (saturating_add w.ordinal 1) 1;
  prefill_input_tokens = none;
  server_observed = false;
}

-- The calls between two compactions.
pub data WindowStep : AutoCompactWindow → AutoCompactWindow → Type 0 where
  estimates : (n : ℕ) (w : AutoCompactWindow) → WindowStep w (set_estimated_prefill n w)
  observes :
      (usage : ModelUsage) (w : AutoCompactWindow)
      → WindowStep w (ensure_server_observed_prefill_from_usage usage w)

pub data WindowSteps : AutoCompactWindow → AutoCompactWindow → Type 0 where
  done : (w : AutoCompactWindow) → WindowSteps w w
  followed : (w v u : AutoCompactWindow) → WindowStep w v → WindowSteps v u → WindowSteps w u

observed_step : {w v : AutoCompactWindow} → WindowStep w v → w.server_observed ≡ true → v ≡ w
unfolding set_estimated_prefill ensure_server_observed_prefill_from_usage
observed_step (estimates n w) h = rw h
observed_step (observes usage w) h = rw h

observed_steps : (w u : AutoCompactWindow) → WindowSteps w u → w.server_observed ≡ true → u ≡ w
observed_steps w _ (done _) h = refl
observed_steps w u (followed _ v _ s rest) h =
    let same = observed_step s h in
    observed_steps v u rest (ap (λ x. x.server_observed) same ∙ h) ∙ same

-- The first usage that the server reports in a window fixes the window's prefill: until the next
-- window neither an estimate nor a later usage changes the window.
pub first_usage_fixes_window :
    (w u : AutoCompactWindow) (usage : ModelUsage)
    → w.server_observed ≡ false
    → WindowSteps (ensure_server_observed_prefill_from_usage usage w) u
    → u ≡ record w { prefill_input_tokens = some usage.input_tokens; server_observed = true }
unfolding ensure_server_observed_prefill_from_usage
first_usage_fixes_window w u usage h steps =
    let now = record w { prefill_input_tokens = some usage.input_tokens; server_observed = true } in
    let first = if_false w.server_observed w now h in
    observed_steps (ensure_server_observed_prefill_from_usage usage w) u steps
      (ap (λ x. x.server_observed) first)
    ∙ first

-- The next window has the next ordinal, below the greatest u64, and is what its snapshot gives
-- back.
pub start_next-snapshot :
    (w : AutoCompactWindow)
    → w.ordinal < 18446744073709551615
    → ((start_next w).ordinal ≡ w.ordinal + 1)
      × (from_snapshot (snapshot (start_next w)) ≡ start_next w)
unfolding from_snapshot snapshot start_next
start_next-snapshot w h = (omega arith, ap opened (omega arith))
  where
    opened : ℕ → AutoCompactWindow
    opened n = record { ordinal = n; prefill_input_tokens = none; server_observed = false }
