-- ===== src/Requests/Lookups.antt =====
-- The pending requests of server_request/coordinator.rs after a decision.
use cloud_agent.Base.{
  ◌≡◌, refl, ◌∙◌, sym, ap, none, List, [], ◌∷◌, Bool-cases, Option-cases, inl, inr, if◌then◌else◌,
}
use cloud_agent.Base.Maps.{lookup, lookup-remove}
use cloud_agent.Data.Event.{ServerRequestDecision}
use cloud_agent.State.RequestIds.{RequestId, id_eq, id_eq_iff, request_id_key}
use cloud_agent.Requests.{PendingServerRequest, ServerRequestCoordinator, resolve}

module _ (Sender : Type 0) where
  -- No key occurs twice, as in a `HashMap`.
  abbrev pub IsUnique : List (RequestId × PendingServerRequest Sender) → Type 0
  IsUnique [] = Unit
  IsUnique ((id, p) ∷ rest) = (lookup id rest ≡ none) × IsUnique rest

  pub resolve-pending :
      (id k : RequestId) (d : ServerRequestDecision) (c : ServerRequestCoordinator Sender)
      → lookup k (resolve Sender id d c).1.pending
        ≡ (if id_eq id k then none else lookup k c.pending)
  unfolding resolve
  resolve-pending id k d c = elim (Option-cases (lookup id c.pending)) [
    | inl e ↦ rw (e) (elim (Bool-cases (id_eq id k)) [
      | inl same ↦ rw (same) (ap (λ j. lookup j c.pending) (sym ((id_eq_iff id k).0 same)) ∙ e)
      | inr apart ↦ rw (apart) refl
    ])
    | inr (p, e) ↦ rw (e) (lookup-remove id k c.pending)
  ]
