-- ===== src/Operations/Assists/Graph.antt =====
-- The life of an assist request, as a relation on its statuses.
use seatd_v.Base.{◌≡◌, refl, true, arith}
use seatd_v.Store.{AssistStatus, pending, acknowledged, resolved, cancelled}
use seatd_v.Operations.Assists.{valid_assist_transition}

infix 40 ◌⟶◌ ◌⟶*◌
pub data ◌⟶◌ : AssistStatus → AssistStatus → Type 0 where
  acknowledge : pending ⟶ acknowledged
  resolve_pending : pending ⟶ resolved
  resolve_acknowledged : acknowledged ⟶ resolved
  cancel_pending : pending ⟶ cancelled
  cancel_acknowledged : acknowledged ⟶ cancelled

pub data ◌⟶*◌ : AssistStatus → AssistStatus → Type 0 where
  here : {s : AssistStatus} → s ⟶* s
  follow : {s t u : AssistStatus} → s ⟶ t → t ⟶* u → s ⟶* u

pub ⟶*-trans : {s t u : AssistStatus} → s ⟶* t → t ⟶* u → s ⟶* u
⟶*-trans here r = r
⟶*-trans (follow e q) r = follow e (⟶*-trans q r)

valid-⟶ : (s t : AssistStatus) → valid_assist_transition s t ≡ true → s ⟶ t
unfolding valid_assist_transition
valid-⟶ pending acknowledged h = acknowledge
valid-⟶ pending resolved h = resolve_pending
valid-⟶ acknowledged resolved h = resolve_acknowledged
valid-⟶ pending cancelled h = cancel_pending
valid-⟶ acknowledged cancelled h = cancel_acknowledged
valid-⟶ _ _ h = absurd (ground arith)

-- A resolved or cancelled request has come to its end.
pub data IsTerminal : AssistStatus → Type 0 where
  ended_resolved : IsTerminal resolved
  ended_cancelled : IsTerminal cancelled

pub IsTerminal-⟶* : {s t : AssistStatus} → IsTerminal s → s ⟶* t → t ≡ s
IsTerminal-⟶* e here = refl
IsTerminal-⟶* ended_resolved (follow q r) = elim q [ ]
IsTerminal-⟶* ended_cancelled (follow q r) = elim q [ ]
