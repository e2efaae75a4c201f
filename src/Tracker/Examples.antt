-- ===== src/Tracker/Examples.antt =====
-- Runs of the tracker, and its theorems at concrete inputs.
use ww.Prelude.{
  ℕ, update, ◌==◌, ◌+◌, ◌≡◌, refl, arith, Bool, true, false, List, [], ◌∷◌, Option, some, Result,
  ok, fail, panic, Ensures, WhenOk, ◌⊎◌,
}
use ww.Neighborhood.Phases.{Event, connected, not_connected, orphaned, subloop, initial}
use ww.Neighborhood.Emitting.{Emits}
use ww.Tracker.Counter.{
  opened, closed, ConnState, ConnEvent, Counts, connloop, no_counts, round, change, add, rm,
  peer_event,
}
use ww.Tracker.Connectedness.{Told, connloop-Told}
use ww.Tracker.Counting.{counts}
use ww.Tracker.Balance.{CalmReach, unannounced, trues, calm-Succeeds}
use ww.Tracker.Channels.{
  Tracker, identify, send, disconnect, receive, announce, identified, sent, announced, disconnected,
  received, Reach, new_tracker,
}
use ww.Tracker.Hazards.{IsBlocked, overtaking-panics, full-blocks, client_change-panics}
use ww.Tracker.Services.{calm-Emits}

-- No peer is a client but 9.
abbrev nine : ℕ → Bool
nine p = p == 9

abbrev known : ℕ → Option Bool
known p = some (nine p)

abbrev event : ℕ → ConnState → ConnEvent
event p s = record { peer = p; state = s; client = nine p }

abbrev events : List ConnEvent
events =
    event 7 opened
    ∷ event 9 opened
    ∷ event 7 opened
    ∷ event 7 closed
    ∷ event 9 closed
    ∷ event 7 closed
    ∷ []

abbrev told : Result (Counts × List Event) → List Event
told (ok r) = r.1
told (fail e) = []

run : told (connloop no_counts events) ≡ connected 7 ∷ not_connected 7 ∷ []
unfolding connloop round change add rm peer_event
run = refl

early_close : connloop no_counts (event 7 closed ∷ []) ≡ fail panic
unfolding connloop round change rm
early_close = refl

connloop-Told_example : WhenOk (connloop no_counts events) (Told no_counts)
connloop-Told_example = connloop-Told no_counts events

-- Peer 7 is identified and announced, disconnects and is told of.
abbrev asked : Tracker
asked = identify (new_tracker known) 7 true

abbrev there : Tracker
there = announce (send asked 7 0 true) 7 false

abbrev left : Tracker
left = receive (disconnect there 7) 7 0 true

left-CalmReach : CalmReach nine (new_tracker known) left
left-CalmReach =
    CalmReach.later
      (CalmReach.later
        (CalmReach.later
          (CalmReach.later (CalmReach.later CalmReach.start (identified 7 true refl refl) tt)
            (sent 7 0 true refl refl refl) tt)
          (announced 7 false refl refl refl) refl)
        (disconnected 7 refl) tt)
      (received 7 0 true (omega arith) refl refl) (λ e. cc)

calm-Succeeds_example : Ensures (connloop no_counts left.emitted) (λ r.
    (p : ℕ)
    → nine p ≡ false
    → counts r.0 p + unannounced left.idloop p ≡ left.closing p + trues (left.chans p))
calm-Succeeds_example = calm-Succeeds nine known left-CalmReach

calm-Emits_example : Ensures (connloop no_counts left.emitted) (λ r.
    Ensures
      (subloop (record { l = 1; h = 2 }) initial [] r.1)
      (λ states. Emits (record { l = 1; h = 2 }) orphaned [] r.1 states))
calm-Emits_example = calm-Emits nine known (record { l = 1; h = 2 }) left-CalmReach

overtaking-panics_example :
    (t : Tracker) × Reach (new_tracker known) t × (connloop no_counts t.emitted ≡ fail panic)
overtaking-panics_example = overtaking-panics known 7 refl

-- A second connection of the peer is identified, while the channel has the first.
abbrev again : Tracker
again = identify there 7 true

full-blocks_example :
    IsBlocked (disconnect again 8) 7 0 true true ⊎ (disconnect again 8 ≡ receive again 7 0 true)
full-blocks_example = full-blocks {t = again} 7 0 true true (refl, refl) (disconnected 8 refl)

-- All peers are known as clients.
abbrev clients : ℕ → Option Bool
clients p = some true

client_change-panics_example :
    (t : Tracker) × (u : Tracker) × CalmReach (λ _. true) (new_tracker clients) t
    × CalmReach (λ _. false) (record t { client = update t.client 7 (some false) }) u
    × (connloop no_counts u.emitted ≡ fail panic)
client_change-panics_example = client_change-panics clients 7 refl
