-- ===== src/Tracker/Channels.antt =====
-- idloop, onDisconnected and Stop of pkg/runtime/svc/tracker/tracker.go, as the steps of a state: each
-- channel operation, each Emit and each use of the map is a step, so that idloop and the handlers
-- of the disconnections interleave in every way the code allows.
use ww.Prelude.{
  ℕ, ◌+◌, ◌-◌, ◌<◌, Bool, true, false, if◌then◌else◌, List, [], ◌∷◌, ◌++◌, ◌≡◌, Option, none, some,
  length, get_elem?, set, update,
}
use ww.Tracker.Counter.{ConnState, opened, closed, ConnEvent}

-- Where idloop is: it waits for an event, it is about to send to a channel of a peer, or it has sent
-- `true` and is about to emit.
pub data Idloop : Type 0 where
  idle : Idloop
  sending : (p g : ℕ) (ok : Bool) → Idloop
  announcing : (p : ℕ) → Idloop

-- conntracker. A peer has the channels that ensureChan made for it, in their order, as what is in
-- the buffer of each; `sync` has the number of the one that is in the map. The handlers
-- onDisconnected have no names: `waiting` has how many wait to receive from a channel of a peer,
-- `closing` how many have received `true` and not yet emitted, `deleting` how many have only the
-- deletion to do. `emitted` has the events EvtConnectionChanged so far, `cq` whether it is closed.
-- `client` is what the peerstore has at the moment: whether the agent version of a peer is "ww-client",
-- and `none` where Get is an error.
pub record Tracker : Type 0 where
  pub chans : ℕ → List (Option Bool)
  pub sync : ℕ → Option ℕ
  pub idloop : Idloop
  pub waiting : ℕ → ℕ → ℕ
  pub closing : ℕ → ℕ
  pub deleting : ℕ → ℕ
  pub emitted : List ConnEvent
  pub cq : Bool
  pub client : ℕ → Option Bool

-- ensureChan, with what the map has for the peer
abbrev pub ensure_by : Option ℕ → Tracker → ℕ → Tracker × ℕ
ensure_by (some g) t p = (t, g)
ensure_by none t p =
    let g = length (t.chans p) in
    (
      record t {
        chans = update t.chans p (t.chans p ++ none ∷ []);
        sync = update t.sync p (some g);
      },
      g,
    )

abbrev pub ensure_chan : Tracker → ℕ → Tracker × ℕ
ensure_chan t p = ensure_by (t.sync p) t p

-- idloop, up to the send, when a peer's identification has completed (`true`) or failed
abbrev pub identify : Tracker → ℕ → Bool → Tracker
identify t p ok = let made = ensure_chan t p in record made.0 { idloop = sending p made.1 ok }

-- The send of idloop
abbrev pub send : Tracker → ℕ → ℕ → Bool → Tracker
send t p g ok = record t {
  chans = update t.chans p (set (t.chans p) g (some ok));
  idloop = if ok then announcing p else idle;
}

-- onDisconnected, up to the receive
abbrev pub disconnect : Tracker → ℕ → Tracker
disconnect t p =
    let made = ensure_chan t p in
    record made.0 {
      waiting =
          update made.0.waiting p (update (made.0.waiting p) made.1 (made.0.waiting p made.1 + 1));
    }

-- A handler stops waiting
abbrev pub leave : Tracker → ℕ → ℕ → Tracker
leave t p g = record t { waiting = update t.waiting p (update (t.waiting p) g (t.waiting p g - 1)) }

-- The receive of onDisconnected
abbrev pub receive : Tracker → ℕ → ℕ → Bool → Tracker
receive t p g ok = record (leave t p g) {
  chans = update t.chans p (set (t.chans p) g none);
  closing = if ok then update t.closing p (t.closing p + 1) else t.closing;
  deleting = if ok then t.deleting else update t.deleting p (t.deleting p + 1);
}

-- The deletion of onDisconnected
abbrev pub delete : Tracker → ℕ → Tracker
delete t p = record t {
  sync = update t.sync p none;
  deleting = update t.deleting p (t.deleting p - 1);
}

-- isClient; it panics where this is `none`.
abbrev pub is_client : Tracker → ℕ → Option Bool
is_client t p = t.client p

-- The event that idloop and onDisconnected emit, with what isClient has returned
abbrev pub conn_event : ℕ → ConnState → Bool → ConnEvent
conn_event p state client = record { peer = p; state = state; client = client }

-- The Emit of idloop
abbrev pub announce : Tracker → ℕ → Bool → Tracker
announce t p client = record t {
  idloop = idle;
  emitted = t.emitted ++ conn_event p opened client ∷ [];
}

-- The Emit of onDisconnected
abbrev pub close : Tracker → ℕ → Bool → Tracker
close t p client = record t {
  closing = update t.closing p (t.closing p - 1);
  deleting = update t.deleting p (t.deleting p + 1);
  emitted = t.emitted ++ conn_event p closed client ∷ [];
}

-- A send waits until the buffer is empty, a receive until it is full or `cq` is closed. The peerstore
-- changes at any time. isClient panics on an error of the peerstore, which ends the process: then an
-- Emit has no step.
pub data Step (t u : Tracker) : Type 0 where
  identified : (p : ℕ) (ok : Bool) → t.idloop ≡ idle → u ≡ identify t p ok → Step t u
  sent :
      (p g : ℕ) (ok : Bool)
      → t.idloop ≡ sending p g ok
      → get_elem? (t.chans p) g ≡ some none
      → u ≡ send t p g ok
      → Step t u
  announced :
      (p : ℕ) (client : Bool)
      → t.idloop ≡ announcing p
      → is_client t p ≡ some client
      → u ≡ announce t p client
      → Step t u
  disconnected : (p : ℕ) → u ≡ disconnect t p → Step t u
  received :
      (p g : ℕ) (ok : Bool)
      → 0 < t.waiting p g
      → get_elem? (t.chans p) g ≡ some (some ok)
      → u ≡ receive t p g ok
      → Step t u
  quit : (p g : ℕ) → t.cq ≡ true → 0 < t.waiting p g → u ≡ leave t p g → Step t u
  gone :
      (p : ℕ) (client : Bool)
      → 0 < t.closing p
      → is_client t p ≡ some client
      → u ≡ close t p client
      → Step t u
  deleted : (p : ℕ) → 0 < t.deleting p → u ≡ delete t p → Step t u
  stopped : u ≡ record t { cq = true } → Step t u
  told : (p : ℕ) (o : Option Bool) → u ≡ record t { client = update t.client p o } → Step t u

pub data Reach (s : Tracker) : Tracker → Type 0 where
  start : Reach s s
  later : {t u : Tracker} → Reach s t → Step t u → Reach s u

-- The tracker that NewService makes, with what the peerstore has then
abbrev pub new_tracker : (ℕ → Option Bool) → Tracker
new_tracker store = record {
  chans = λ _. [];
  sync = λ _. none;
  idloop = idle;
  waiting = λ _ _. 0;
  closing = λ _. 0;
  deleting = λ _. 0;
  emitted = [];
  cq = false;
  client = store;
}
