-- ===== src/Joining/Order.antt =====
-- The peers that joinloop of pkg/runtime/svc/join/join.go connects to, among those that
-- pkg/runtime/svc/boot/boot.go and pkg/runtime/svc/discovery/discovery.go emit.
use mathlib.Core.List.{append_assoc}
use ww.Prelude.{
  ℕ, ◌≡◌, ◌∙◌, refl, sym, ap, subst, ◌⊎◌, inl, inr, List, [], ◌∷◌, ◌++◌, append_snoc, append_nil,
  Option, none, some,
}
use ww.Timing.Scheduler.{Settings}
use ww.Joining.Services.{AddrInfo, boot_step, discovery_step, join_received, join_next}
use ww.Joining.System.{
  System, Event, at_boot, at_discovery, delivered, joins, peers_of, deliver, system_step,
  new_system, system_run,
}

-- The first list is the second without some of its items.
abbrev pub IsSublist : List AddrInfo → List AddrInfo → Type 0
IsSublist xs [] = xs ≡ []
IsSublist xs (y ∷ ys) = IsSublist xs ys ⊎ ((zs : List AddrInfo) × (xs ≡ y ∷ zs) × IsSublist zs ys)

nil-IsSublist : (ys : List AddrInfo) → IsSublist [] ys
nil-IsSublist [] = refl
nil-IsSublist (y ∷ ys) = inl (nil-IsSublist ys)

self-IsSublist : (ys : List AddrInfo) → IsSublist ys ys
self-IsSublist [] = refl
self-IsSublist (y ∷ ys) = inr (ys, refl, self-IsSublist ys)

append-IsSublist :
    (xs ys more : List AddrInfo) → IsSublist xs ys → IsSublist (xs ++ more) (ys ++ more)
append-IsSublist xs [] more h = rw h (self-IsSublist more)
append-IsSublist xs (y ∷ ys) more (inl h) = inl (append-IsSublist xs ys more h)
append-IsSublist xs (y ∷ ys) more (inr (zs, e, h)) =
    inr (zs ++ more, ap (λ l. l ++ more) e, append-IsSublist zs ys more h)

-- One item fewer
drop-IsSublist :
    (xs zs ys : List AddrInfo) (x : AddrInfo)
    → IsSublist (xs ++ x ∷ zs) ys
    → IsSublist (xs ++ zs) ys
drop-IsSublist [] zs [] x h = absurd cc
drop-IsSublist (w ∷ xs) zs [] x h = absurd cc
drop-IsSublist xs zs (y ∷ ys) x (inl h) = inl (drop-IsSublist xs zs ys x h)
drop-IsSublist [] zs (y ∷ ys) x (inr (ws, e, h)) =
    let rest : ws ≡ zs = cc in inl (subst (λ l. IsSublist l ys) rest h)
drop-IsSublist (w ∷ xs) zs (y ∷ ys) x (inr (ws, e, h)) =
    let first : w ≡ y = cc in
    let rest : ws ≡ xs ++ x ∷ zs = cc in
    inr (
      xs ++ zs,
      ap (λ v. v ∷ xs ++ zs) first,
      drop-IsSublist xs zs ys x (subst (λ l. IsSublist l ys) rest h),
    )

prefix-IsSublist : (xs zs ys : List AddrInfo) → IsSublist (xs ++ zs) ys → IsSublist xs ys
prefix-IsSublist [] zs ys h = nil-IsSublist ys
prefix-IsSublist (w ∷ xs) zs [] h = absurd cc
prefix-IsSublist (w ∷ xs) zs (y ∷ ys) (inl h) = inl (prefix-IsSublist (w ∷ xs) zs ys h)
prefix-IsSublist (w ∷ xs) zs (y ∷ ys) (inr (ws, e, h)) =
    let first : w ≡ y = cc in
    let rest : ws ≡ xs ++ zs = cc in
    inr (xs, ap (λ v. v ∷ xs) first, prefix-IsSublist xs zs ys (subst (λ l. IsSublist l ys) rest h))

-- The peers that an event makes a service emit
abbrev pub discovered_at : Settings → ℕ → System → Event → List AddrInfo
discovered_at c self s (at_boot e) = (boot_step self s.boot e).1
discovered_at c self s (at_discovery e) = peers_of (discovery_step c self s.discoverer e).1
discovered_at c self s delivered = []
discovered_at c self s joins = []

-- The peers that the services emit in a run
unfoldable pub discovered : Settings → ℕ → System → List Event → List AddrInfo
discovered c self s [] = []
discovered c self s (e ∷ events) =
    discovered_at c self s e ++ discovered c self (system_step c self s e) events

-- The peers that were connected to, the one that the joiner holds, and those on the bus
abbrev slot : Option AddrInfo → List AddrInfo
slot none = []
slot (some info) = info ∷ []

abbrev peers_in : System → List AddrInfo
peers_in s = s.joiner.connected ++ (slot s.joiner.join ++ s.bus)

offered-IsSublist :
    (s : System) (more past : List AddrInfo)
    → IsSublist (peers_in s) past
    → IsSublist (s.joiner.connected ++ (slot s.joiner.join ++ (s.bus ++ more))) (past ++ more)
offered-IsSublist s more past h =
    let same : (s.joiner.connected ++ (slot s.joiner.join ++ s.bus)) ++ more
        ≡ s.joiner.connected ++ (slot s.joiner.join ++ (s.bus ++ more)) =
      append_assoc s.joiner.connected (slot s.joiner.join ++ s.bus) more
      ∙ ap (λ l. s.joiner.connected ++ l) (append_assoc (slot s.joiner.join) s.bus more) in
    subst (λ l. IsSublist l (past ++ more)) same (append-IsSublist (peers_in s) past more h)

received-IsSublist :
    (join : Option AddrInfo) (connected bus past : List AddrInfo) (info : AddrInfo)
    → IsSublist (connected ++ (slot join ++ info ∷ bus)) past
    → IsSublist
        ((join_received (record { join = join; connected = connected }) info).connected
          ++ (slot (join_received (record { join = join; connected = connected }) info).join
              ++ bus))
        past
received-IsSublist none connected bus past info h = h
received-IsSublist (some busy) connected bus past info h =
    let same : connected ++ (busy ∷ info ∷ bus) ≡ (connected ++ busy ∷ []) ++ info ∷ bus =
      sym (append_snoc connected busy (info ∷ bus)) in
    subst (λ l. IsSublist l past) (append_snoc connected busy bus)
      (drop-IsSublist (connected ++ busy ∷ []) bus past info (subst (λ l. IsSublist l past) same h))

next-IsSublist :
    (join : Option AddrInfo) (connected bus past : List AddrInfo)
    → IsSublist (connected ++ (slot join ++ bus)) past
    → IsSublist
        ((join_next (record { join = join; connected = connected })).connected
          ++ (slot (join_next (record { join = join; connected = connected })).join ++ bus))
        past
next-IsSublist none connected bus past h = h
next-IsSublist (some info) connected bus past h =
    subst (λ l. IsSublist l past) (sym (append_snoc connected info bus)) h

deliver-IsSublist :
    (bus : List AddrInfo) (s : System) (past : List AddrInfo)
    → s.bus ≡ bus
    → IsSublist (peers_in s) past
    → IsSublist (peers_in (deliver bus s)) past
deliver-IsSublist [] s past e h = h
deliver-IsSublist (info ∷ bus) s past e h =
    received-IsSublist s.joiner.join s.joiner.connected bus past info
      (subst (λ b. IsSublist (s.joiner.connected ++ (slot s.joiner.join ++ b)) past) e h)

step-IsSublist :
    (c : Settings) (self : ℕ) (s : System) (e : Event) (past : List AddrInfo)
    → IsSublist (peers_in s) past
    → IsSublist (peers_in (system_step c self s e)) (past ++ discovered_at c self s e)
unfolding system_step
step-IsSublist c self s (at_boot e) past h = offered-IsSublist s (boot_step self s.boot e).1 past h
step-IsSublist c self s (at_discovery e) past h =
    offered-IsSublist s (peers_of (discovery_step c self s.discoverer e).1) past h
step-IsSublist c self s delivered past h =
    rw (append_nil past) (deliver-IsSublist s.bus s past refl h)
step-IsSublist c self s joins past h =
    rw (append_nil past) (next-IsSublist s.joiner.join s.joiner.connected s.bus past h)

run-IsSublist :
    (c : Settings) (self : ℕ) (s : System) (events : List Event) (past : List AddrInfo)
    → IsSublist (peers_in s) past
    → IsSublist (peers_in (system_run c self s events)) (past ++ discovered c self s events)
unfolding system_run discovered
run-IsSublist c self s [] past h = rw (append_nil past) h
run-IsSublist c self s (e ∷ events) past h =
    let next = system_step c self s e in
    subst (IsSublist (peers_in (system_run c self next events)))
      (append_assoc past (discovered_at c self s e) (discovered c self next events))
      (run-IsSublist c self next events (past ++ discovered_at c self s e)
        (step-IsSublist c self s e past h))

-- Whatever the discoveries answer and whenever the services act, the peers that Connect was called
-- with are, in their order, some of those that the boot and the discovery services have emitted,
-- each emission once at most.
pub system-IsSublist :
    (c : Settings) (self : ℕ) (events : List Event)
    → IsSublist
        (system_run c self (new_system c) events).joiner.connected
        (discovered c self (new_system c) events)
system-IsSublist c self events =
    let s = system_run c self (new_system c) events in
    prefix-IsSublist s.joiner.connected (slot s.joiner.join ++ s.bus)
      (discovered c self (new_system c) events) (run-IsSublist c self (new_system c) events [] refl)
