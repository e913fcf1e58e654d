-- ===== src/Client/Slower.antt =====
-- src/client.rs: requests and push-backs of a server, in the order in which they reach the throttle.
use trillium_ratelimit.Common.{
  ◌+◌, ◌*◌, ◌≤◌, ◌≡◌, ◌∙◌, refl, sym, subst, inl, inr, Option, none, some, Option-cases, List, [],
  ◌∷◌, arith, Text, max, length, ◌>>=◌,
}
use trillium_ratelimit.Time.{Instant, Duration, max_duration}
use trillium_ratelimit.Client.Throttle.{Throttle, or_insert, proceed_at, claim, back_off}
use trillium_ratelimit.Client.Pacing.{claims, claim_lem}
use trillium_ratelimit.Client.Backoff.{back_off_lem}

-- A request, at the time of its claim, or a wait that a response asks for, at the time it is read.
pub data Event : Type 0 where
  request : Instant → Event
  push_back : Duration → Instant → Event

-- The times of the requests alone.
abbrev pub requests_of : List Event → List Instant
requests_of [] = []
requests_of (request now ∷ events) = now ∷ requests_of events
requests_of (push_back d now ∷ events) = requests_of events

-- Every arrival time that an event asks for is at most the bound.
abbrev pub Within : Duration → Instant → List Event → Type 0
Within tolerance bound [] = Unit
Within tolerance bound (request now ∷ events) = (now ≤ bound) × Within tolerance bound events
Within tolerance bound (push_back d now ∷ events) =
    (now + d + tolerance ≤ bound) × Within tolerance bound events

Within-weaken :
    (tolerance bound higher : Instant) (events : List Event)
    → bound ≤ higher
    → Within tolerance bound events
    → Within tolerance higher events
Within-weaken tolerance bound higher [] h w = tt
Within-weaken tolerance bound higher (request now ∷ events) h (k, w) =
    (omega arith, Within-weaken tolerance bound higher events h w)
Within-weaken tolerance bound higher (push_back d now ∷ events) h (k, w) =
    (omega arith, Within-weaken tolerance bound higher events h w)

-- Two lists of times of one length, each time of the first at most that of the second.
pub data AllAtMost : List Instant → List Instant → Type 0 where
  nil : AllAtMost [] []
  cons :
      {x y : Instant} {xs ys : List Instant} → x ≤ y → AllAtMost xs ys → AllAtMost (x ∷ xs) (y ∷ ys)

-- The first arrival time is no later than the second; a new scope has none.
abbrev Earlier : Option Instant → Option Instant → Type 0
Earlier none b = Unit
Earlier (some a) none = ⊥
Earlier (some a) (some b) = a ≤ b

Earlier-max :
    (a b : Option Instant) (now : Instant)
    → Earlier a b
    → max (or_insert a now) now ≤ max (or_insert b now) now
Earlier-max none none now h = omega arith
Earlier-max none (some b) now h = omega arith
Earlier-max (some a) none now h = absurd h
Earlier-max (some a) (some b) now h = omega arith

Earlier-refl : (o : Option Instant) → Earlier o o
Earlier-refl none = tt
Earlier-refl (some a) = omega arith

Earlier-back :
    (a b : Option Instant) (target : Instant)
    → Earlier a b
    → Earlier a (some (max (or_insert b target) target))
Earlier-back none b target h = tt
Earlier-back (some a) none target h = absurd h
Earlier-back (some a) (some b) target h = omega arith

or_insert-le :
    (o : Option Instant) (now bound : Instant)
    → or_insert o 0 ≤ bound
    → now ≤ bound
    → max (or_insert o now) now ≤ bound
or_insert-le none now bound h k = omega arith
or_insert-le (some t) now bound h k = omega arith

Earlier-some :
    (a b : Option Instant) (x y : Instant) → a ≡ some x → b ≡ some y → x ≤ y → Earlier a b
Earlier-some a b x y e k h = rw (e, k) h

proceed_at-max :
    {Url : Type 0} (t u : Throttle Url) (a b now : Instant)
    → max a now ≤ max b now
    → t.tolerance ≡ u.tolerance
    → proceed_at t a now ≤ proceed_at u b now
unfolding proceed_at
proceed_at-max t u a b now h e = ground arith

module _ {Url : Type 0} (latest : Instant) (scope : Text) where
  -- The times at which the requests proceed; a back-off may panic.
  unfoldable pub starts : Throttle Url → List Event → Option (List Instant)
  starts t [] = some []
  starts t (request now ∷ events) = do
    let (t', delay) = claim latest t scope now
    rest ← starts t' events
    some ((now + delay) ∷ rest)
  starts t (push_back d now ∷ events) = do t' ← back_off latest t scope d now; starts t' events

  module _ (span : latest ≤ max_duration) (tolerance : Duration) (interval : Duration) where
    slower_from :
        (t u : Throttle Url) (events : List Event) (given : List Instant) (bound : Instant)
        → Earlier (t.state scope) (u.state scope)
        → or_insert (u.state scope) 0 ≤ bound
        → t.interval ≡ interval
        → u.interval ≡ interval
        → t.tolerance ≡ tolerance
        → u.tolerance ≡ tolerance
        → Within tolerance bound events
        → bound + length events * interval ≤ latest
        → starts u events ≡ some given
        → AllAtMost (claims latest t scope (requests_of events)).1 given
    unfolding starts claims
    slower_from t u [] given bound early low ti ui tt' ut w room h =
        let e : [] ≡ given = cc h in subst (AllAtMost []) e nil
    slower_from t u (request now ∷ events) given bound early low ti ui tt' ut (here, w) room h =
        let a = or_insert (t.state scope) now in
        let b = or_insert (u.state scope) now in
        let ahead = Earlier-max (t.state scope) (u.state scope) now early in
        let high = or_insert-le (u.state scope) now bound low here in
        let (start, next, i, tol) =
          claim_lem latest t scope now a span (omega (arith, ahead, high)) refl in
        let (start', next', i', tol') =
          claim_lem latest u scope now b span (omega (arith, high)) refl in
        let t1 = (claim latest t scope now).0 in
        let u1 = (claim latest u scope now).0 in
        elim (Option-cases (starts u1 events)) [
          | inl e ↦ cc (rw e at h)
          | inr (rest, e) ↦
              let ih =
                slower_from t1 u1 events rest (bound + interval)
                  (Earlier-some _ _ _ _ next next' (omega (arith, ahead, ti, ui)))
                  (rw next' (omega (arith, high, ui))) (i ∙ ti) (i' ∙ ui) (tol ∙ tt') (tol' ∙ ut)
                  (Within-weaken tolerance bound (bound + interval) events (omega arith) w)
                  (omega arith) e in
              let all : (now + (claim latest u scope now).1) ∷ rest ≡ given = cc (rw e at h) in
              let later = proceed_at-max t u a b now ahead (tt' ∙ sym ut) in
              subst (AllAtMost _) all (cons (omega (arith, start, start', later)) ih)
        ]
    slower_from t u (push_back d now ∷ events) given bound early low ti ui tt' ut (here, w) room h =
        elim (Option-cases (back_off latest u scope d now)) [
          | inl e ↦ cc (rw e at h)
          | inr (u1, e) ↦
              let (tat, held, _, i, tol, exactly) = back_off_lem latest u u1 scope d now e in
              let target = now + d + u.tolerance in
              let pushed : Earlier (t.state scope) (u1.state scope) =
                rw (held, exactly) (Earlier-back (t.state scope) (u.state scope) target early) in
              let within : or_insert (u1.state scope) 0 ≤ bound = rw held (
                omega (
                  arith,
                  exactly,
                  or_insert-le (u.state scope) target bound low (omega (arith, here, ut)),
                )) in
              slower_from t u1 events given bound pushed within ti (i ∙ ui) tt' (tol ∙ ut) w
                (omega arith) (rw e at h)
        ]

    -- What a server asks for can only slow a client down: of any sequence of requests on a scope and
    -- of waits that responses ask for, no request proceeds earlier than it does with the same
    -- requests and no signals. No back-off panics, and all times asked for are early enough that no
    -- arrival time passes the last instant of the platform, whose instants span at most the greatest
    -- duration.
    pub signals_only_slow :
        (t : Throttle Url) (events : List Event) (given : List Instant) (bound : Instant)
        → t.interval ≡ interval
        → t.tolerance ≡ tolerance
        → or_insert (t.state scope) 0 ≤ bound
        → Within tolerance bound events
        → bound + length events * interval ≤ latest
        → starts t events ≡ some given
        → AllAtMost (claims latest t scope (requests_of events)).1 given
    signals_only_slow t events given bound i tol low w room h =
        slower_from t t events given bound (Earlier-refl (t.state scope)) low i i tol tol w room h
