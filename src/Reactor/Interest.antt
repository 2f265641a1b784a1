-- ===== src/Reactor/Interest.antt =====
-- What a descriptor is registered for in epoll.
use xcoro.Base.{◌≡◌, refl, true, not, ◌||◌, arith}
use xcoro.Reactor.{
  Events, Ctl, Descriptor, is_null, events_eq, desired_events, next_interest,
  update_interest_locked,
}

events_eq_sound : (a b : Events) → events_eq a b ≡ true → a ≡ b
events_eq_sound a b e = ground arith

next_interest-registers :
    (ctl : Ctl) (d : Descriptor)
    → (next_interest ctl d).2 ≡ true
    → ((next_interest ctl d).1 ≡ desired_events d)
      × ((next_interest ctl d).0 ≡ (not (is_null d.read_waiter) || not (is_null d.write_waiter)))
unfolding next_interest desired_events
next_interest-registers ctl d e =
    ground (arith, events_eq_sound d.registered_events (desired_events d))

-- If `update_interest_locked` does not throw, the descriptor is registered for just the events that
-- its waiters want, and is not registered if there is none; the waiters want what they wanted.
pub update_interest-registers :
    (ctl : Ctl) (d : Descriptor)
    → (update_interest_locked ctl d).1 ≡ true
    → ((update_interest_locked ctl d).0.registered_events ≡ desired_events d)
      × ((update_interest_locked ctl d).0.registered_with_epoll
          ≡ (not (is_null d.read_waiter) || not (is_null d.write_waiter)))
      × (desired_events (update_interest_locked ctl d).0 ≡ desired_events d)
unfolding update_interest_locked desired_events
update_interest-registers ctl d e =
    let (same, on) = next_interest-registers ctl d e in (same, on, refl)
