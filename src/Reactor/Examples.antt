-- ===== src/Reactor/Examples.antt =====
-- The theorems on the reactor at a concrete run.
use xcoro.Base.{◌+◌, ◌≤◌, ◌≡◌, refl, true, false, none, some, [], ◌∷◌, ◌++◌, count, update}
use xcoro.Reactor.{
  Events, no_events, Ctl, succeeded, Descriptor, make_descriptor_state, reset, read, write,
  slot_for, set_slot, desired_events, try_ctl, next_interest, update_interest_locked,
  complete_operation_locked, finish_wait, arm_wait, unregister_descriptor,
  dispatch_descriptor_event,
}
use xcoro.Reactor.System.{System, Reach, start, later, arms, dispatches, unregisters}
use xcoro.Reactor.Inv.{in_slot, IsClosed}
use xcoro.Reactor.Waits.{waits_balanced}
use xcoro.Reactor.Await.{await_resume, waited, destruct}
use xcoro.Reactor.Runs.{stays, goes_on}
use xcoro.Reactor.Outcome.{Ended, by_event, await-Ended}

abbrev working : Ctl
working op = succeeded

-- A reader and a writer wait.
abbrev read_events : Events
read_events = record {
  epollin = true;
  epollout = false;
  epollerr = true;
  epollhup = true;
  epollrdhup = true;
}

abbrev reading : Descriptor
reading = record (make_descriptor_state true) {
  registered_events = read_events;
  registered_with_epoll = true;
  read_waiter = some 0;
  operations = update reset 0 (reset 0);
}

abbrev both_waiting : Descriptor
both_waiting = record reading {
  registered_events = record read_events { epollout = true };
  write_waiter = some 1;
  operations = update (update reset 0 (reset 0)) 1 (reset 1);
}

abbrev both : System
both = record { descriptor = both_waiting; next = 2; waits = 1 ∷ 0 ∷ []; ready = [] }

both-Reach : Reach true both
unfolding arm_wait slot_for set_slot update_interest_locked next_interest try_ctl desired_events
both-Reach =
    later (later start (arms working read reading refl)) (arms working write both_waiting refl)

-- The descriptor became readable.
abbrev writing : Descriptor
writing = record both_waiting {
  registered_events = record {
    epollin = false;
    epollout = true;
    epollerr = true;
    epollhup = true;
    epollrdhup = false;
  };
  read_waiter = none;
  operations =
      update (update (update reset 0 (reset 0)) 1 (reset 1)) 0
        (record (reset 0) { completed = true });
}

abbrev one_read : System
one_read = record { descriptor = writing; next = 2; waits = 1 ∷ 0 ∷ []; ready = 0 ∷ [] }

one_read-Reach : Reach true one_read
unfolding slot_for set_slot update_interest_locked next_interest try_ctl desired_events
    dispatch_descriptor_event finish_wait complete_operation_locked
one_read-Reach = later both-Reach (dispatches working (record no_events { epollin = true }))

waits_balanced_example :
    (count 0 one_read.ready
        + in_slot one_read.descriptor.read_waiter 0
        + in_slot one_read.descriptor.write_waiter 0
      ≡ count 0 one_read.waits)
    × (count 0 one_read.waits ≤ 1)
    × IsClosed one_read.descriptor
waits_balanced_example = waits_balanced 0 one_read-Reach

-- The reader ends by an event, and the descriptor is taken out of the reactor before it goes on.
abbrev taken_out : System
taken_out = record one_read {
  descriptor = (unregister_descriptor writing 125).0;
  ready = (unregister_descriptor writing 125).1 ++ one_read.ready;
}

await-Ended_example :
    Ended read 0 waited writing (0 ∷ [])
    × (await_resume taken_out.descriptor 0 ≡ waited)
    × ((ctl : Ctl) → destruct ctl taken_out.descriptor read 0 ≡ some (taken_out.descriptor, []))
unfolding slot_for set_slot update_interest_locked next_interest try_ctl desired_events
    dispatch_descriptor_event finish_wait complete_operation_locked
await-Ended_example =
    await-Ended read 0 both-Reach refl (by_event working (record no_events { epollin = true }) refl)
      (goes_on stays (unregisters 125))
