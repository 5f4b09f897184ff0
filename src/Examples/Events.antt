-- ===== src/Examples/Events.antt =====
-- Events awaited in src/async/iomanager.cpp, and the theorems on them.
use cpp_server_framework.Prelude.{ℕ, ◌++◌, ◌≡◌, refl, Bool, true, false, [], ◌∷◌, none, some, arith}
use cpp_server_framework.IoManager.{
  IoManager, FdContext, Ctl, Events, new_fd_context, empty_context, read, write, add_event,
  del_event, cancel_event, cancel_all, handle_event, done, asserted,
}
use cpp_server_framework.IoManager.Contexts.{IsValid, idle, with_cb}
use cpp_server_framework.IoManager.Registering.{IsAdded, add_event-IsAdded}
use cpp_server_framework.IoManager.Removing.{
  released, IsRemoved, del_event-IsRemoved, cancel_event-del_event,
}
use cpp_server_framework.IoManager.Cancelling.{IsCancelled, cancel_all-IsCancelled}
use cpp_server_framework.IoManager.Waking.{IsHandled, handle_event-IsHandled, handle_event_broken}

abbrev ctl_works : Ctl → ℕ → Events → Bool
ctl_works op fd s = true

-- Descriptor 1 is awaited for reading.
abbrev reading : FdContext
reading = record {
  read = record { scheduler = some 5; fiber = none; cb = some 7 };
  write = empty_context;
  fd = 1;
  events = record { reads = true; writes = false };
}

abbrev one_event : IoManager
one_event = record {
  fd_contexts = new_fd_context 0 ∷ (reading ∷ []);
  pending_event_count = 1;
  tasks = [];
}

one_event-IsValid : IsValid one_event
one_event-IsValid = record {
  contexts_ok = (
    record { read_ok = idle refl refl; write_ok = idle refl refl },
    (record { read_ok = with_cb 5 7 refl refl; write_ok = idle refl refl }, tt),
  );
  counted = refl;
  sized = omega arith;
}

add_event-IsAdded_example :
    IsAdded ctl_works 5 9 true 40 write none one_event
      (add_event ctl_works (some 5) 9 true 40 write none one_event)
add_event-IsAdded_example =
    add_event-IsAdded ctl_works 5 9 true 40 write none one_event one_event-IsValid refl refl

del_event-IsRemoved_example :
    IsRemoved ctl_works 1 read one_event (del_event ctl_works 1 read one_event)
del_event-IsRemoved_example = del_event-IsRemoved ctl_works 1 read one_event one_event-IsValid

cancel_event-del_event_example :
    cancel_event ctl_works 1 read one_event
    ≡ done (
      (del_event ctl_works 1 read one_event).0,
      record (del_event ctl_works 1 read one_event).1 {
        tasks = one_event.tasks ++ released ctl_works 1 read one_event;
      },
    )
cancel_event-del_event_example = cancel_event-del_event ctl_works 1 read one_event one_event-IsValid

cancel_all-IsCancelled_example :
    IsCancelled ctl_works 1 one_event (cancel_all ctl_works 1 one_event)
cancel_all-IsCancelled_example = cancel_all-IsCancelled ctl_works 1 one_event one_event-IsValid

handle_event-IsHandled_example :
    IsHandled ctl_works 1 false true false one_event
      (handle_event ctl_works 1 false true false one_event)
handle_event-IsHandled_example =
    handle_event-IsHandled ctl_works 1 false true false one_event reading one_event-IsValid refl
      refl refl

handle_event_broken_example : handle_event ctl_works 1 true false false one_event ≡ asserted
handle_event_broken_example =
    handle_event_broken ctl_works 1 true false false one_event reading one_event-IsValid refl refl
      refl refl
