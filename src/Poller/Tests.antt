-- ===== src/Poller/Tests.antt =====
-- A poll of poll_default_linux.go with three operators in use: one reads, one is hung up by its peer,
-- and one is that of the eventfd.
use netpoll.Base.{◌≡◌, refl, true, false, some, List, [], ◌∷◌}
use netpoll.Poller.{
  Callbacks, Event, Answers, Poll, done, append_hup, total_read, total_left, handle_write,
  handle_error, handle_hup, handle_read, onhups, acquire, handle_held, handler,
}
use netpoll.Poller.Handled.{Batch, handler-Batch}

abbrev connection : Callbacks
connection = record {
  wakes = false;
  on_read = false;
  inputs = true;
  on_write = false;
  outputs = true;
}

abbrev reads_some : Event × Answers
reads_some = (
  record {
    operator = some 0;
    callbacks = connection;
    trigger_read = true;
    trigger_write = false;
    trigger_hup = false;
    trigger_error = false;
  },
  record {
    stop = false;
    has_room = true;
    read = 3;
    read_fails = false;
    left_read = 0;
    no_error = true;
    has_bytes = false;
    send_fails = false;
  },
)

-- The peer has closed, and there is nothing left to read.
abbrev peer_closes : Event × Answers
peer_closes = (
  record (reads_some.0) { operator = some 1; trigger_hup = true },
  record (reads_some.1) { read = 0 },
)

abbrev batch : List (Event × Answers)
batch = reads_some ∷ peer_closes ∷ []

abbrev poll : Poll
poll = record { states = 1 ∷ 1 ∷ 1 ∷ []; hups = []; detached = []; hung_up = [] }

handler-Batch_example : Batch batch poll (handler batch poll)
handler-Batch_example = handler-Batch batch poll

batch_lem : handler batch poll ≡ (false, record poll { detached = 1 ∷ []; hung_up = 1 ∷ [] })
unfolding handler acquire handle_held handle_read handle_hup handle_error handle_write total_read
    total_left append_hup done onhups
batch_lem = refl

-- `Close` wakes the eventfd.
abbrev closes : Event × Answers
closes = (
  record (reads_some.0) {
    operator = some 2;
    callbacks = record connection { wakes = true; inputs = false; outputs = false };
  },
  record (reads_some.1) { stop = true },
)

-- The operator that is hung up in the same batch is detached, but its `OnHup` is not called.
closing_lem :
    handler (peer_closes ∷ closes ∷ []) poll
    ≡ (true, record poll { detached = 1 ∷ []; hups = 1 ∷ [] })
unfolding handler acquire handle_held handle_read handle_hup handle_error handle_write total_read
    total_left append_hup done onhups
closing_lem = refl
