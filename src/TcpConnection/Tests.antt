-- ===== src/TcpConnection/Tests.antt =====
-- A connection's life at concrete answers of the kernel, and its theorems at it.
use anoii.Prelude.{
  replicate, ℕ, ◌*◌, ◌≡◌, refl, Bool, true, false, List, [], ◌∷◌, arith, length, Result, ok, err,
}
use anoii.Buffer.{
  ensure_writable_space, Buffer, contents, is_empty, delivered, failed, append, pop, init,
}
use anoii.Channel.{quiet, handle}
use anoii.TcpConnection.{
  Call, TcpConnection, ConnState, connecting, established, half_shutdown, disconnected, close_cb,
  conn_cb, write_cb_queued, wake_up, refused, took, handle_events, on_established, init_connection,
  send, handle_write,
}
use anoii.TcpConnection.Sound.{Sound, Survives, stream}
use anoii.TcpConnection.Sending.{send-Survives}
use anoii.TcpConnection.Flushing.{Flushed, handle_write-Flushed}
use anoii.TcpConnection.Events.{Dispatched, handle_events-Dispatched}
use anoii.TcpConnection.Reach.{Reach, made, connected, sent, Reach-Sound}

-- A small connection with `waiting` in its output buffer.
abbrev holding : ConnState → Bool → List ℕ → TcpConnection
holding s out waiting = record {
  state = s;
  channel = record {
    events = record { pollin = true; pollpri = true; pollout = out };
    registered = true;
    is_handling_events = false;
  };
  input = record { head = 0; tail = 0; prepend_size = 0; cells = 0 ∷ 0 ∷ [] };
  output = record { head = 0; tail = length waiting; prepend_size = 0; cells = waiting };
  watermark = 9;
  written = [];
  shut = false;
  calls = [];
}

abbrev view : Result TcpConnection → Result (List ℕ × List ℕ × Bool × Bool)
view (err f) = err f
view (ok c) = ok (c.written, contents c.output, c.channel.events.pollout, c.shut)

send_test :
    (view (send 0 (took 2) (7 ∷ 8 ∷ 9 ∷ []) (holding established false []))
      ≡ ok (7 ∷ 8 ∷ [], 9 ∷ [], true, false))
    × (view (send 0 (refused 11) (7 ∷ []) (holding established false []))
        ≡ ok ([], 7 ∷ [], true, false))
    × (view (send 0 (refused 32) (7 ∷ []) (holding established false []))
        ≡ ok ([], [], false, false))
    × (view (send 0 (took 1) (7 ∷ []) (holding established true (5 ∷ [])))
        ≡ ok ([], 5 ∷ 7 ∷ [], true, false))
    × (view (send 0 (took 1) (7 ∷ []) (holding half_shutdown true (5 ∷ [])))
        ≡ ok ([], 5 ∷ [], true, false))
unfolding send append ensure_writable_space is_empty
send_test = (refl, refl, refl, refl, refl)

-- The last byte of a half shut connection is written, and then its write side is shut.
drain_test :
    view (
      handle_events 0
        (failed 11)
        (took 1)
        (record quiet { pollout = true })
        (holding half_shutdown true (5 ∷ [])))
    ≡ ok (5 ∷ [], [], false, true)
unfolding handle_events handle pop is_empty
drain_test = refl

-- The peer closes: the read and the hang-up both arrive, and the close callback comes once.
abbrev calls_of : Result TcpConnection → Result (List Call)
calls_of (err f) = err f
calls_of (ok c) = ok c.calls

close_test :
    calls_of (
      handle_events 0
        (delivered [])
        (took 0)
        (record quiet { pollin = true; pollhup = true })
        (holding established false []))
    ≡ ok (close_cb ∷ conn_cb disconnected ∷ [])
unfolding handle_events handle
close_test = refl

holding-Sound : Sound (holding established true (5 ∷ []))
unfolding is_empty
holding-Sound = record {
  input_valid = record { ordered = omega arith; in_cells = omega arith; reserved = omega arith };
  output_valid = record { ordered = omega arith; in_cells = omega arith; reserved = omega arith };
  interest = λ n. refl;
  quiet = λ h. cc h;
  drained = λ h. cc h;
  sealed = λ h. cc h;
  closed_once = omega arith;
  not_closed = λ n. refl;
}

send-Survives_example :
    Survives
      (7 ∷ 8 ∷ [])
      (holding established true (5 ∷ []))
      (send 3 (took 2) (7 ∷ 8 ∷ []) (holding established true (5 ∷ [])))
unfolding is_empty
send-Survives_example = send-Survives 3 (took 2) (7 ∷ 8 ∷ []) holding-Sound (omega arith)

handling-Sound : Sound (record (holding established true (5 ∷ [])) {
  channel = record (holding established true (5 ∷ [])).channel { is_handling_events = true };
})
handling-Sound = record {
  input_valid = holding-Sound.input_valid;
  output_valid = holding-Sound.output_valid;
  interest = holding-Sound.interest;
  quiet = holding-Sound.quiet;
  drained = holding-Sound.drained;
  sealed = holding-Sound.sealed;
  closed_once = omega arith;
  not_closed = λ n. refl;
}

abbrev handling : TcpConnection
handling = record (holding established true (5 ∷ [])) {
  channel = record (holding established true (5 ∷ [])).channel { is_handling_events = true };
}

handle_write-Flushed_example :
    Survives [] handling (handle_write (took 1) handling)
    × (d : TcpConnection) × (handle_write (took 1) handling ≡ ok d)
    × Flushed (took 1) handling d
handle_write-Flushed_example = handle_write-Flushed (took 1) handling-Sound refl

handle_events-Dispatched_example : Dispatched (holding established true (5 ∷ [])) (
    handle_events 0
      (delivered [])
      (took 1)
      (record quiet { pollin = true; pollout = true; pollhup = true })
      (holding established true (5 ∷ [])))
handle_events-Dispatched_example =
    handle_events-Dispatched 0 (delivered []) (took 1)
      (record quiet { pollin = true; pollout = true; pollhup = true }) holding-Sound (λ h. cc h)

-- A connection from its constructor to its first bytes.
abbrev first : Buffer → Buffer → TcpConnection
first input output = record {
  state = connecting;
  channel = record {
    events = record { pollin = true; pollpri = true; pollout = false };
    registered = true;
    is_handling_events = false;
  };
  input = input;
  output = output;
  watermark = 1024 * 1024 * 1024;
  written = [];
  shut = false;
  calls = [];
}

abbrev zeros : ℕ → Buffer
zeros k = record { head = k; tail = k; prepend_size = k; cells = replicate 1024 0 }

abbrev greeted : TcpConnection
greeted = record (first (zeros 0) (zeros 8)) {
  state = established;
  written = 7 ∷ 8 ∷ [];
  calls = wake_up ∷ write_cb_queued ∷ conn_cb established ∷ [];
}

greeted-Reach : Reach (7 ∷ 8 ∷ []) greeted
unfolding init_connection init on_established send is_empty
greeted-Reach = sent 0 (took 2) (7 ∷ 8 ∷ []) (connected (made refl) refl) (omega arith) refl

Reach-Sound_example : Sound greeted × (stream greeted ≡ 7 ∷ 8 ∷ [])
Reach-Sound_example = Reach-Sound greeted-Reach
