-- ===== src/Tcp/Connection.antt =====
-- tcp/tcpconnection.h and tcp/tcpconnection.cpp: `class TcpConnection`, as its loop's thread runs
-- it: `sendData` asserts that thread, so the branches for other threads are dead. What a system
-- call returns is an argument; `sent`, `write_shut` and `closed` record what the socket was told.
pub mod Send
pub mod Drain
pub mod Stream
pub mod Order
pub mod Establish
pub mod Hosted
pub mod Rounds
pub mod Life
use budd.Common.{
  ℕ, ◌+◌, ◌-◌, ◌^◌, ◌%◌, Bool, true, false, not, Option, some, [], ◌++◌, ltb, leb, ◌==◌,
  if◌then◌else◌, length, take, drop, slice, Bytes,
}
use budd.Outcome.{Outcome, ok, err, ◌>>=◌, ◌>>◌, demand, assertion}
use budd.Buffer.{
  Buffer, initial_size, sub_size, minus_one, append, retrieve, readable_bytes,
  retrieve_all_as_string, Readv, read_fd,
}
use budd.Buffer as Buffer
use budd.Tcp.Channel.{read_event, write_event, empty_event, has_event}

-- `enum State`
pub data State : Type 0 where
  none connecting connected disconnecting disconnect : State

-- `m_channel` is here by its events; `X` is the type of the context.
pub record TcpConnection (X : Type 0) : Type 0 where
  pub state : State
  pub events : ℕ
  pub input_buffer : Buffer
  pub output_buffer : Buffer
  pub context : Option X
  pub sent : Bytes
  pub write_shut : Bool
  pub closed : Bool

-- What `write` returns: -1, or how many of the bytes were taken.
pub data Write : Type 0 where
  failed : Write
  wrote : ℕ → Write

-- The result as a `size_t`, and the bytes that were taken.
abbrev pub sent_n : Write → ℕ
sent_n failed = minus_one
sent_n (wrote n) = n

abbrev pub taken : Write → Bytes → Bytes
taken failed bytes = []
taken (wrote n) bytes = take n bytes

abbrev pub is_connected : State → Bool
is_connected connected = true
is_connected _ = false

-- The state in which a connection may be closed.
abbrev pub is_open : State → Bool
is_open connected = true
is_open disconnecting = true
is_open _ = false

abbrev pub is_disconnecting : State → Bool
is_disconnecting disconnecting = true
is_disconnecting _ = false

abbrev pub is_none : State → Bool
is_none none = true
is_none _ = false

module _ {X : Type 0} where
  abbrev pub set_context : X → TcpConnection X → TcpConnection X
  set_context context c = record c { context = some context }

  abbrev pub get_context : TcpConnection X → Option X
  get_context c = c.context

  -- `m_channel->enableRead()`, and so on: the events are replaced.
  abbrev pub enable_read : TcpConnection X → TcpConnection X
  enable_read c = record c { events = read_event }

  abbrev pub enable_write : TcpConnection X → TcpConnection X
  enable_write c = record c { events = write_event }

  abbrev pub disable_events : TcpConnection X → TcpConnection X
  disable_events c = record c { events = empty_event }

  -- The end of `sendDataInLoop`: what the socket did not take goes to the output buffer.
  unfoldable pub keep_rest : TcpConnection X → Bytes → ℕ → Outcome (TcpConnection X)
  keep_rest c rest remain =
      if ltb 0 remain
      then (append c.output_buffer rest remain >>= λ b.
          ok (enable_write (record c { output_buffer = b })))
      else ok c

  -- `sentN` is a `size_t`, so the test for `sentN < 0` is never true.
  unfoldable pub send_data_in_loop : TcpConnection X → Bytes → Write → Outcome (TcpConnection X)
  send_data_in_loop c bytes w = do
    let c' = record c { sent = c.sent ++ taken w bytes }
    let remain = sub_size (length bytes) (sent_n w)
    demand (leb remain (length bytes)) assertion
    keep_rest c' (drop (sent_n w) bytes) remain

  -- `sendData(const std::string &)`
  unfoldable pub send_data : TcpConnection X → Bytes → Write → Outcome (TcpConnection X)
  send_data c bytes w = if is_connected c.state then send_data_in_loop c bytes w else ok c

  -- `sendData(Buffer *)`: the connection and the buffer
  unfoldable pub send_buffer : TcpConnection X → Buffer → Write → Outcome (TcpConnection X × Buffer)
  send_buffer c b w =
      if is_connected c.state
      then (retrieve_all_as_string b >>= λ (bytes, b').
          send_data_in_loop c bytes w >>= λ c'. ok (c', b'))
      else ok (c, b)

  unfoldable pub shutdown_in_loop : TcpConnection X → TcpConnection X
  shutdown_in_loop c = record c {
    write_shut = if not (has_event c.events write_event) then true else c.write_shut;
    state = disconnecting;
  }

  unfoldable pub shutdown : TcpConnection X → TcpConnection X
  shutdown c = if is_connected c.state then shutdown_in_loop c else c

  unfoldable pub all_written : TcpConnection X → TcpConnection X
  all_written c =
      if is_disconnecting c.state then shutdown_in_loop (enable_read c) else enable_read c

  -- The end of `handleWrite`: `sendN` bytes were taken from the front of the output buffer.
  unfoldable pub after_write : TcpConnection X → ℕ → Outcome (TcpConnection X)
  after_write c n = do
    b ← retrieve c.output_buffer n
    let c' = record c { output_buffer = b }
    ok (if readable_bytes b == 0 then all_written c' else c')

  unfoldable pub write_result : TcpConnection X → Write → Outcome (TcpConnection X)
  write_result c failed = ok (enable_read c)
  write_result c (wrote n) = after_write c n

  unfoldable pub handle_write : TcpConnection X → Write → Outcome (TcpConnection X)
  handle_write c w = do
    demand (is_connected c.state) assertion
    let out = c.output_buffer
    let waiting = slice out.buffer out.reader_index out.writer_index
    let c' = record c { sent = c.sent ++ taken w waiting }
    if has_event c.events write_event then write_result c' w else ok c'

  unfoldable pub connect_destroyed : TcpConnection X → Outcome (TcpConnection X)
  connect_destroyed c = do
    demand (is_open c.state) assertion
    ok (record c { state = disconnect; events = empty_event; closed = true })

  -- The constructor: both buffers are new.
  unfoldable pub create : Outcome (TcpConnection X)
  create = do
    input ← Buffer.create initial_size
    output ← Buffer.create initial_size
    ok (record {
      state = State.none;
      events = empty_event;
      input_buffer = input;
      output_buffer = output;
      context = Option.none;
      sent = [];
      write_shut = false;
      closed = false;
    })

  -- What is registered by `setConnnectionCallback`, `setMessageCallback` and `setCloseCallback`; the
  -- callbacks act on the connection and on the rest of the program, `W`.
  module _ {W : Type 0} (connection_callback : TcpConnection X → W → Outcome (TcpConnection X × W))
      (message_callback : TcpConnection X → ℕ → W → Outcome (TcpConnection X × W))
      (close_callback : TcpConnection X → W → Outcome (TcpConnection X × W)) where
    unfoldable pub connect_established : TcpConnection X → W → Outcome (TcpConnection X × W)
    connect_established c w = do
      demand (is_none c.state) assertion
      (c', w') ← connection_callback (record c { state = connected }) w
      ok (enable_read c', w')

    unfoldable pub handle_close : TcpConnection X → W → Outcome (TcpConnection X × W)
    handle_close c w = do demand (is_open c.state) assertion; close_callback (disable_events c) w

    -- `n` is a `ssize_t`: from 2^63 on the count is negative. It is narrowed to an `int` for the
    -- callback. `handleError` only logs.
    unfoldable pub handle_read : TcpConnection X → Bytes → Readv → W → Outcome (TcpConnection X × W)
    handle_read c extra got w = read_fd c.input_buffer 0 extra got >>= λ (n, errorno, b).
        let c' = record c { input_buffer = b } in
        if n == 0
        then handle_close c' w
        else if leb (2 ^ 63) n
        then ok (c', w)
        else message_callback c' (n % 2 ^ 32) w
