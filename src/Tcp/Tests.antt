-- ===== src/Tcp/Tests.antt =====
-- Runs of a connection, and its theorems at concrete inputs.
use mathlib.Core.List.{Perm}
use budd.Common.{
  ℕ, ◌+◌, ◌≡◌, refl, inl, inr, none, List, [], ◌∷◌, ◌++◌, arith, false, codes, length, Bytes,
}
use budd.Outcome.{ok, err, assertion}
use budd.Buffer.{Buffer}
use budd.Buffer.Contents.{contents}
use budd.Tcp.Channel.{read_event, write_event}
use budd.Tcp.Connection.{TcpConnection, connected, wrote, send_data, handle_write, shutdown}
use budd.Tcp.Connection.Send.{Sends, send_data_lem}
use budd.Tcp.Connection.Drain.{IsReady}
use budd.Tcp.Connection.Order.{play_overtakes, shutdown_while_waiting}
use budd.Tcp.Connection.Stream.{Event, send, writable, play, stream, play-Perm, play_delivers}

abbrev holding : Bytes → Buffer
holding s = record {
  reader_index = 8;
  writer_index = 8 + length s;
  buffer = codes "........" ++ s ++ codes "....";
}

-- A connection with nothing to send, and one of which two bytes wait.
abbrev idle : TcpConnection ℕ
idle = record {
  state = connected;
  events = read_event;
  input_buffer = holding [];
  output_buffer = holding [];
  context = none;
  sent = [];
  write_shut = false;
  closed = false;
}

abbrev waiting : TcpConnection ℕ
waiting = record idle { events = write_event; output_buffer = holding (codes "xy") }

idle-IsReady : IsReady idle
idle-IsReady = record { valid = omega arith; up = refl; asked = inr refl }

waiting-IsReady : IsReady waiting
waiting-IsReady = record { valid = omega arith; up = refl; asked = inl refl }

abbrev events : List Event
events = send (codes "abc") 1 ∷ writable 1 ∷ send (codes "de") 2 ∷ writable 5 ∷ []

send_data_lem_example : Sends waiting (codes "abc") 1 (send_data waiting (codes "abc") (wrote 1))
send_data_lem_example =
    send_data_lem waiting (codes "abc") waiting-IsReady.valid 1 (omega arith) (omega arith) refl

play-Perm_example :
    (c' : TcpConnection ℕ) × (play idle events ≡ ok c')
    × IsReady c'
    × Perm (stream c') (codes "abcde")
play-Perm_example =
    play-Perm idle events idle-IsReady (omega arith, (omega arith, tt)) (omega arith)

play_delivers_example :
    (c' : TcpConnection ℕ) × (play idle (send (codes "abc") 1 ∷ writable 1 ∷ writable 7 ∷ [])
      ≡ ok c')
    × (c'.sent ≡ codes "abc")
    × (contents c'.output_buffer ≡ [])
play_delivers_example =
    play_delivers idle (codes "abc") 1 (1 ∷ 7 ∷ []) idle-IsReady refl (omega arith) (omega arith)
      (omega arith)

play_overtakes_example :
    (c' : TcpConnection ℕ) × (play idle
        (send (codes "abc") 1 ∷ send (codes "de") 2 ∷ writable 3 ∷ [])
      ≡ ok c')
    × (c'.sent ≡ codes "adebc")
play_overtakes_example =
    play_overtakes idle (codes "abc") (codes "de") 1 idle-IsReady refl (omega arith) (omega arith)

shutdown_while_waiting_example :
    (c' : TcpConnection ℕ) × (send_data idle (codes "abc") (wrote 1) ≡ ok c')
    × ((shutdown c').events ≡ write_event)
    × (handle_write (shutdown c') (wrote 2) ≡ err assertion)
shutdown_while_waiting_example =
    shutdown_while_waiting idle (codes "abc") 1 (wrote 2) idle-IsReady (omega arith) (omega arith)
