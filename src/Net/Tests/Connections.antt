-- ===== src/Net/Tests/Connections.antt =====
-- Runs of the model of Net/TcpConnection.cpp.
use cloud_assitant.Prelude.{
  ℕ, ◌≡◌, refl, List, [], ◌∷◌, some, true, false, length, Holds, arith, min,
}
use cloud_assitant.Net.BufferReader.{bytes}
use cloud_assitant.Net.BufferWriter.{accepted, is_full}
use cloud_assitant.Net.BufferWriter.Wire.{IsValid, IsSocket}
use cloud_assitant.Net.Channel.{ctl_add, new_scheduler}
use cloud_assitant.Net.TcpConnection.{
  TcpConnection, init, Event, elsewhere, arrives, sends, hangs_up, run, send, Socket, ReadCallback,
}
use cloud_assitant.Net.TcpConnection.Watch.{Keeps}
use cloud_assitant.Net.TcpConnection.Interest.{run-init}
use cloud_assitant.Net.TcpConnection.Stream.{stream, send-stream}

-- A connection on the descriptor 7 with nothing to send.
abbrev quiet : TcpConnection
quiet = record {
  is_closed = false;
  read_buffer = record { buffer = []; reader_index = 0; writer_index = 0 };
  write_buffer = record { buffer = []; max_queue_length = 500 };
  channel = record { sockfd = 7; events = 1 };
  scheduler = record {
    channels = 7 ∷ [];
    controls = record { operation = ctl_add; fd = 7; events = 1 } ∷ [];
  };
  closings = 0;
  wire = [];
}

-- A socket that takes two bytes at most.
abbrev two_at_most : Socket
two_at_most round xs = accepted (min 2 (length xs))

two_at_most-IsSocket : IsSocket two_at_most
two_at_most-IsSocket round k xs e = ground arith

abbrev hello : List ℕ
hello = 1 ∷ 2 ∷ 3 ∷ []

-- A callback that refuses what it reads.
abbrev refuse : ReadCallback
refuse c = some (false, c)

abbrev story : List Event
story =
    sends hello 3 true two_at_most
    ∷ elsewhere (record { sockfd = 8; events = 5 })
    ∷ arrives (bytes hello) (some refuse)
    ∷ hangs_up
    ∷ []

run-init_example : Holds Keeps (run (init 7 new_scheduler) story)
run-init_example = run-init 7 new_scheduler story (refl, (tt, ((λ c k. k), (tt, tt))))

quiet-IsValid : IsValid quiet.write_buffer
quiet-IsValid = record { packets = tt; limit = omega arith }

send-stream_example :
    (c' : TcpConnection) × (send quiet hello 3 false two_at_most ≡ some c')
    × (stream c' ≡ hello)
    × IsValid c'.write_buffer
unfolding is_full
send-stream_example =
    send-stream quiet hello 3 false two_at_most refl two_at_most-IsSocket quiet-IsValid
      (omega arith) (omega arith) refl
