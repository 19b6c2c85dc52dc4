-- ===== src/Net/Tests/Servers.antt =====
-- Runs of the models of Net/EventLoop.cpp, Net/Acceptor.cpp and Net/TcpServer.cpp.
use cloud_assitant.Prelude.{
  ℕ, ◌+◌, ◌<◌, ◌≡◌, refl, ap, subst, List, [], ◌∷◌, none, some, true, false, ◌==◌, if◌then◌else◌,
  Holds, arith, text,
}
use cloud_assitant.Net.Channel.{erase, new_scheduler}
use cloud_assitant.Net.TcpConnection
use cloud_assitant.Net.EventLoop.{EventLoop, init, calls}
use cloud_assitant.Net.EventLoop.RoundRobin.{calls-in_turn}
use cloud_assitant.Net.TcpSocket.{Sockets}
use cloud_assitant.Net.Acceptor.{Acceptor, listen, close}
use cloud_assitant.Net.Acceptor.Descriptors.{HasDescriptors, listen-close}
use cloud_assitant.Net.TcpServer.{TcpServer, Object, handle_close, stop, holds}
use cloud_assitant.Net.TcpServer.Lifetimes.{IsConsistent, handle_close-freed}
use cloud_assitant.Net.TcpServer.Stop.{accepts, closes, run, run-IsConsistent, stop_lem}
use cloud_assitant.Net.TcpServer.Race.{early_close, early_close-stays, is_key}

-- A system that gives out descriptors in turn, with those that are open.
abbrev toy : Sockets
toy = record {
  State = ℕ × List ℕ;
  socket = λ (next, fds). (some next, (next + 1, next ∷ fds));
  bind = λ s fd ip port. (true, s);
  listen = λ s fd n. (true, s);
  accept = λ (next, fds) fd. (some next, (next + 1, next ∷ fds));
  close = λ (next, fds) fd. (next, erase fd fds);
  shutdown = λ s fd. s;
  get_flags = λ s fd. 0;
  set_flags = λ s fd flags. s;
  set_option = λ s fd option v. s;
}

toy-HasDescriptors : HasDescriptors toy
toy-HasDescriptors = record {
  opened = λ s. s.1;
  after_socket = λ s fd e. ap (λ o. elim o [ none ↦ s.1 | some x ↦ x ∷ s.1 ]) e;
  no_socket = λ s e. cc;
  after_bind = λ s fd ip port. refl;
  after_listen = λ s fd n. refl;
  after_close = λ s fd. refl;
  after_flags = λ s fd flags. refl;
  after_option = λ s fd option v. refl;
}

abbrev two_threads : EventLoop
unfolding init
two_threads = init 2

-- Three calls.
calls-in_turn_example :
    calls 3 two_threads ≡ some (1 ∷ 0 ∷ 1 ∷ [], record two_threads { index = 0 })
unfolding two_threads
calls-in_turn_example = calls-in_turn 3 2 two_threads refl (omega arith) (omega arith) (omega arith)

abbrev acceptor : Acceptor toy
acceptor = record { loop = two_threads; channel = none; sockfd = none; system = (5, 0 ∷ []) }

listen-close_example :
    (close toy (listen toy acceptor (text "0.0.0.0") 80).1).system.1 ≡ acceptor.system.1
unfolding close toy-HasDescriptors
listen-close_example =
    listen-close toy toy-HasDescriptors acceptor (text "0.0.0.0") 80 refl
      λ fd e. subst (λ o. elim o [ none ↦ Unit | some x ↦ 0 < x ]) e (omega arith)

abbrev no_connections : TcpServer toy
no_connections = record {
  acceptor = acceptor;
  port = 80;
  ip = [];
  is_stared = true;
  connects = [];
  objects = λ id. none;
  next = 0;
  freed_locked = [];
}

run-IsConsistent_example :
    Holds (IsConsistent toy) (run toy no_connections (accepts ∷ accepts ∷ closes 0 ∷ []))
run-IsConsistent_example =
    run-IsConsistent toy no_connections (accepts ∷ accepts ∷ closes 0 ∷ [])
      (record { live = tt; fresh = λ id h. refl })

abbrev peer : Object
unfolding TcpConnection.init
peer = record { connection = TcpConnection.init 7 new_scheduler; scheduler = 0; removes = true }

abbrev one_connection : TcpServer toy
one_connection = record no_connections {
  connects = (7, 0) ∷ [];
  objects = λ id. if id == 0 then some peer else none;
  next = 1;
}

one_connection-IsConsistent : IsConsistent toy one_connection
unfolding peer
one_connection-IsConsistent = record {
  live = ((peer, refl, refl, refl, refl), tt);
  fresh = λ id h. ground (arith, h);
}

stop_lem_example : stop toy one_connection ≡ none
stop_lem_example = stop_lem toy one_connection one_connection-IsConsistent refl

handle_close-freed_example :
    IsConsistent toy (handle_close toy 0 one_connection)
    × ((handle_close toy 0 one_connection).objects 0 ≡ none)
    × ((handle_close toy 0 one_connection).freed_locked ≡ 0 ∷ [])
unfolding peer
handle_close-freed_example =
    handle_close-freed toy 0 peer one_connection one_connection-IsConsistent refl refl

-- A connection that the map does not hold yet.
abbrev arriving : Object
arriving = record peer { removes = false }

abbrev accepting : TcpServer toy
accepting = record no_connections {
  objects = λ id. if id == 0 then some arriving else none;
  next = 1;
}

early_close-stays_example :
    (holds 0 (early_close toy 7 0 arriving accepting).connects ≡ true)
    × (handle_close toy 0 (early_close toy 7 0 arriving accepting)
        ≡ early_close toy 7 0 arriving accepting)
    × ((early_close toy 7 0 arriving accepting).acceptor.system ≡ (5, 0 ∷ []))
unfolding is_key
early_close-stays_example = early_close-stays toy 7 0 arriving accepting refl refl
