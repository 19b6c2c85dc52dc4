-- ===== src/Sig/Tests.antt =====
-- Runs of the model of the directory SigServer.
use cloud_assitant.Prelude.{
  ℕ, List, [], ◌∷◌, none, some, false, ◌==◌, if◌then◌else◌, list_eq, take, ◌>>=◌, read_bytes, ◌≡◌,
  ◌≢◌, refl, arith,
}
use cloud_assitant.Net.BufferReader.{BufferReader, readable_bytes, peek, retrieve}
use cloud_assitant.Net.Bytes.{read_uint16_le}
use cloud_assitant.Sig.Define.{
  close, idle, puller, pusher, successful, join_reply, create_stream_packet, obtain_stream_reply,
  play_stream_packet, forwarded, command, c_string,
}
use cloud_assitant.Sig.Manager.{query_conn}
use cloud_assitant.Sig.Connection.{
  World, clear, new_connection, send, do_obtain_stream, do_create_stream, handle_other_message,
  handle_join, dispatch, handle_message, on_read,
}
use cloud_assitant.Sig.Connection.Settles.{Registered}
use cloud_assitant.Sig.Connection.Registered.{on_read-Registered}
use cloud_assitant.Sig.Connection.Closing.{clear-closes}
use cloud_assitant.Sig.Connection.Streams.{session}

abbrev code_a : List ℕ
code_a = b'a' ∷ []

abbrev code_b : List ℕ
code_b = b'b' ∷ []

abbrev address : List ℕ
address = b'r' ∷ b't' ∷ []

-- Nobody has joined.
abbrev nobody : World
nobody = record { connections = λ i. new_connection; directory = []; sent = [] }

-- Connection 1 has joined as "a" and connection 2 as "b".
abbrev two_idle : World
two_idle = record {
  connections =
      λ i. record new_connection { state = idle; code = if i == 1 then code_a else code_b };
  directory = (code_b, 2) ∷ (code_a, 1) ∷ [];
  sent = [];
}

-- Connection 2 already pushes a stream.
abbrev one_pushes : World
one_pushes = record two_idle {
  connections = λ i. record new_connection {
    state = if i == 1 then idle else pusher;
    code = if i == 1 then code_a else code_b;
    stream_address = address;
  };
}

two_differ : ◌≢◌ {A = ℕ} 2 1
two_differ e = absurd (omega (arith, e))

finds_b : query_conn code_b two_idle.directory ≡ some 2
unfolding query_conn list_eq
finds_b = refl

finds_a : query_conn code_a two_idle.directory ≡ some 1
unfolding query_conn list_eq
finds_a = refl

has_address : list_eq address [] ≡ false
unfolding list_eq
has_address = refl

session_example :
    (w' : World) × (do_create_stream (do_obtain_stream two_idle 1 code_b) 2 address ≡ some w')
    × (w'.sent
        ≡ (2, create_stream_packet)
          ∷ (1, obtain_stream_reply successful)
          ∷ (1, play_stream_packet (record { result = successful; address = take 70 address }))
          ∷ [])
    × ((w'.connections 1).state ≡ puller)
    × ((w'.connections 2).state ≡ pusher)
    × ((len : ℕ) (d : List ℕ)
        → handle_other_message w' 1 len d
          ≡ (read_bytes len d >>= λ bytes. some (send 2 (forwarded bytes) w')))
session_example =
    session two_idle 1 2 code_b finds_b two_differ refl address refl refl finds_a has_address

abbrev half_head : BufferReader
half_head = record { buffer = 5 ∷ 0 ∷ []; reader_index = 0; writer_index = 2 }

nobody-Registered : Registered nobody
unfolding query_conn
nobody-Registered code i e = cc

-- A packet JOIN with the code "a".
abbrev join_packet : BufferReader
join_packet = record {
  buffer = 14 ∷ 0 ∷ 5 ∷ 0 ∷ b'a' ∷ 0 ∷ 0 ∷ 0 ∷ 0 ∷ 0 ∷ 0 ∷ 0 ∷ 0 ∷ 0 ∷ [];
  reader_index = 0;
  writer_index = 14;
}

abbrev one_joined : World
one_joined = record {
  connections =
      λ j. if j == 1 then record new_connection { code = code_a; state = idle } else new_connection;
  directory = (code_a, 1) ∷ [];
  sent = (1, join_reply successful) ∷ [];
}

join_run :
    on_read 2 nobody 1 join_packet
    ≡ some (one_joined, record join_packet { reader_index = 0; writer_index = 0 })
unfolding on_read readable_bytes handle_message read_uint16_le peek dispatch command handle_join
    c_string retrieve list_eq
join_run = refl

on_read-Registered_example : Registered one_joined
on_read-Registered_example =
    on_read-Registered 2 nobody one_joined 1 join_packet
      (record join_packet { reader_index = 0; writer_index = 0 }) nobody-Registered join_run

-- Connection 1 controls connection 2.
abbrev one_controls : World
one_controls = record two_idle {
  connections = λ i. record new_connection {
    state = if i == 1 then puller else idle;
    code = if i == 1 then code_a else code_b;
    conn = some 2;
    objects = code_b ∷ [];
  };
}

leads_to_other : query_conn code_b one_controls.directory ≢ some 1
unfolding query_conn list_eq
leads_to_other e = cc

clear-closes_example :
    (w' : World) × (clear one_controls 1 ≡ some w')
    × (w'.connections 1 ≡ record (one_controls.connections 1) { state = close; conn = none })
clear-closes_example = clear-closes one_controls 1 (leads_to_other, tt)
