-- ===== src/Sig/Define.antt =====
-- SigServer/Define.h. Packets that arrive are bytes, those that are sent are values.
unfoldable pub use cloud_assitant.Prelude.{c_string}
use cloud_assitant.Prelude.{ℕ, List, [], Option, none, some, ◌==◌, if◌then◌else◌, take}

pub data Cmd : Type 0 where
  join : Cmd
  obtain_stream create_stream play_stream delete_stream : Cmd
  mouse mouse_move key wheel : Cmd

-- The cases of the `switch` on the number; `none` is its `default`.
unfoldable pub command : ℕ → Option Cmd
command cmd =
    if cmd == 0x0005
    then some join
    else (if cmd == 0x0100
        then some obtain_stream
        else (if cmd == 0x0101
            then some create_stream
            else (if cmd == 0x0103
                then some delete_stream
                else (if cmd == 0x0200
                    then some mouse
                    else (if cmd == 0x0201
                        then some mouse_move
                        else (if cmd == 0x0202
                            then some key
                            else (if cmd == 0x0203 then some wheel else none)))))))

pub data ResultCode : Type 0 where
  successful error request_timeout already_redistered user_disappear : ResultCode
  already_login verficate_failed : ResultCode

-- `role_none` is the source's NONE.
pub data RoleState : Type 0 where
  idle role_none close puller pusher : RoleState

abbrev pub head_size : ℕ
head_size = 4

-- `PlayStream_body`.
pub record PlayStream : Type 0 where
  pub result : ResultCode
  pub address : List ℕ

abbrev pub play_stream_body : PlayStream
play_stream_body = record { result = error; address = [] }

-- `SetstreamAddres` keeps the 70 bytes that the array has.
unfoldable pub set_stream_address : PlayStream → List ℕ → PlayStream
set_stream_address body str = record body { address = take 70 str }

-- What is sent; `forwarded` is a packet passed on as it came.
pub data Packet : Type 0 where
  join_reply obtain_stream_reply : ResultCode → Packet
  create_stream_packet : Packet
  play_stream_packet : PlayStream → Packet
  delete_stream_packet : ℕ → Packet
  forwarded : List ℕ → Packet
