-- ===== src/Load/Heartbeat.antt =====
-- The report that the client of LoginServer/TcpClient.cpp sends is the one that the load balancer reads.
use cloud_assitant.Prelude.{
  ℕ, ◌+◌, ◌*◌, ◌/◌, ◌^◌, ◌<◌, ◌≡◌, subst, ap₂, List, [], ◌∷◌, ◌++◌, some, length, arith, drop,
  read_bytes, read_bytes-append, drop-length-append,
}
use cloud_assitant.Net.Bytes.{write_uint16_le, read_uint16_le, read_uint8, to_byte}
use cloud_assitant.Load.{monitor_mem, monitor_ip, monitor_port}
use cloud_assitant.Load.Reports.{report_of, read_report}
use cloud_assitant.Login.Client.{TcpClient, packet}

-- The load balancer reads the report that the client sends.
pub read_report-packet :
    (c : TcpClient)
    → c.mem < 256
    → c.port < 2 ^ 16
    → length c.ip ≡ 16
    → read_report (packet c) ≡ some (record { mem = c.mem; ip = c.ip; port = c.port })
unfolding packet read_report monitor_mem monitor_ip monitor_port read_uint8 read_uint16_le
    write_uint16_le
read_report-packet c h p l =
    rw (address, last)
      (ap₂ (λ mem port. some (report_of mem c.ip port)) (byte c.mem h) (word c.port p))
  where
    port : List ℕ
    port = to_byte c.port ∷ to_byte (c.port / 2 ^ 8) ∷ []

    address : read_bytes 16 (c.ip ++ port) ≡ some c.ip
    address = subst (λ n. read_bytes n (c.ip ++ port) ≡ some c.ip) l (read_bytes-append c.ip port)

    last : drop 16 (c.ip ++ port) ≡ port
    last = subst (λ n. drop n (c.ip ++ port) ≡ port) l (drop-length-append c.ip port)

    byte : (n : ℕ) → n < 256 → to_byte n ≡ n
    byte n h = omega (arith, h)

    word : (n : ℕ) → n < 2 ^ 16 → to_byte (n / 256) * 256 + to_byte n ≡ n
    word n h = omega (arith, h)
