-- ===== src/Login/Client/Wire.antt =====
-- Send of LoginServer/TcpClient.cpp.
use cloud_assitant.Prelude.{
  ℕ, zero, suc, ◌+◌, ◌<◌, ◌≤◌, ◌≡◌, refl, ap, List, [], ◌∷◌, Option, some, length, arith, drop,
  take-append-drop, length-drop,
}
use cloud_assitant.Login.Client.{send, send_loop}

-- A socket that takes one byte at least and no more than it is offered.
abbrev pub IsWilling : (ℕ → List ℕ → Option ℕ) → Type 0
IsWilling socket =
    (round : ℕ) (xs : List ℕ)
    → 0 < length xs
    → (n : ℕ) × (socket round xs ≡ some n) × (0 < n) × (n ≤ length xs)

send_loop-all :
    (socket : ℕ → List ℕ → Option ℕ) (fuel round : ℕ) (xs : List ℕ)
    → IsWilling socket
    → length xs < fuel
    → send_loop socket fuel round xs ≡ some xs
unfolding send_loop
send_loop-all socket zero round xs w h = absurd (omega arith)
send_loop-all socket (suc fuel) round [] w h = refl
send_loop-all socket (suc fuel) round (x ∷ xs) w h =
    let (n, e, positive, most) = w round (x ∷ xs) (omega arith) in
    rw (send_loop, e)
      (rw
        (send_loop-all socket fuel (suc round) (drop n (x ∷ xs)) w
          (omega (arith, length-drop n (x ∷ xs), positive, h)))
        (ap some (take-append-drop n (x ∷ xs))))

-- Send ends and sends all bytes in their order, in no more rounds than there are bytes and one, when
-- the socket takes a byte at least each time.
pub send-all :
    (socket : ℕ → List ℕ → Option ℕ) (xs : List ℕ)
    → IsWilling socket
    → send socket (length xs + 1) xs ≡ some xs
unfolding send
send-all socket xs w = send_loop-all socket (length xs + 1) 0 xs w (omega arith)
