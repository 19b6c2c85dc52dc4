-- ===== src/Net/Acceptor/Descriptors.antt =====
-- Which descriptors Listen and Close of Net/Acceptor.cpp leave open.
use cloud_assitant.Prelude.{
  ℕ, ◌<◌, ◌≡◌, refl, ap, ◌∙◌, List, ◌∷◌, Option, none, some, Bool, true, false, ltb, ◌==◌,
  if◌then◌else◌, Bool-cases, inl, inr, arith, lt→ltb,
}
use cloud_assitant.Net.Channel.{erase, enable_reading}
use cloud_assitant.Net.EventLoop.{remove_channel, update_channel}
use cloud_assitant.Net.TcpSocket.{
  Sockets, SocketOption, set_non_block, set_reuse_addr, set_reuse_port,
}
use cloud_assitant.Net.TcpSocket
use cloud_assitant.Net.Acceptor.{
  Acceptor, ListenResult, listening, bind_error, listen_error, close, listen, reopen, set_options,
  watch, is_positive, with_socket,
}

-- The descriptors that are open: `socket` adds one, `close` takes one away, and nothing else that a
-- listening socket is used for changes them.
pub record HasDescriptors (os : Sockets) : Type 0 where
  pub opened : os.State → List ℕ
  pub after_socket :
      (s : os.State) (fd : ℕ) → (os.socket s).0 ≡ some fd → opened (os.socket s).1 ≡ fd ∷ opened s
  pub no_socket : (s : os.State) → (os.socket s).0 ≡ none → opened (os.socket s).1 ≡ opened s
  pub after_bind :
      (s : os.State) (fd : ℕ) (ip : List ℕ) (port : ℕ) → opened (os.bind s fd ip port).1 ≡ opened s
  pub after_listen : (s : os.State) (fd n : ℕ) → opened (os.listen s fd n).1 ≡ opened s
  pub after_close : (s : os.State) (fd : ℕ) → opened (os.close s fd) ≡ erase fd (opened s)
  pub after_flags : (s : os.State) (fd flags : ℕ) → opened (os.set_flags s fd flags) ≡ opened s
  pub after_option :
      (s : os.State) (fd : ℕ) (option : SocketOption) (v : ℕ)
      → opened (os.set_option s fd option v) ≡ opened s

-- The descriptors that are left when a socket is closed.
abbrev left : List ℕ → Option ℕ → List ℕ
left xs none = xs
left xs (some fd) = if ltb 0 fd then erase fd xs else xs

module _ (os : Sockets) (d : HasDescriptors os) where
  -- An acceptor with this socket and these descriptors.
  abbrev Has : Option ℕ → List ℕ → Acceptor os → Type 0
  Has x xs a = (a.sockfd ≡ x) × (d.opened a.system ≡ xs)

  set_options-Has :
      (x : Option ℕ) (xs : List ℕ) (a : Acceptor os) → Has x xs a → Has x xs (set_options os a)
  unfolding set_options set_non_block set_reuse_addr set_reuse_port
  set_options-Has x xs a (e, f) = go a.sockfd e
    where
      go :
          (y : Option ℕ)
          → y ≡ x
          → Has x xs (elim y [
            | none ↦ a
            | some fd ↦ record a {
              system = set_reuse_port os (set_reuse_addr os (set_non_block os a.system fd) fd) fd;
            }
          ])
      go none g = (e, f)
      go (some fd) g =
          (e, d.after_option _ fd _ _ ∙ (d.after_option _ fd _ _ ∙ (d.after_flags _ fd _ ∙ f)))

  -- `Bind` and `Listen` of the socket.
  bind-keeps :
      (y : Option ℕ) (s : os.State) (ip : List ℕ) (port : ℕ)
      → ((TcpSocket.bind os (y, s) ip port).1.0 ≡ y)
        × (d.opened (TcpSocket.bind os (y, s) ip port).1.1 ≡ d.opened s)
  unfolding TcpSocket.bind
  bind-keeps none s ip port = (refl, refl)
  bind-keeps (some fd) s ip port = (refl, d.after_bind s fd ip port)

  listen-keeps :
      (y : Option ℕ) (s : os.State) (n : ℕ)
      → ((TcpSocket.listen os (y, s) n).1.0 ≡ y)
        × (d.opened (TcpSocket.listen os (y, s) n).1.1 ≡ d.opened s)
  unfolding TcpSocket.listen
  listen-keeps none s n = (refl, refl)
  listen-keeps (some fd) s n = (refl, d.after_listen s fd n)

  watch-Has : (x : Option ℕ) (xs : List ℕ) (a : Acceptor os) → Has x xs a → Has x xs (watch os a)
  unfolding watch
  watch-Has x xs a h =
      elim a.channel
        as (λ o. Has x xs (elim o [
          | none ↦ a
          | some c ↦
              let c' = enable_reading c in
              record a { channel = some c'; loop = update_channel a.loop c' }
        ])) [ none ↦ h | some c ↦ h ]

  listen-Has :
      (x : Option ℕ) (xs : List ℕ) (a : Acceptor os) (ip : List ℕ) (port : ℕ)
      → Has x xs (reopen os a)
      → Has x xs (listen os a ip port).1
  unfolding listen
  listen-Has x xs a ip port h =
      go (TcpSocket.bind os (a₁.sockfd, a₁.system) ip port).0
        (TcpSocket.listen os (a₂.sockfd, a₂.system) 1024).0
    where
      a₁ : Acceptor os
      a₁ = set_options os (reopen os a)

      a₂ : Acceptor os
      a₂ = with_socket os a₁ (TcpSocket.bind os (a₁.sockfd, a₁.system) ip port).1

      a₃ : Acceptor os
      a₃ = with_socket os a₂ (TcpSocket.listen os (a₂.sockfd, a₂.system) 1024).1

      h₁ : Has x xs a₁
      h₁ = set_options-Has x xs (reopen os a) h

      h₂ : Has x xs a₂
      h₂ = let k = bind-keeps a₁.sockfd a₁.system ip port in (k.0 ∙ h₁.0, k.1 ∙ h₁.1)

      h₃ : Has x xs a₃
      h₃ = let k = listen-keeps a₂.sockfd a₂.system 1024 in (k.0 ∙ h₂.0, k.1 ∙ h₂.1)

      go :
          (bound ready : Bool)
          → Has x xs (
              let r : ListenResult × Acceptor os =
                if bound
                then (if ready then (listening, watch os a₃) else (listen_error, a₃))
                else (bind_error, a₂) in
              r.1)
      go true true = watch-Has x xs a₃ h₃
      go true false = h₃
      go false ready = h₂

  reopen-Has :
      (a : Acceptor os)
      → a.sockfd ≡ none
      → Has
          (os.socket a.system).0
          (elim (os.socket a.system).0 [
            | none ↦ d.opened a.system
            | some fd ↦ fd ∷ d.opened a.system
          ])
          (reopen os a)
  unfolding reopen TcpSocket.create TcpSocket.close
  reopen-Has a e = (
    ap (λ t. (os.socket t).0) same,
    ap (λ t. d.opened (os.socket t).1) same ∙ go (os.socket a.system).0 refl,
  )
    where
      same :
          (if is_positive a.sockfd
            then TcpSocket.close os (a.sockfd, a.system)
            else (a.sockfd, a.system)).1
          ≡ a.system
      same = rw e refl

      go :
          (x : Option ℕ)
          → (os.socket a.system).0 ≡ x
          → d.opened (os.socket a.system).1
            ≡ elim x [ none ↦ d.opened a.system | some fd ↦ fd ∷ d.opened a.system ]
      go none g = d.no_socket a.system g
      go (some fd) g = d.after_socket a.system fd g

  close-Has :
      (x : Option ℕ) (xs : List ℕ) (a : Acceptor os)
      → Has x xs a
      → d.opened (close os a).system ≡ left xs x
  unfolding close TcpSocket.close
  close-Has x xs a (e, f) = go a.sockfd ∙ ap (left xs) e
    where
      forgotten : Acceptor os
      forgotten = elim a.channel [ none ↦ a | some c ↦ record a { loop = remove_channel a.loop c } ]

      go :
          (y : Option ℕ)
          → d.opened
              (if is_positive y
                then with_socket os forgotten (TcpSocket.close os (y, a.system))
                else a).system
            ≡ left xs y
      go none = f
      go (some fd) = elim (Bool-cases (ltb 0 fd)) [
        | inl p ↦ rw p (d.after_close a.system fd ∙ ap (erase fd) f)
        | inr p ↦ rw p f
      ]

  -- Listen followed by Close leaves the descriptors that were open before, whatever the system calls
  -- answer, when the acceptor had no socket and a new socket does not get the descriptor 0.
  pub listen-close :
      (a : Acceptor os) (ip : List ℕ) (port : ℕ)
      → a.sockfd ≡ none
      → ((fd : ℕ) → (os.socket a.system).0 ≡ some fd → 0 < fd)
      → d.opened (close os (listen os a ip port).1).system ≡ d.opened a.system
  unfolding erase
  listen-close a ip port e positive =
      close-Has answer (opened answer) (listen os a ip port).1
        (listen-Has answer (opened answer) a ip port (reopen-Has a e))
      ∙ go answer refl
    where
      answer : Option ℕ
      answer = (os.socket a.system).0

      opened : Option ℕ → List ℕ
      opened x = elim x [ none ↦ d.opened a.system | some fd ↦ fd ∷ d.opened a.system ]

      go : (x : Option ℕ) → (os.socket a.system).0 ≡ x → left (opened x) x ≡ d.opened a.system
      go none g = refl
      go (some fd) g = rw (lt→ltb 0 fd (positive fd g)) (rw (self fd) refl)
        where
          self : (n : ℕ) → (n == n) ≡ true
          self n = ground arith
