-- ===== src/Net/TcpConnection/Watch.antt =====
-- What a connection of Net/TcpConnection.cpp watches, and how `Close` and the end of `HandleWrite` keep
-- it so.
use cloud_assitant.Prelude.{
  ℕ, ◌+◌, ◌≡◌, refl, sym, ap, ◌∙◌, subst, ◌⊎◌, inl, inr, List, [], ◌∷◌, Option, none, some, arith,
  ◌||◌, Bool, true, false, ◌==◌, if◌then◌else◌, Bool-cases,
}
use cloud_assitant.Net.BufferReader.{IoResult, count, failed}
use cloud_assitant.Net.BufferWriter.{BufferWriter, is_empty}
use cloud_assitant.Net.BufferWriter
use cloud_assitant.Net.Channel.{
  event_in, event_out, has_bit, clear_bit, set_bit, Channel, Operation, ctl_mod, ctl_add, erase,
  enable_reading, Control, TaskScheduler, contains, update_channel, update, is_none_event,
  is_writing, enable_writing, disable_writing, remove_channel,
}
use cloud_assitant.Net.TcpConnection.{TcpConnection, init, close, watch, after_send, update_other}

-- The events that a connection with these pending packets is to watch.
abbrev pub wanted : BufferWriter → ℕ
wanted b = if is_empty b then event_in else event_in + event_out

-- The newest call of `epoll_ctl` for a descriptor.
abbrev pub newest : ℕ → List Control → Option Control
newest fd [] = none
newest fd (k ∷ ks) = if k.fd == fd then some k else newest fd ks

-- The newest call of `epoll_ctl` for the descriptor of the channel was with its events.
abbrev pub IsTold : TaskScheduler → Channel → Type 0
IsTold s ch =
    (op : Operation) × (newest ch.sockfd s.controls
      ≡ some (record { operation = op; fd = ch.sockfd; events = ch.events }))

-- What holds of a connection between two of its calls, but for the events that it watches.
abbrev pub Loose : TcpConnection → Type 0
Loose c =
    ((c.channel.events ≡ 1) ⊎ (c.channel.events ≡ 5))
    × (c.closings ≡ (if c.is_closed then 1 else 0))
    × (contains c.channel.sockfd c.scheduler.channels ≡ true)
    × IsTold c.scheduler c.channel

-- An open connection watches for writing just as long as bytes wait, the scheduler has been told so,
-- and the callbacks of `Close` have run once if it is closed, and never before.
abbrev pub Keeps : TcpConnection → Type 0
Keeps c = Loose c × (c.is_closed ≡ false → c.channel.events ≡ wanted c.write_buffer)

update_channel-known :
    (s : TaskScheduler) (ch : Channel)
    → contains ch.sockfd s.channels ≡ true
    → (ch.events == 0) ≡ false
    → update_channel s ch ≡ record s {
      controls = record { operation = ctl_mod; fd = ch.sockfd; events = ch.events } ∷ s.controls;
    }
unfolding update_channel update is_none_event
update_channel-known s ch known some_events = rw known (rw some_events refl)

close-open :
    (c : TcpConnection)
    → c.is_closed ≡ false
    → close c ≡ record c { is_closed = true; closings = c.closings + 1 }
unfolding close remove_channel
close-open c opened = else_is c.is_closed opened
  where
    else_is :
        (b : Bool)
        → b ≡ false
        → (if b then c else record c { is_closed = true; closings = c.closings + 1 })
          ≡ record c { is_closed = true; closings = c.closings + 1 }
    else_is true e = cc
    else_is false e = refl

close-again : (c : TcpConnection) → c.is_closed ≡ true → close c ≡ c
unfolding close
close-again c closed =
    ap (λ b. if b then c else record c { is_closed = true; closings = c.closings + 1 }) closed

==_self : (n : ℕ) → (n == n) ≡ true
==_self n = ground arith

absurd_closed : (c : TcpConnection) → {A : Type 0} → c.is_closed ≡ true → c.is_closed ≡ false → A
absurd_closed c closed opened = cc

pub close-Keeps : (c : TcpConnection) → Loose c → Keeps (close c)
close-Keeps c (bits, once, known, told) = elim (Bool-cases c.is_closed) [
  | inl closed ↦
      subst Keeps (sym (close-again c closed)) ((bits, once, known, told), absurd_closed c closed)
  | inr opened ↦
      subst Keeps (sym (close-open c opened))
        ((bits, ap (λ n. n + 1) (once ∙ ap (λ b. if b then 1 else 0) opened), known, told), λ e. cc)
]

-- The three results of `watch`.
abbrev pub watch_as : TcpConnection → Channel → TcpConnection
watch_as c ch = record c { channel = ch; scheduler = update_channel c.scheduler ch }

told_now :
    (c : TcpConnection) (ch : Channel)
    → ch.sockfd ≡ c.channel.sockfd
    → (ch.events ≡ 1) ⊎ (ch.events ≡ 5)
    → c.is_closed ≡ false
    → Loose c
    → ch.events ≡ wanted c.write_buffer
    → Keeps (watch_as c ch)
told_now c ch same bits opened (_, once, known, _) e =
    subst (λ s. Keeps (record c { channel = ch; scheduler = s }))
      (sym (update_channel-known c.scheduler ch (rw same known) (some_events bits)))
      ((bits, once, rw same known, (ctl_mod, rw (==_self ch.sockfd) refl)), λ _. e)
  where
    some_events : (ch.events ≡ 1) ⊎ (ch.events ≡ 5) → (ch.events == 0) ≡ false
    some_events (inl one) = rw one refl
    some_events (inr five) = rw five refl

abbrev pub watched : TcpConnection → Bool → Bool → TcpConnection
watched c true true = watch_as c (disable_writing c.channel)
watched c false false = watch_as c (enable_writing c.channel)
watched c _ _ = c

pub watch-watched :
    (c : TcpConnection) (a b : Bool)
    → is_empty c.write_buffer ≡ a
    → is_writing c.channel ≡ b
    → watch c ≡ watched c a b
unfolding watch
watch-watched c true true e f = rw e (rw f refl)
watch-watched c true false e f = rw e (rw f refl)
watch-watched c false true e f = rw e (rw f refl)
watch-watched c false false e f = rw e (rw f refl)

watch-Keeps : (c : TcpConnection) → c.is_closed ≡ false → Loose c → Keeps (watch c)
unfolding is_writing enable_writing disable_writing
watch-Keeps c opened (inl e, once, known, told) = elim (Bool-cases (is_empty c.write_buffer)) [
  | inl none_left ↦
      subst Keeps (sym (watch-watched c true false none_left (ap (λ n. has_bit n event_out) e)))
        ((inl e, once, known, told), λ _. e ∙ sym (to_watch true none_left))
  | inr some_left ↦
      subst Keeps (sym (watch-watched c false false some_left (ap (λ n. has_bit n event_out) e))) (
        told_now c (enable_writing c.channel) refl (inr (ap (λ n. set_bit n event_out) e)) opened
          (inl e, once, known, told)
          (ap (λ n. set_bit n event_out) e ∙ sym (to_watch false some_left)))
]
  where
    to_watch :
        (b : Bool) → is_empty c.write_buffer ≡ b → wanted c.write_buffer ≡ (if b then 1 else 5)
    to_watch b h = ap (λ b. if b then 1 else 5) h
watch-Keeps c opened (inr e, once, known, told) = elim (Bool-cases (is_empty c.write_buffer)) [
  | inl none_left ↦
      subst Keeps (sym (watch-watched c true true none_left (ap (λ n. has_bit n event_out) e))) (
        told_now c (disable_writing c.channel) refl (inl (ap (λ n. clear_bit n event_out) e)) opened
          (inr e, once, known, told)
          (ap (λ n. clear_bit n event_out) e ∙ sym (to_watch true none_left)))
  | inr some_left ↦
      subst Keeps (sym (watch-watched c false true some_left (ap (λ n. has_bit n event_out) e)))
        ((inr e, once, known, told), λ _. e ∙ sym (to_watch false some_left))
]
  where
    to_watch :
        (b : Bool) → is_empty c.write_buffer ≡ b → wanted c.write_buffer ≡ (if b then 1 else 5)
    to_watch b h = ap (λ b. if b then 1 else 5) h

pub after_send-Keeps :
    (c : TcpConnection) (r : IoResult) → c.is_closed ≡ false → Loose c → Keeps (after_send c r)
unfolding after_send
after_send-Keeps c failed opened k = close-Keeps c k
after_send-Keeps c (count n) opened k = watch-Keeps c opened k

contains-erase :
    (fd k : ℕ) (ks : List ℕ)
    → (k == fd) ≡ false
    → contains fd ks ≡ true
    → contains fd (erase k ks) ≡ true
unfolding contains erase
contains-erase fd k [] n h = h
contains-erase fd k (j ∷ ks) n h = elim (Bool-cases (j == k)) [
  | inl e ↦ rw e (later (contains fd ks) (other j k fd e n) h)
  | inr e ↦ rw e (elim (Bool-cases (j == fd)) [
    | inl f ↦ rw f refl
    | inr f ↦ rw f (contains-erase fd k ks n (later (contains fd ks) f h))
  ])
]
  where
    other : (j k fd : ℕ) → (j == k) ≡ true → (k == fd) ≡ false → (j == fd) ≡ false
    other j k fd e n = ground (arith, e, n)

    later : (b : Bool) → (j == fd) ≡ false → (j == fd || b) ≡ true → b ≡ true
    later b f h = rw f at h

-- `UpdateChannel` of another descriptor leaves what the scheduler knows of this one.
update_channel-other :
    (s : TaskScheduler) (ch own : Channel)
    → (ch.sockfd == own.sockfd) ≡ false
    → contains own.sockfd s.channels ≡ true
    → IsTold s own
    → (contains own.sockfd (update_channel s ch).channels ≡ true) × IsTold (update_channel s ch) own
unfolding update_channel update contains
update_channel-other s ch own n known (op, told) =
    elim (Bool-cases (contains ch.sockfd s.channels)) [
      | inl e ↦ rw e (elim (Bool-cases (is_none_event ch)) [
        | inl f ↦ rw f (contains-erase own.sockfd ch.sockfd s.channels n known, (op, rw n told))
        | inr f ↦ rw f (known, (op, rw n told))
      ])
      | inr e ↦ rw e (elim (Bool-cases (is_none_event ch)) [
        | inl f ↦ rw f (known, (op, told))
        | inr f ↦ rw f (rw n known, (op, rw n told))
      ])
    ]

pub update_other-Keeps : (c : TcpConnection) (ch : Channel) → Keeps c → Keeps (update_other c ch)
unfolding update_other
update_other-Keeps c ch ((bits, once, known, told), watching) =
    elim (Bool-cases (ch.sockfd == c.channel.sockfd)) [
      | inl e ↦ rw e ((bits, once, known, told), watching)
      | inr e ↦ rw e (
          let (known', told') = update_channel-other c.scheduler ch c.channel e known told in
          ((bits, once, known', told'), watching))
    ]

-- A connection that has just been made.
pub init-Keeps : (fd : ℕ) (s : TaskScheduler) → Keeps (init fd s)
unfolding init enable_reading update_channel update is_none_event contains BufferWriter.init
    is_empty
init-Keeps fd s = elim (Bool-cases (contains fd s.channels)) [
  | inl e ↦ rw e ((inl refl, refl, e, (ctl_mod, rw (==_self fd) refl)), λ _. refl)
  | inr e ↦
      rw e ((inl refl, refl, rw (==_self fd) refl, (ctl_add, rw (==_self fd) refl)), λ _. refl)
]
