-- ===== src/Tcp.antt =====
-- MLCommon/src/Network/Unix/unix_socket.cpp: a TCP socket. The descriptor -1 is `none`. A copy of a
-- socket has the same descriptor.
use new_cpp.Prelude.{
  ℕ, zero, suc, ◌+◌, Bool, true, false, Option, none, some, List, ltb, length, if◌then◌else◌,
}
mod Writing
mod Lifecycle
mod Tests

-- The calls of the system: `socket`, `bind` to a port, `listen`, `connect`, `accept`, `recv`, `send`
-- and `shutdown`; `none` and false are negative results, and that of `send` is the bytes it took.
pub record Net : Type 1 where
  pub World : Type 0
  pub socket : World → Option ℕ × World
  pub bind : ℕ → ℕ → World → Bool × World
  pub listen : ℕ → ℕ → World → Bool × World
  pub connect : ℕ → List ℕ → ℕ → World → Bool × World
  pub accept : ℕ → World → Option ℕ × World
  pub recv : ℕ → ℕ → World → Option (List ℕ) × World
  pub send : ℕ → List ℕ → World → Option ℕ × World
  pub shutdown : ℕ → World → World

pub record Socket : Type 0 where
  pub descriptor : Option ℕ

-- `writeData` ends with -1, with a number of bytes, or the fuel is spent.
pub data Written : Type 0 where
  refused no_fuel : Written
  wrote : ℕ → Written

-- `Socket::operator bool`.
unfoldable pub is_valid : Socket → Bool
is_valid s = elim s.descriptor [ none ↦ false | some fd ↦ true ]

module _ (net : Net) where
  open net use {World, socket, bind, listen, connect, accept, recv, send, shutdown}

  -- `Socket::close`.
  unfoldable pub close : Socket × World → Socket × World
  close (s, w) = elim s.descriptor [
    | none ↦ (s, w)
    | some fd ↦ (record s { descriptor = none }, shutdown fd w)
  ]

  -- `Socket::listen`, from `bind` on.
  unfoldable pub listen_at : ℕ → ℕ → ℕ → World → Bool × (Socket × World)
  listen_at fd port count w =
      let (bound, w_1) = bind fd port w in
      let (listening, w_2) = listen fd count w_1 in
      if bound
      then if listening
        then (true, (record { descriptor = some fd }, w_2))
        else (false, close (record { descriptor = some fd }, w_2))
      else (false, close (record { descriptor = some fd }, w_1))

  unfoldable pub listen_created : ℕ → ℕ → Option ℕ × World → Bool × (Socket × World)
  listen_created port count (none, w) = (false, close (record { descriptor = none }, w))
  listen_created port count (some fd, w) = listen_at fd port count w

  -- `Socket::listen`.
  unfoldable pub listen_on : ℕ → ℕ → Socket × World → Bool × (Socket × World)
  listen_on port count s = listen_created port count (socket (close s).1)

  unfoldable pub connect_created : List ℕ → ℕ → Option ℕ × World → Bool × (Socket × World)
  connect_created ip port (none, w) = (false, close (record { descriptor = none }, w))
  connect_created ip port (some fd, w) =
      let (connected, w_1) = connect fd ip port w in
      (connected, (record { descriptor = some fd }, w_1))

  -- `Socket::connectToHost`.
  unfoldable pub connect_to_host : List ℕ → ℕ → Socket × World → Bool × (Socket × World)
  connect_to_host ip port s = connect_created ip port (socket (close s).1)

  -- `Socket::waitForNewConnection`: the new socket.
  unfoldable pub wait_for_new_connection : Socket → World → Socket × World
  wait_for_new_connection s w = elim s.descriptor [
    | none ↦ (record { descriptor = none }, w)
    | some fd ↦ let (client, w_1) = accept fd w in (record { descriptor = client }, w_1)
  ]

  -- `Socket::readData`; `none` is -1.
  unfoldable pub read_data : ℕ → Socket → World → Option (List ℕ) × World
  read_data count s w = elim s.descriptor [ none ↦ (none, w) | some fd ↦ recv fd count w ]

  -- The loop of `Socket::writeData`: each round sends the buffer from its beginning.
  unfoldable pub write_loop : ℕ → ℕ → List ℕ → ℕ → World → Written × World
  write_loop zero fd buffer written w = (no_fuel, w)
  write_loop (suc n) fd buffer written w =
      let (taken, w_1) = send fd buffer w in
      elim taken [
        | none ↦ (refused, w_1)
        | some k ↦
            let rest = write_loop n fd buffer (written + k) w_1 in
            if ltb (written + k) (length buffer) then rest else (wrote (written + k), w_1)
      ]

  -- `Socket::writeData`, with fuel for as many rounds as there are bytes, and one.
  unfoldable pub write_data : List ℕ → Socket → World → Written × World
  write_data buffer s w = elim s.descriptor [
    | none ↦ (refused, w)
    | some fd ↦ write_loop (suc (length buffer)) fd buffer 0 w
  ]
