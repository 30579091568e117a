-- ===== src/Ipc/Transmitter.antt =====
-- MLCommon/src/Network/Ipc/IpcTransmitter.cpp and MLCommon/src/Network/Unix/IpcTransmitter.cpp: the
-- queue of data to send, and its sending to the clients of a socket. A socket of the shared vector
-- is its index; `dataMutex` makes each operation on the queue one step.
use new_cpp.Prelude.{
  ℕ, zero, suc, Bool, true, false, ◌&&◌, Option, none, some, List, [], ◌∷◌, ◌++◌, ◌==◌,
  if◌then◌else◌, length,
}
use mathlib.Core.Option
use new_cpp.Ipc.Sockets.{IpcSocket, remove_client_descriptor}
mod Delivery
mod Tests

-- `write`: is the result not negative?
pub record Wire : Type 1 where
  pub World : Type 0
  pub write : ℕ → List ℕ → World → Bool × World

-- `writes` records the calls of `write`, in order.
pub record Transmitter (W : Type 0) : Type 0 where
  pub sockets : List IpcSocket
  pub list_of_data : List (ℕ × List ℕ)
  pub world : W
  pub writes : List (ℕ × List ℕ)

unfoldable pub same_uri : List ℕ → List ℕ → Bool
same_uri [] [] = true
same_uri [] (y ∷ ys) = false
same_uri (x ∷ xs) [] = false
same_uri (x ∷ xs) (y ∷ ys) = (x == y) && same_uri xs ys

-- `find_if` in `sendData`.
unfoldable pub find_socket : List ℕ → List IpcSocket → Option ℕ
find_socket uri [] = none
find_socket uri (s ∷ ss) =
    let rest = find_socket uri ss in
    if same_uri s.socket_uri uri then some 0 else Option.map suc rest

-- `getCopyOfClientsDescriptor` of a socket, and a change of it.
abbrev pub clients_of : ℕ → List IpcSocket → List ℕ
clients_of i [] = []
clients_of zero (s ∷ ss) = s.clients
clients_of (suc i) (s ∷ ss) = clients_of i ss

abbrev pub update_socket : ℕ → (IpcSocket → IpcSocket) → List IpcSocket → List IpcSocket
update_socket i f [] = []
update_socket zero f (s ∷ ss) = f s ∷ ss
update_socket (suc i) f (s ∷ ss) = s ∷ update_socket i f ss

module _ (wire : Wire) where
  open wire use {World, write}

  -- `IpcTransmitter::sendData`.
  unfoldable pub send_data : List ℕ → List ℕ → Transmitter World → Transmitter World
  send_data uri bytes t = elim (find_socket uri t.sockets) [
    | none ↦ t
    | some i ↦ record t { list_of_data = t.list_of_data ++ (i, bytes) ∷ [] }
  ]

  -- The body of the loop of `innerSendToClients`.
  unfoldable pub send_one : ℕ → List ℕ → ℕ → Transmitter World → Transmitter World
  send_one i bytes fd t =
      let (sent, w) = write fd bytes t.world in
      let kept = record t { world = w; writes = t.writes ++ (fd, bytes) ∷ [] } in
      if sent
      then kept
      else record kept { sockets = update_socket i (remove_client_descriptor fd) t.sockets }

  unfoldable pub send_each : ℕ → List ℕ → List ℕ → Transmitter World → Transmitter World
  send_each i bytes [] t = t
  send_each i bytes (fd ∷ fds) t = send_each i bytes fds (send_one i bytes fd t)

  -- `IpcTransmitter::innerSendToClients`.
  unfoldable pub inner_send_to_clients : ℕ × List ℕ → Transmitter World → Transmitter World
  inner_send_to_clients (i, bytes) t = send_each i bytes (clients_of i t.sockets) t

  -- `IpcTransmitter::sendToClients` on fuel, with `getHead`.
  unfoldable pub send_loop : ℕ → Transmitter World → Transmitter World
  send_loop zero t = t
  send_loop (suc n) t = elim t.list_of_data [
    | [] ↦ t
    | p ∷ ps ↦ send_loop n (inner_send_to_clients p (record t { list_of_data = ps }))
  ]

  -- With fuel for every packet in the queue.
  unfoldable pub send_to_clients : Transmitter World → Transmitter World
  send_to_clients t = send_loop (length t.list_of_data) t
