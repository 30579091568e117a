-- ===== src/Ipc/Transmitter/Delivery.antt =====
-- What is written to whom.
use new_cpp.Prelude.{
  ℕ, zero, suc, ◌≡◌, ◌≢◌, refl, sym, ap, subst, ◌∙◌, true, false, some, List, [], ◌∷◌, ◌++◌,
  if◌then◌else◌, length, map, append_assoc, append-nil, Bool-cases, inl, inr, arith, ==_iff,
}
use new_cpp.Ipc.Sockets.{
  IpcSocket, remove_client_descriptor, IsDistinct, contains, erase, contains-append,
}
use new_cpp.Ipc.Transmitter.{
  Wire, Transmitter, find_socket, same_uri, clients_of, update_socket, send_data, send_one,
  send_each, inner_send_to_clients, send_loop, send_to_clients,
}

clients_of-update_socket :
    (i : ℕ) (f : IpcSocket → IpcSocket) (g : List ℕ → List ℕ) (ss : List IpcSocket)
    → ((s : IpcSocket) → (f s).clients ≡ g s.clients)
    → g [] ≡ []
    → clients_of i (update_socket i f ss) ≡ g (clients_of i ss)
clients_of-update_socket i f g [] h e = sym e
clients_of-update_socket zero f g (s ∷ ss) h e = h s
clients_of-update_socket (suc i) f g (s ∷ ss) h e = clients_of-update_socket i f g ss h e

-- The removal of a client, on the list of the clients.
abbrev dropped : ℕ → List ℕ → List ℕ
dropped fd xs = if contains fd xs then erase fd xs else xs

clients-remove_client_descriptor :
    (fd : ℕ) (s : IpcSocket) → (remove_client_descriptor fd s).clients ≡ dropped fd s.clients
unfolding remove_client_descriptor
clients-remove_client_descriptor fd s = elim (Bool-cases (contains fd s.clients)) [
  | inl e ↦ rw e
  | inr e ↦ rw e
]

erase-append :
    (fd : ℕ) (xs ys : List ℕ) → contains fd xs ≡ false → erase fd (xs ++ fd ∷ ys) ≡ xs ++ ys
unfolding erase contains
erase-append fd [] ys h = rw ((==_iff fd fd).1 refl)
erase-append fd (x ∷ xs) ys h = ground (arith, erase-append fd xs ys)

contains-middle : (fd : ℕ) (xs ys : List ℕ) → contains fd (xs ++ fd ∷ ys) ≡ true
unfolding contains
contains-middle fd [] ys = ground arith
contains-middle fd (x ∷ xs) ys = ground (arith, contains-middle fd xs ys)

IsDistinct-middle :
    (fd : ℕ) (xs ys : List ℕ)
    → IsDistinct (xs ++ fd ∷ ys)
    → (contains fd xs ≡ false) × IsDistinct (xs ++ ys)
unfolding contains
IsDistinct-middle fd [] ys d = (refl, d.1)
IsDistinct-middle fd (x ∷ xs) ys d =
    let (absent, rest) = IsDistinct-middle fd xs ys d.1 in
    let whole = contains-append x xs (fd ∷ ys) in
    let parts = contains-append x xs ys in
    (ground (arith, d.0, whole, absent), (ground (arith, d.0, whole, parts), rest))

-- A client that is dropped out of the middle.
dropped-middle :
    (fd : ℕ) (xs ys : List ℕ) → contains fd xs ≡ false → dropped fd (xs ++ fd ∷ ys) ≡ xs ++ ys
dropped-middle fd xs ys h = rw (contains-middle fd xs ys) (erase-append fd xs ys h)

dropped-nil : (fd : ℕ) → dropped fd [] ≡ []
unfolding contains
dropped-nil fd = refl

-- No socket of the list has the URI.
abbrev pub Lacks : List ℕ → List IpcSocket → Type 0
Lacks uri [] = Unit {0}
Lacks uri (s ∷ ss) = (s.socket_uri ≢ uri) × Lacks uri ss

same_uri-same : (a : List ℕ) → same_uri a a ≡ true
unfolding same_uri
same_uri-same [] = refl
same_uri-same (x ∷ xs) = rw ((==_iff x x).1 refl, same_uri-same xs)

same_uri-equal : (a b : List ℕ) → same_uri a b ≡ true → a ≡ b
unfolding same_uri
same_uri-equal [] [] h = refl
same_uri-equal [] (y ∷ ys) h = cc
same_uri-equal (x ∷ xs) [] h = cc
same_uri-equal (x ∷ xs) (y ∷ ys) h =
    let head : x ≡ y = ground arith in
    let tail : xs ≡ ys = same_uri-equal xs ys (ground arith) in cc

find_socket-first :
    (uri : List ℕ) (front back : List IpcSocket) (s : IpcSocket)
    → Lacks uri front
    → s.socket_uri ≡ uri
    → find_socket uri (front ++ s ∷ back) ≡ some (length front)
unfolding find_socket
find_socket-first uri [] back s lacks named = rw (named, same_uri-same uri)
find_socket-first uri (f ∷ front) back s lacks named =
    elim (Bool-cases (same_uri f.socket_uri uri)) [
      | inl e ↦ absurd (lacks.0 (same_uri-equal f.socket_uri uri e))
      | inr e ↦ rw (e, find_socket-first uri front back s lacks.1 named)
    ]

clients_of-middle :
    (front back : List IpcSocket) (s : IpcSocket)
    → clients_of (length front) (front ++ s ∷ back) ≡ s.clients
clients_of-middle [] back s = refl
clients_of-middle (f ∷ front) back s = clients_of-middle front back s

module _ (wire : Wire) where
  open wire use {World, write}

  -- The clients that bytes reaches when it is written to them in order; an account of `write` only.
  abbrev pub reached : List ℕ → List ℕ → World → List ℕ
  reached bytes [] w = []
  reached bytes (fd ∷ fds) w =
      let (sent, w_1) = write fd bytes w in
      let rest = reached bytes fds w_1 in if sent then fd ∷ rest else rest

  send_one-queue :
      (i : ℕ) (bytes : List ℕ) (fd : ℕ) (t : Transmitter World)
      → ((send_one wire i bytes fd t).writes ≡ t.writes ++ (fd, bytes) ∷ [])
        × ((send_one wire i bytes fd t).list_of_data ≡ t.list_of_data)
  unfolding send_one
  send_one-queue i bytes fd t = elim (Bool-cases (write fd bytes t.world).0) [
    | inl e ↦ (rw e, rw e)
    | inr e ↦ (rw e, rw e)
  ]

  send_each-queue :
      (i : ℕ) (bytes fds : List ℕ) (t : Transmitter World)
      → ((send_each wire i bytes fds t).writes ≡ t.writes ++ map (λ fd. (fd, bytes)) fds)
        × ((send_each wire i bytes fds t).list_of_data ≡ t.list_of_data)
  unfolding send_each
  send_each-queue i bytes [] t = (sym (append-nil t.writes), refl)
  send_each-queue i bytes (fd ∷ fds) t =
      let (one, same) = send_one-queue i bytes fd t in
      let (more, still) = send_each-queue i bytes fds (send_one wire i bytes fd t) in
      (
        more
            ∙ ap (λ l. l ++ map (λ k. (k, bytes)) fds) one
            ∙ append_assoc t.writes ((fd, bytes) ∷ []) (map (λ k. (k, bytes)) fds),
        still ∙ same,
      )

  send_one-sent :
      (i : ℕ) (bytes : List ℕ) (fd : ℕ) (t : Transmitter World)
      → (write fd bytes t.world).0 ≡ true
      → ((send_one wire i bytes fd t).sockets ≡ t.sockets)
        × ((send_one wire i bytes fd t).world ≡ (write fd bytes t.world).1)
  unfolding send_one
  send_one-sent i bytes fd t e = (rw e, rw e)

  send_one-failed :
      (i : ℕ) (bytes : List ℕ) (fd : ℕ) (t : Transmitter World)
      → (write fd bytes t.world).0 ≡ false
      → (clients_of i (send_one wire i bytes fd t).sockets ≡ dropped fd (clients_of i t.sockets))
        × ((send_one wire i bytes fd t).world ≡ (write fd bytes t.world).1)
  unfolding send_one
  send_one-failed i bytes fd t e =
      let changed =
        clients_of-update_socket i (remove_client_descriptor fd) (dropped fd) t.sockets
          (clients-remove_client_descriptor fd) (dropped-nil fd) in
      (rw e changed, rw e)

  -- The clients while the data is written: those that were reached, and those to come.
  send_each-clients :
      (i : ℕ) (bytes front fds : List ℕ) (t : Transmitter World)
      → IsDistinct (front ++ fds)
      → clients_of i t.sockets ≡ front ++ fds
      → clients_of i (send_each wire i bytes fds t).sockets ≡ front ++ reached bytes fds t.world
  unfolding send_each
  send_each-clients i bytes front [] t d h = h
  send_each-clients i bytes front (fd ∷ fds) t d h = elim (Bool-cases (write fd bytes t.world).0) [
    | inl e ↦
        let (same, w) = send_one-sent i bytes fd t e in
        let split = append_assoc front (fd ∷ []) fds in
        let next =
          send_each-clients i bytes (front ++ fd ∷ []) fds (send_one wire i bytes fd t)
            (subst IsDistinct (sym split) d) (ap (clients_of i) same ∙ h ∙ sym split) in
        rw (e, next, w, append_assoc front (fd ∷ []) (reached bytes fds (write fd bytes t.world).1))
    | inr e ↦
        let (changed, w) = send_one-failed i bytes fd t e in
        let (absent, distinct) = IsDistinct-middle fd front fds d in
        let next =
          send_each-clients i bytes front fds (send_one wire i bytes fd t) distinct
            (changed ∙ ap (dropped fd) h ∙ dropped-middle fd front fds absent) in
        rw (e, next, w)
  ]

  inner_send_to_clients-queue :
      (i : ℕ) (bytes : List ℕ) (t : Transmitter World)
      → (inner_send_to_clients wire (i, bytes) t).list_of_data ≡ t.list_of_data
  unfolding inner_send_to_clients
  inner_send_to_clients-queue i bytes t = (send_each-queue i bytes (clients_of i t.sockets) t).1

  send_loop-drained :
      (n : ℕ) (t : Transmitter World) (queue : List (ℕ × List ℕ))
      → t.list_of_data ≡ queue
      → length queue ≡ n
      → (send_loop wire n t).list_of_data ≡ []
  unfolding send_loop
  send_loop-drained zero t [] e h = e
  send_loop-drained zero t (p ∷ ps) e h = absurd (omega arith)
  send_loop-drained (suc n) t [] e h = absurd (omega arith)
  send_loop-drained (suc n) t ((i, bytes) ∷ ps) e h =
      let popped = record t { list_of_data = ps } in
      let t_1 = inner_send_to_clients wire (i, bytes) popped in
      let next =
        send_loop-drained n t_1 ps (inner_send_to_clients-queue i bytes popped) (omega arith) in
      rw e next

  -- The sending of data for the socket `s` in place `i` of a transmitter whose queue is empty.
  pub record Delivered (i : ℕ) (s : IpcSocket) (uri bytes : List ℕ) (t : Transmitter World)
      : Type 0 where
    pub drained : (send_to_clients wire (send_data wire uri bytes t)).list_of_data ≡ []
    pub written :
        (send_to_clients wire (send_data wire uri bytes t)).writes
        ≡ t.writes ++ map (λ fd. (fd, bytes)) s.clients
    pub remaining :
        clients_of i (send_to_clients wire (send_data wire uri bytes t)).sockets
        ≡ reached bytes s.clients t.world

  send_to_clients-found :
      (i : ℕ) (uri bytes : List ℕ) (t : Transmitter World)
      → find_socket uri t.sockets ≡ some i
      → t.list_of_data ≡ []
      → send_to_clients wire (send_data wire uri bytes t)
        ≡ send_each wire i bytes (clients_of i t.sockets) (record t { list_of_data = [] })
  unfolding send_to_clients send_data send_loop inner_send_to_clients
  send_to_clients-found i uri bytes t found idle = rw (send_data, found, idle)

  -- Data for a URI that a socket has and none before it, on a transmitter whose queue is empty and
  -- while no client of that socket stands twice: after `sendData` and `sendToClients` the queue is
  -- empty again, the data was written once to every client of that socket, in their order, and to no
  -- other descriptor, and the clients that remain are exactly those for which `write` did not fail.
  pub send_to_clients-Delivered :
      (front back : List IpcSocket) (s : IpcSocket) (uri bytes : List ℕ) (t : Transmitter World)
      → t.sockets ≡ front ++ s ∷ back
      → Lacks uri front
      → s.socket_uri ≡ uri
      → t.list_of_data ≡ []
      → IsDistinct s.clients
      → Delivered (length front) s uri bytes t
  send_to_clients-Delivered front back s uri bytes t here lacks named idle distinct =
      let i = length front in
      let t_1 = record t { list_of_data = [] } in
      let found : find_socket uri t.sockets ≡ some i =
        ap (find_socket uri) here ∙ find_socket-first uri front back s lacks named in
      let whose : clients_of i t.sockets ≡ s.clients =
        ap (clients_of i) here ∙ clients_of-middle front back s in
      let run =
        send_to_clients-found i uri bytes t found idle
        ∙ ap (λ fds. send_each wire i bytes fds t_1) whose in
      let (written, drained) = send_each-queue i bytes s.clients t_1 in
      record {
        drained = ap (λ r. r.list_of_data) run ∙ drained;
        written = ap (λ r. r.writes) run ∙ written;
        remaining =
            ap (λ r. clients_of i r.sockets) run
            ∙ send_each-clients i bytes [] s.clients t_1 distinct whose;
      }

  -- The loop of `sendToClients` needs no more fuel than there are packets: it ends with an empty
  -- queue.
  send_to_clients-drained : (t : Transmitter World) → (send_to_clients wire t).list_of_data ≡ []
  unfolding send_to_clients
  send_to_clients-drained t = send_loop-drained (length t.list_of_data) t t.list_of_data refl refl
