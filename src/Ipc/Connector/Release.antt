-- ===== src/Ipc/Connector/Release.antt =====
-- IpcConnector.cpp and IpcConnectorUnix.cpp: what `Stop` gives back to the system.
use new_cpp.Prelude.{
  ℕ, zero, suc, ◌≡◌, refl, sym, ap, ◌∙◌, subst, if◌then◌else◌, Bool, true, false, not, ◌&&◌, Option,
  none, some, List, [], ◌∷◌, ◌++◌, arith,
}
use new_cpp.Ipc.Epoll.{Kernel, cleanup_epoll}
use new_cpp.Ipc.Sockets.{
  IpcSocket, contains, contains-append, clear_clients_descriptor, set_socket_descriptor,
}
use new_cpp.Ipc.Connector.{
  Calls, Connector, accept_loop, accept_rounds, close_clients, close_socket, close_all,
  stop_connector,
}

-- The descriptors in an option, and all those of the sockets and of their clients.
abbrev pub held : Option ℕ → List ℕ
held none = []
held (some fd) = fd ∷ []

abbrev pub held_by : List IpcSocket → List ℕ
held_by [] = []
held_by (s ∷ ss) = held s.socket_descriptor ++ (s.clients ++ held_by ss)

-- Sockets that have no descriptor and no clients.
abbrev pub IsReleased : List IpcSocket → Type 0
IsReleased [] = Unit {0}
IsReleased (s ∷ ss) = (s.socket_descriptor ≡ none) × (s.clients ≡ []) × IsReleased ss

-- The descriptors that are open: `close` closes the one it is given, and `shutdown` closes none.
pub record Closes (kernel : Kernel) (calls : Calls kernel.World) (is_open : kernel.World → ℕ → Bool)
    : Type 0 where
  pub close_closes :
      (fd : Option ℕ) (x : ℕ) (w : kernel.World)
      → is_open (kernel.close fd w) x ≡ (is_open w x && not (contains x (held fd)))
  pub shutdown_keeps :
      (fd : Option ℕ) (x : ℕ) (w : kernel.World) → is_open (calls.shutdown fd w) x ≡ is_open w x

-- The thread leaves the epoll descriptor as it is.
accept_rounds-polling :
    (kernel : Kernel) (calls : Calls kernel.World) (n : ℕ) (c : Connector) (w : kernel.World)
    → (accept_rounds kernel calls n c w).0.polling ≡ c.polling
unfolding accept_rounds accept_loop
accept_rounds-polling kernel calls zero c w = refl
accept_rounds-polling kernel calls (suc n) c w =
    accept_rounds-polling kernel calls n (accept_loop kernel calls c w).0
      (accept_loop kernel calls c w).1

module _ (kernel : Kernel) (calls : Calls kernel.World) (is_open : kernel.World → ℕ → Bool)
    (laws : Closes kernel calls is_open) where
  open kernel use {World, close}

  close_clients-open :
      (fds : List ℕ) (x : ℕ) (w : World)
      → is_open (close_clients kernel calls fds w) x ≡ (is_open w x && not (contains x fds))
  unfolding close_clients contains
  close_clients-open [] x w = ground arith
  close_clients-open (fd ∷ fds) x w = ground (
    arith,
    close_clients-open fds x (calls.shutdown (some fd) (close (some fd) w)),
    laws.shutdown_keeps (some fd) x (close (some fd) w),
    laws.close_closes (some fd) x w,
  )

  close_all-open :
      (ss : List IpcSocket) (x : ℕ) (w : World)
      → is_open (close_all kernel calls ss w).1 x ≡ (is_open w x && not (contains x (held_by ss)))
  unfolding close_all close_socket contains
  close_all-open [] x w = ground arith
  close_all-open (s ∷ ss) x w =
      let fd = s.socket_descriptor in
      let w_1 = calls.shutdown fd (close fd w) in
      let w_2 = close_clients kernel calls s.clients w_1 in
      ground (
        arith,
        close_all-open ss x w_2,
        close_clients-open s.clients x w_1,
        laws.shutdown_keeps fd x (close fd w),
        laws.close_closes fd x w,
        contains-append x (held fd) (s.clients ++ held_by ss),
        contains-append x s.clients (held_by ss),
      )

  close_all-IsReleased :
      (ss : List IpcSocket) (w : World) → IsReleased (close_all kernel calls ss w).0
  unfolding close_all close_socket clear_clients_descriptor set_socket_descriptor
  close_all-IsReleased [] w = tt
  close_all-IsReleased (s ∷ ss) w =
      (refl, refl, close_all-IsReleased ss (close_socket kernel calls s w).1)

  -- Once `Stop` of a connector that is ready has returned, after however many rounds its thread still
  -- made: the connector is not ready and has no epoll descriptor, its sockets have no descriptor and
  -- no clients, and the descriptors that are open are those that were open at the end of these rounds
  -- but for its epoll, its sockets and all of their clients, those included that the thread accepted
  -- while `Stop` waited for it.
  pub stop_connector-IsReleased :
      (rounds : ℕ) (c : Connector) (w : World) (x : ℕ)
      → c.is_ready ≡ true
      → let joined = accept_rounds kernel calls rounds c w in
        let after = stop_connector kernel calls rounds c w in
        (after.0.is_ready ≡ false)
        × (after.0.polling ≡ none)
        × IsReleased after.0.sockets
        × (is_open after.1 x
            ≡ (is_open joined.1 x && not (contains x (held_by joined.0.sockets ++ held c.polling))))
  unfolding stop_connector cleanup_epoll contains
  stop_connector-IsReleased rounds c w x h =
      let joined = accept_rounds kernel calls rounds c w in
      let w_2 = (close_all kernel calls joined.0.sockets joined.1).1 in
      let opened : is_open (close joined.0.polling w_2) x
          ≡ (is_open joined.1 x && not (contains x (held_by joined.0.sockets ++ held c.polling))) =
        ground (
          arith,
          laws.close_closes joined.0.polling x w_2,
          close_all-open joined.0.sockets x joined.1,
          accept_rounds-polling kernel calls rounds c w,
          contains-append x (held_by joined.0.sockets) (held c.polling),
        ) in
      let closed = (close_all kernel calls joined.0.sockets joined.1).0 in
      let stopped : Connector × World = (
        record joined.0 { sockets = closed; polling = none; is_ready = false },
        close joined.0.polling w_2,
      ) in
      let run : stop_connector kernel calls rounds c w ≡ stopped =
        ap (λ b. if b then stopped else (c, w)) h in
      (
        ap (λ r. r.0.is_ready) run,
        ap (λ r. r.0.polling) run,
        subst (λ r. IsReleased r.0.sockets) (sym run)
            (close_all-IsReleased joined.0.sockets joined.1),
        ap (λ r. is_open r.1 x) run ∙ opened,
      )
