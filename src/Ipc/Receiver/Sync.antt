-- ===== src/Ipc/Receiver/Sync.antt =====
-- IpcReceiverUnix.cpp: what `ValidateEPoll` does to the descriptors that epoll watches.
use new_cpp.Prelude.{
  ℕ, ◌≡◌, refl, sym, ap, ◌∙◌, inl, inr, Bool, true, false, not, ◌&&◌, ◌||◌, some, List, [], ◌∷◌,
  arith, ◌==◌, Bool-cases,
}
use new_cpp.Ipc.Epoll.{Kernel, add_to_epoll, remove_from_epoll}
use new_cpp.Ipc.Sockets.{IpcSocket, contains, IsDistinct}
use new_cpp.Ipc.Receiver.{
  Managed, Receiver, receiver_events, has_pair, difference, collect_descriptors, remove_all,
  add_all, validate_epoll,
}
use new_cpp.Ipc.Receiver.Pairs.{
  fds, all_clients, has_pair-of_contains, contains-of_has_pair, has_pair-difference, same_name,
}
use new_cpp.Ipc.Receiver.Collected.{contains-collect_descriptors, collect_descriptors-IsDistinct}

-- What epoll does with the descriptors that it watches: after adding one, also that one, unless the
-- system has no room; after deleting one, that one no more.
pub record Watches (kernel : Kernel) (p : ℕ) (watched : kernel.World → ℕ → Bool) : Type 0 where
  pub add_watches :
      (fd x : ℕ) (w : kernel.World)
      → watched (kernel.epoll_add p fd receiver_events fd w).1 x ≡ ((fd == x) || watched w x)
  pub delete_watches :
      (fd x : ℕ) (w : kernel.World)
      → watched (kernel.epoll_delete p fd w).1 x ≡ (not (fd == x) && watched w x)

module _ (kernel : Kernel) (p : ℕ) (watched : kernel.World → ℕ → Bool) where
  open kernel use {World}

  -- The receiver has its epoll descriptor, no descriptor stands twice in its set, and epoll watches
  -- exactly the descriptors of the set.
  pub record IsInStep (r : Receiver) (w : World) : Type 0 where
    pub has_epoll : r.polling ≡ some p
    pub distinct : IsDistinct (fds r.managed_descriptors)
    pub in_step : (x : ℕ) → watched w x ≡ contains x (fds r.managed_descriptors)

-- A descriptor is watched if one of its pairs is in both sets, or is new.
watched_after :
    (x : ℕ) (ms cs : List Managed)
    → IsDistinct (fds ms)
    → (contains x (fds (difference cs ms))
        || (not (contains x (fds (difference ms cs))) && contains x (fds ms)))
      ≡ contains x (fds cs)
watched_after x ms cs d = elim (Bool-cases (contains x (fds cs))) [
  | inl t ↦
      let (n, h) = has_pair-of_contains x cs t in
      elim (Bool-cases (has_pair (x, n) ms)) [
        | inl k ↦
            let managed = contains-of_has_pair x n ms k in
            elim (Bool-cases (contains x (fds (difference ms cs)))) [
              | inl l ↦
                  let (m, q) = has_pair-of_contains x (difference ms cs) l in
                  let both = sym (has_pair-difference (x, m) ms cs) ∙ q in
                  let e = same_name x n m ms d k (ground (arith, both)) in
                  let there : has_pair (x, m) cs ≡ true =
                    ap (λ y. has_pair (x, y) cs) (sym e) ∙ h in
                  absurd (ground (arith, both, there))
              | inr l ↦ ground (arith, managed, l, t)
            ]
        | inr k ↦
            let new : has_pair (x, n) (difference cs ms) ≡ true =
              ground (arith, has_pair-difference (x, n) cs ms, h, k) in
            ground (arith, contains-of_has_pair x n (difference cs ms) new, t)
      ]
  | inr t ↦
      let not_new : contains x (fds (difference cs ms)) ≡ false =
        elim (Bool-cases (contains x (fds (difference cs ms)))) [
          | inl l ↦
              let (n, q) = has_pair-of_contains x (difference cs ms) l in
              let both = sym (has_pair-difference (x, n) cs ms) ∙ q in
              let there = contains-of_has_pair x n cs (ground (arith, both)) in
              absurd (ground (arith, there, t))
          | inr l ↦ l
        ] in
      elim (Bool-cases (contains x (fds ms))) [
        | inl k ↦
            let (n, q) = has_pair-of_contains x ms k in
            let absent : has_pair (x, n) cs ≡ false = elim (Bool-cases (has_pair (x, n) cs)) [
              | inl h ↦
                  absurd (let there = contains-of_has_pair x n cs h in ground (arith, there, t))
              | inr h ↦ h
            ] in
            let gone : has_pair (x, n) (difference ms cs) ≡ true =
              ground (arith, has_pair-difference (x, n) ms cs, q, absent) in
            ground (arith, contains-of_has_pair x n (difference ms cs) gone, not_new, t)
        | inr k ↦ ground (arith, k, not_new, t)
      ]
]

module _ (kernel : Kernel) (p : ℕ) (watched : kernel.World → ℕ → Bool)
    (laws : Watches kernel p watched) where
  open kernel use {World}

  remove_all-watched :
      (x : ℕ) (ps : List Managed) (w : World)
      → watched (remove_all kernel (some p) ps w) x ≡ (not (contains x (fds ps)) && watched w x)
  unfolding remove_all remove_from_epoll contains
  remove_all-watched x [] w = refl
  remove_all-watched x ((a, n) ∷ ps) w =
      ground
        (arith, remove_all-watched x ps (kernel.epoll_delete p a w).1, laws.delete_watches a x w)

  add_all-watched :
      (x : ℕ) (ps : List Managed) (w : World)
      → watched (add_all kernel (some p) ps w) x ≡ (contains x (fds ps) || watched w x)
  unfolding add_all add_to_epoll contains
  add_all-watched x [] w = refl
  add_all-watched x ((a, n) ∷ ps) w = ground (
    arith,
    add_all-watched x ps (kernel.epoll_add p a receiver_events a w).1,
    laws.add_watches a x w,
  )

  -- While no descriptor is a client twice, and epoll accepts what it is given: `ValidateEPoll` keeps
  -- the receiver's set in step with what epoll watches, and afterwards epoll watches exactly the
  -- clients of all sockets.
  pub validate_epoll-IsInStep :
      (sockets : List IpcSocket) (r : Receiver) (w : World)
      → IsInStep kernel p watched r w
      → IsDistinct (all_clients sockets)
      → let after = validate_epoll kernel sockets r w in
        IsInStep kernel p watched after.0 after.1
        × ((x : ℕ) → watched after.1 x ≡ contains x (all_clients sockets))
  unfolding validate_epoll
  validate_epoll-IsInStep sockets r w i d =
      let ms = r.managed_descriptors in
      let cs = collect_descriptors sockets in
      let w_1 = remove_all kernel (some p) (difference ms cs) w in
      let w_2 = add_all kernel (some p) (difference cs ms) w_1 in
      let watches : (x : ℕ) → watched w_2 x ≡ contains x (fds cs) = λ x. ground (
        arith,
        add_all-watched x (difference cs ms) w_1,
        remove_all-watched x (difference ms cs) w,
        i.in_step x,
        watched_after x ms cs i.distinct,
      ) in
      let r' : Receiver = record { managed_descriptors = cs; polling = some p } in
      let step : IsInStep kernel p watched r' w_2 = record {
        has_epoll = refl;
        distinct = collect_descriptors-IsDistinct sockets d;
        in_step = watches;
      } in
      let clients : (x : ℕ) → watched w_2 x ≡ contains x (all_clients sockets) =
        λ x. watches x ∙ contains-collect_descriptors x sockets in
      rw i.has_epoll (step, clients)
