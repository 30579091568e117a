-- ===== src/Ipc/Receiver/Purge.antt =====
-- IpcReceiverUnix.cpp: the clients that hung up.
use new_cpp.Prelude.{
  ℕ, zero, suc, ◌+◌, ◌≡◌, refl, sym, ap, subst, ◌∙◌, inl, inr, true, false, not, ◌&&◌, none, some,
  List, [], ◌∷◌, ◌++◌, arith, ◌==◌, ==_iff, Bool-cases, Option-cases,
}
use new_cpp.Ipc.Sockets.{
  IpcSocket, contains, erase, IsDistinct, contains-append, contains-erase, IsDistinct-erase,
  remove_client_descriptor,
}
use new_cpp.Ipc.Transmitter.{update_socket}
use new_cpp.Ipc.Receiver.{find_parent, purge_sockets}
use new_cpp.Ipc.Receiver.Pairs.{all_clients}
use new_cpp.Ipc.Receiver.Collected.{IsDistinct-parts, IsDistinct-append}

find_parent-here :
    (fd : ℕ) (s : IpcSocket) (ss : List IpcSocket)
    → contains fd s.clients ≡ true
    → find_parent fd (s ∷ ss) ≡ some 0
unfolding find_parent
find_parent-here fd s ss t = rw t refl

find_parent-below :
    (fd : ℕ) (s : IpcSocket) (ss : List IpcSocket) (j : ℕ)
    → contains fd s.clients ≡ false
    → find_parent fd ss ≡ some j
    → find_parent fd (s ∷ ss) ≡ some (j + 1)
unfolding find_parent
find_parent-below fd s ss j t e = rw (t, e) refl

find_parent-nowhere :
    (fd : ℕ) (s : IpcSocket) (ss : List IpcSocket)
    → contains fd s.clients ≡ false
    → find_parent fd ss ≡ none
    → find_parent fd (s ∷ ss) ≡ none
unfolding find_parent
find_parent-nowhere fd s ss t e = rw (t, e) refl

find_parent-zero :
    (fd : ℕ) (s : IpcSocket) (ss : List IpcSocket)
    → find_parent fd (s ∷ ss) ≡ some 0
    → contains fd s.clients ≡ true
find_parent-zero fd s ss e = elim (Bool-cases (contains fd s.clients)) [
  | inl t ↦ t
  | inr t ↦ elim (Option-cases (find_parent fd ss)) [
    | inl h ↦ absurd (let f = sym (find_parent-nowhere fd s ss t h) ∙ e in cc)
    | inr (j, h) ↦
        let f = sym (find_parent-below fd s ss j t h) ∙ e in
        let g : j + 1 ≡ 0 = cc in absurd (omega (arith, g))
  ]
]

find_parent-suc :
    (fd : ℕ) (s : IpcSocket) (ss : List IpcSocket) (i : ℕ)
    → find_parent fd (s ∷ ss) ≡ some (suc i)
    → (contains fd s.clients ≡ false) × (find_parent fd ss ≡ some i)
find_parent-suc fd s ss i e = elim (Bool-cases (contains fd s.clients)) [
  | inl t ↦
      let f = sym (find_parent-here fd s ss t) ∙ e in
      let g : 0 ≡ suc i = cc in absurd (omega (arith, g))
  | inr t ↦ elim (Option-cases (find_parent fd ss)) [
    | inl h ↦ absurd (let f = sym (find_parent-nowhere fd s ss t h) ∙ e in cc)
    | inr (j, h) ↦
        let f = sym (find_parent-below fd s ss j t h) ∙ e in
        let g : j + 1 ≡ suc i = cc in let k : j ≡ i = omega (arith, g) in (t, h ∙ ap some k)
  ]
]

find_parent-none :
    (fd : ℕ) (ss : List IpcSocket) → find_parent fd ss ≡ none → contains fd (all_clients ss) ≡ false
unfolding find_parent contains
find_parent-none fd [] e = refl
find_parent-none fd (s ∷ ss) e = elim (Bool-cases (contains fd s.clients)) [
  | inl t ↦ absurd (let f = sym (find_parent-here fd s ss t) ∙ e in cc)
  | inr t ↦ elim (Option-cases (find_parent fd ss)) [
    | inl h ↦
        ground (arith, contains-append fd s.clients (all_clients ss), find_parent-none fd ss h, t)
    | inr (j, h) ↦ absurd (let f = sym (find_parent-below fd s ss j t h) ∙ e in cc)
  ]
]

-- The clients of all sockets without one.
removed :
    (fd : ℕ) (ss : List IpcSocket) (i : ℕ)
    → IsDistinct (all_clients ss)
    → find_parent fd ss ≡ some i
    → let ss' = update_socket i (remove_client_descriptor fd) ss in
      IsDistinct (all_clients ss')
      × ((x : ℕ) → contains x (all_clients ss') ≡ (not (fd == x) && contains x (all_clients ss)))
unfolding remove_client_descriptor
removed fd [] i d e = absurd (let f : none ≡ some i = unfold find_parent in e in cc)
removed fd (s ∷ ss) zero d e =
    let (d_1, d_2, apart) = IsDistinct-parts s.clients (all_clients ss) d in
    let t = find_parent-zero fd s ss e in
    let gone : (x : ℕ) → contains x (erase fd s.clients) ≡ (not (fd == x) && contains x s.clients) =
      λ x. contains-erase x fd s.clients d_1 in
    let kept =
      IsDistinct-append (erase fd s.clients) (all_clients ss) (IsDistinct-erase fd s.clients d_1)
        d_2 (λ x. ground (arith, gone x, apart x)) in
    let content : (x : ℕ)
        → contains x (erase fd s.clients ++ all_clients ss)
          ≡ (not (fd == x) && contains x (s.clients ++ all_clients ss)) =
      λ x. elim (Bool-cases (fd == x)) [
        | inl q ↦
            let e_x = (==_iff fd x).0 q in
            let here : contains x s.clients ≡ true = ap (λ y. contains y s.clients) (sym e_x) ∙ t in
            ground (
              arith,
              here,
              q,
              gone x,
              apart x,
              contains-append x (erase fd s.clients) (all_clients ss),
            )
        | inr q ↦ ground (
          arith,
          q,
          gone x,
          contains-append x (erase fd s.clients) (all_clients ss),
          contains-append x s.clients (all_clients ss),
        )
      ] in
    rw t (kept, content)
removed fd (s ∷ ss) (suc i) d e =
    let (d_1, d_2, apart) = IsDistinct-parts s.clients (all_clients ss) d in
    let (t, h) = find_parent-suc fd s ss i e in
    let (kept, content) = removed fd ss i d_2 h in
    let rest = all_clients (update_socket i (remove_client_descriptor fd) ss) in
    (
      IsDistinct-append s.clients rest d_1 kept (λ x. ground (arith, apart x, content x)),
      (λ x. elim (Bool-cases (fd == x)) [
        | inl q ↦
            let absent : contains x s.clients ≡ false =
              ap (λ y. contains y s.clients) (sym ((==_iff fd x).0 q)) ∙ t in
            ground (arith, absent, q, content x, contains-append x s.clients rest)
        | inr q ↦ ground (
          arith,
          q,
          content x,
          contains-append x s.clients rest,
          contains-append x s.clients (all_clients ss),
        )
      ]),
    )

-- The second sockets have the clients of the first but for some, and none twice.
abbrev pub IsPurged : List ℕ → List IpcSocket → List IpcSocket → Type 0
IsPurged fds ss ss' =
    IsDistinct (all_clients ss')
    × ((x : ℕ)
        → contains x (all_clients ss') ≡ (contains x (all_clients ss) && not (contains x fds)))

-- While no descriptor is a client twice: `purgeSockets` takes exactly the descriptors that hung up
-- out of the clients of the sockets, and no descriptor is a client twice afterwards.
pub purge_sockets-clients :
    (fds : List ℕ) (ss : List IpcSocket)
    → IsDistinct (all_clients ss)
    → IsPurged fds ss (purge_sockets fds ss)
unfolding purge_sockets contains
purge_sockets-clients [] ss d = (d, (λ x. ground arith))
purge_sockets-clients (fd ∷ fds) ss d = elim (Option-cases (find_parent fd ss)) [
  | inl e ↦
      let (kept, content) = purge_sockets-clients fds ss d in
      let absent = find_parent-none fd ss e in
      let run : purge_sockets (fd ∷ fds) ss ≡ purge_sockets fds ss = rw (purge_sockets, e) refl in
      subst (IsPurged (fd ∷ fds) ss) (sym run) (
        kept,
        (λ x. elim (Bool-cases (fd == x)) [
          | inl q ↦
              let not_there : contains x (all_clients ss) ≡ false =
                ap (λ y. contains y (all_clients ss)) (sym ((==_iff fd x).0 q)) ∙ absent in
              ground (arith, content x, not_there)
          | inr q ↦ ground (arith, content x, q)
        ]),
      )
  | inr (i, e) ↦
      let (d', without) = removed fd ss i d e in
      let ss' = update_socket i (remove_client_descriptor fd) ss in
      let (kept, content) = purge_sockets-clients fds ss' d' in
      let run : purge_sockets (fd ∷ fds) ss ≡ purge_sockets fds ss' = rw (purge_sockets, e) refl in
      subst (IsPurged (fd ∷ fds) ss) (sym run) (kept, (λ x. ground (arith, content x, without x)))
]
