-- ===== src/Ipc/Receiver/Collected.antt =====
-- IpcReceiverUnix.cpp: the set that `collectDescriptors` makes.
use new_cpp.Prelude.{
  ℕ, ◌≡◌, refl, sym, ap, ◌∙◌, inl, inr, false, ◌&&◌, ◌||◌, List, [], ◌∷◌, ◌++◌, arith, ◌==◌, ==_iff,
  Bool-cases,
}
use new_cpp.Ipc.Sockets.{IpcSocket, contains, IsDistinct, contains-append}
use new_cpp.Ipc.Receiver.{
  Managed, pair_before, insert_pair, insert_clients, collect_from, collect_descriptors,
}
use new_cpp.Ipc.Receiver.Pairs.{fds, all_clients}

contains-insert_pair :
    (x : ℕ) (p : Managed) (ps : List Managed)
    → contains x (fds (insert_pair p ps)) ≡ ((p.0 == x) || contains x (fds ps))
unfolding contains insert_pair pair_before
contains-insert_pair x p [] = refl
contains-insert_pair x (a, n) ((b, m) ∷ ps) =
    let rest = contains-insert_pair x (a, n) ps in
    elim (Bool-cases (pair_before (a, n) (b, m))) [
      | inl t ↦ rw t refl
      | inr t ↦ elim (Bool-cases (pair_before (b, m) (a, n))) [
        | inl h ↦ rw (t, h, rest) ground arith
        | inr h ↦ let same : a ≡ b = ground (arith, t, h) in rw (t, h, same) ground arith
      ]
    ]

insert_pair-IsDistinct :
    (p : Managed) (ps : List Managed)
    → contains p.0 (fds ps) ≡ false
    → IsDistinct (fds ps)
    → IsDistinct (fds (insert_pair p ps))
unfolding contains insert_pair
insert_pair-IsDistinct p [] e d = (refl, tt)
insert_pair-IsDistinct (a, n) ((b, m) ∷ ps) e d = elim (Bool-cases (pair_before (a, n) (b, m))) [
  | inl t ↦ rw t (e, d)
  | inr t ↦ elim (Bool-cases (pair_before (b, m) (a, n))) [
    | inl h ↦
        let absent : contains b (fds (insert_pair (a, n) ps)) ≡ false =
          ground (arith, contains-insert_pair b (a, n) ps, e, d.0) in
        rw (t, h) (absent, insert_pair-IsDistinct (a, n) ps (ground (arith, e)) d.1)
    | inr h ↦ rw (t, h) d
  ]
]

abbrev pub IsApart : List ℕ → List ℕ → Type 0
IsApart xs ys = (x : ℕ) → (contains x xs && contains x ys) ≡ false

-- One socket's clients are inserted.
contains-insert_clients :
    (x : ℕ) (name cs : List ℕ) (ps : List Managed)
    → contains x (fds (insert_clients name cs ps)) ≡ (contains x cs || contains x (fds ps))
unfolding contains insert_clients
contains-insert_clients x name [] ps = refl
contains-insert_clients x name (c ∷ cs) ps = ground (
  arith,
  contains-insert_clients x name cs (insert_pair (c, name) ps),
  contains-insert_pair x (c, name) ps,
)

insert_clients-IsDistinct :
    (name cs : List ℕ) (ps : List Managed)
    → IsDistinct cs
    → IsDistinct (fds ps)
    → IsApart cs (fds ps)
    → IsDistinct (fds (insert_clients name cs ps))
unfolding contains insert_clients
insert_clients-IsDistinct name [] ps d_1 d_2 apart = d_2
insert_clients-IsDistinct name (c ∷ cs) ps d_1 d_2 apart =
    let absent : contains c (fds ps) ≡ false = ground (arith, apart c) in
    let next : IsApart cs (fds (insert_pair (c, name) ps)) = λ x. elim (Bool-cases (c == x)) [
      | inl t ↦
          let here : contains x cs ≡ false =
            ap (λ y. contains y cs) (sym ((==_iff c x).0 t)) ∙ d_1.0 in
          ground (arith, here)
      | inr t ↦ ground (arith, apart x, contains-insert_pair x (c, name) ps, t)
    ] in
    insert_clients-IsDistinct name cs (insert_pair (c, name) ps) d_1.1
      (insert_pair-IsDistinct (c, name) ps absent d_2) next

-- The parts of a list without repetition.
pub IsDistinct-parts :
    (xs ys : List ℕ) → IsDistinct (xs ++ ys) → IsDistinct xs × IsDistinct ys × IsApart xs ys
unfolding contains
IsDistinct-parts [] ys d = (tt, d, (λ x. refl))
IsDistinct-parts (a ∷ xs) ys d =
    let (d_1, d_2, apart) = IsDistinct-parts xs ys d.1 in
    let split = contains-append a xs ys in
    (
      (ground (arith, split, d.0), d_1),
      d_2,
      (λ x. elim (Bool-cases (a == x)) [
        | inl t ↦
            let here : contains x ys ≡ false =
              ap (λ y. contains y ys) (sym ((==_iff a x).0 t)) ∙ ground (arith, split, d.0) in
            ground (arith, here)
        | inr t ↦ ground (arith, apart x, t)
      ]),
    )

contains-collect_from :
    (x : ℕ) (ss : List IpcSocket) (ps : List Managed)
    → contains x (fds (collect_from ss ps)) ≡ (contains x (all_clients ss) || contains x (fds ps))
unfolding contains collect_from
contains-collect_from x [] ps = refl
contains-collect_from x (s ∷ ss) ps = ground (
  arith,
  contains-collect_from x ss (insert_clients s.socket_name s.clients ps),
  contains-insert_clients x s.socket_name s.clients ps,
  contains-append x s.clients (all_clients ss),
)

collect_from-IsDistinct :
    (ss : List IpcSocket) (ps : List Managed)
    → IsDistinct (all_clients ss)
    → IsDistinct (fds ps)
    → IsApart (all_clients ss) (fds ps)
    → IsDistinct (fds (collect_from ss ps))
unfolding collect_from
collect_from-IsDistinct [] ps d_1 d_2 apart = d_2
collect_from-IsDistinct (s ∷ ss) ps d_1 d_2 apart =
    let (a, b, c) = IsDistinct-parts s.clients (all_clients ss) d_1 in
    let split : (x : ℕ)
        → contains x (all_clients (s ∷ ss))
          ≡ (contains x s.clients || contains x (all_clients ss)) =
      λ x. contains-append x s.clients (all_clients ss) in
    collect_from-IsDistinct ss (insert_clients s.socket_name s.clients ps) b
      (insert_clients-IsDistinct s.socket_name s.clients ps a d_2
        (λ x. ground (arith, apart x, split x)))
      (λ x.
        ground (arith, apart x, c x, split x, contains-insert_clients x s.socket_name s.clients ps))

pub contains-collect_descriptors :
    (x : ℕ) (ss : List IpcSocket)
    → contains x (fds (collect_descriptors ss)) ≡ contains x (all_clients ss)
unfolding collect_descriptors contains
contains-collect_descriptors x ss = ground (arith, contains-collect_from x ss [])

pub collect_descriptors-IsDistinct :
    (ss : List IpcSocket) → IsDistinct (all_clients ss) → IsDistinct (fds (collect_descriptors ss))
unfolding collect_descriptors contains
collect_descriptors-IsDistinct ss d = collect_from-IsDistinct ss [] d tt (λ x. ground arith)

pub IsDistinct-append :
    (xs ys : List ℕ) → IsDistinct xs → IsDistinct ys → IsApart xs ys → IsDistinct (xs ++ ys)
unfolding contains
IsDistinct-append [] ys d_1 d_2 apart = d_2
IsDistinct-append (a ∷ xs) ys d_1 d_2 apart =
    let split = contains-append a xs ys in
    (
      ground (arith, split, d_1.0, apart a),
      IsDistinct-append xs ys d_1.1 d_2 (λ x. ground (arith, apart x)),
    )
