-- ===== src/Tcp/Lifecycle.antt =====
-- How the call of `listen` on a socket ends.
use new_cpp.Prelude.{
  ℕ, ◌≡◌, refl, subst, Bool, true, false, Option, none, some, Bool-cases, inl, inr, ◌⊎◌,
}
use new_cpp.Tcp.{Net, Socket, close, listen_at, listen_created, listen_on}

module _ (net : Net) where
  open net use {World, socket, bind, listen, shutdown}

  -- The world after a descriptor, if there is one, was shut down.
  abbrev pub silenced : Option ℕ → World → World
  silenced none w = w
  silenced (some fd) w = shutdown fd w

  close-silenced :
      (d : Option ℕ) (w : World) → (close net (record { descriptor = d }, w)).1 ≡ silenced d w
  unfolding close
  close-silenced none w = refl
  close-silenced (some fd) w = refl

  -- A socket that listens: it was created, bound, and told to listen.
  pub record Listens (port count : ℕ) (created : Option ℕ × World) (r : Bool × (Socket × World))
      : Type 0 where
    pub fd : ℕ
    pub is_new : created.0 ≡ some fd
    pub bound : (bind fd port created.1).0 ≡ true
    pub listening : (listen fd count (bind fd port created.1).1).0 ≡ true
    pub held : r.1.0.descriptor ≡ some fd

  -- The call of the system that failed.
  abbrev pub Cause : ℕ → ℕ → Option ℕ × World → Type 0
  Cause port count created =
      (created.0 ≡ none)
      ⊎ ((fd : ℕ) × (created.0 ≡ some fd)
          × (((bind fd port created.1).0 ≡ false)
              ⊎ ((listen fd count (bind fd port created.1).1).0 ≡ false)))

  -- A call that failed: there is no descriptor, and one that was created was shut down at the end.
  pub record Fails (port count : ℕ) (created : Option ℕ × World) (r : Bool × (Socket × World))
      : Type 0 where
    pub cause : Cause port count created
    pub no_descriptor : r.1.0.descriptor ≡ none
    pub last : World
    pub silent : r.1.1 ≡ silenced created.0 last

  abbrev pub ListenEnds : ℕ → ℕ → Option ℕ × World → Bool × (Socket × World) → Type 0
  ListenEnds port count created r =
      ((r.0 ≡ true) × Listens port count created r) ⊎ ((r.0 ≡ false) × Fails port count created r)

  listen_at-ListenEnds :
      (fd port count : ℕ) (w : World)
      → ListenEnds port count (some fd, w) (listen_at net fd port count w)
  unfolding listen_at close
  listen_at-ListenEnds fd port count w =
      let (bound, w_1) = bind fd port w in
      elim (Bool-cases bound) [
        | inl e ↦ elim (Bool-cases (listen fd count w_1).0) [
          | inl f ↦
              rw (e, f)
                (inl
                  (refl, record { fd = fd; is_new = refl; bound = e; listening = f; held = refl }))
          | inr f ↦
              let why : Cause port count (some fd, w) = inr (fd, refl, inr f) in
              rw (e, f)
                (inr (
                  refl,
                  record {
                    cause = why;
                    no_descriptor = refl;
                    last = (listen fd count w_1).1;
                    silent = refl;
                  },
                ))
        ]
        | inr e ↦
            let why : Cause port count (some fd, w) = inr (fd, refl, inl e) in
            rw e
              (inr (refl, record { cause = why; no_descriptor = refl; last = w_1; silent = refl }))
      ]

  listen_created-ListenEnds :
      (port count : ℕ) (r : Option ℕ × World)
      → ListenEnds port count r (listen_created net port count r)
  unfolding listen_created close
  listen_created-ListenEnds port count (none, w) =
      inr (refl, record { cause = inl refl; no_descriptor = refl; last = w; silent = refl })
  listen_created-ListenEnds port count (some fd, w) = listen_at-ListenEnds fd port count w

  -- `listen` shuts the old descriptor of the socket down, if it has one, and creates a new one. Either
  -- that was created, bound and told to listen: then it returns true, and the socket has the new
  -- descriptor. Or one of these calls of the system failed: then it returns false, the socket has no
  -- descriptor, and the last thing done was to shut the new one down, if it was created.
  pub listen_on-ListenEnds :
      (port count : ℕ) (s : Socket) (w : World)
      → ListenEnds port count (socket (silenced s.descriptor w)) (listen_on net port count (s, w))
  unfolding listen_on
  listen_on-ListenEnds port count s w =
      subst (λ v. ListenEnds port count (socket v) (listen_on net port count (s, w)))
        (close-silenced s.descriptor w)
        (listen_created-ListenEnds port count (socket (close net (s, w)).1))
