-- ===== src/Ipc/Epoll.antt =====
-- MLCommon/inc/Network/Unix/EPoolWorker.h: an epoll descriptor and what is done with it. `none` is
-- the descriptor -1.
use new_cpp.Prelude.{ℕ, Bool, true, false, Option, none, some, List, [], ◌∷◌}

pub data Flag : Type 0 where
  epoll_in epoll_hup epoll_rdhup epoll_et : Flag

unfoldable pub has_flag : Flag → List Flag → Bool
has_flag f [] = false
has_flag epoll_in (epoll_in ∷ fs) = true
has_flag epoll_hup (epoll_hup ∷ fs) = true
has_flag epoll_rdhup (epoll_rdhup ∷ fs) = true
has_flag epoll_et (epoll_et ∷ fs) = true
has_flag f (_ ∷ fs) = has_flag f fs

-- An event; `target` is the data that was given with the descriptor.
pub record EpollEvent : Type 0 where
  pub events : List Flag
  pub target : ℕ

pub record EpollItem : Type 0 where
  pub item_events : List Flag
  pub file_descriptor : Option ℕ
  pub pointer : ℕ

-- The calls of the system. The Booleans say if the result is 0; `epoll_wait` gives the events, at
-- most as many as it is asked for, or `none` for a negative result.
pub record Kernel : Type 1 where
  pub World : Type 0
  pub epoll_create : ℕ → World → Option ℕ × World
  pub epoll_add : ℕ → ℕ → List Flag → ℕ → World → Bool × World
  pub epoll_delete : ℕ → ℕ → World → Bool × World
  pub epoll_wait : ℕ → ℕ → ℕ → World → Option (List EpollEvent) × World
  pub close : Option ℕ → World → World

module _ (kernel : Kernel) where
  open kernel use {World, epoll_create, epoll_add, epoll_delete, epoll_wait, close}

  -- `prepareEPoll` without descriptors.
  unfoldable pub prepare_epoll : Option ℕ → World → Bool × (Option ℕ × World)
  prepare_epoll (some p) w = (true, (some p, w))
  prepare_epoll none w =
      let (result, w_1) = epoll_create 1 w in
      elim result [ none ↦ (false, (none, w_1)) | some p ↦ (true, (some p, w_1)) ]

  -- `addToEPoll`; its overload with a pointer differs in the data.
  unfoldable pub add_to_epoll : Option ℕ → ℕ → ℕ → List Flag → World → Bool × World
  add_to_epoll none fd target events w = (false, w)
  add_to_epoll (some p) fd target events w = epoll_add p fd events target w

  unfoldable pub remove_from_epoll : Option ℕ → ℕ → World → Bool × World
  remove_from_epoll none fd w = (false, w)
  remove_from_epoll (some p) fd w = epoll_delete p fd w

  -- A descriptor of the loop in `prepareEPoll`; -1 is refused.
  unfoldable pub add_item : Option ℕ → EpollItem → World → Bool × World
  add_item p i w = elim i.file_descriptor [
    | none ↦ (false, w)
    | some fd ↦ add_to_epoll p fd i.pointer i.item_events w
  ]

  -- The loop of `prepareEPoll`, which ends at the first descriptor that is refused.
  unfoldable pub add_items : Option ℕ → List EpollItem → World → Bool × World
  add_items p [] w = (true, w)
  add_items p (i ∷ is) w =
      let (ok, w_1) = add_item p i w in elim ok [ false ↦ (false, w_1) | true ↦ add_items p is w_1 ]

  -- `prepareEPoll` with descriptors.
  unfoldable pub prepare_with : ℕ → List EpollItem → Option ℕ → World → Bool × (Option ℕ × World)
  prepare_with count items (some p) w = (true, (some p, w))
  prepare_with count items none w =
      let (result, w_1) = epoll_create count w in
      elim result [
        | none ↦ (false, (none, w_1))
        | some p ↦ let (ok, w_2) = add_items (some p) items w_1 in (ok, (some p, w_2))
      ]

  unfoldable pub cleanup_epoll : Option ℕ → World → Option ℕ × World
  cleanup_epoll p w = (none, close p w)

  -- `waitEPoll`, up to the handler: the events that it is called with, none after an error.
  unfoldable pub wait_epoll : ℕ → ℕ → Option ℕ → World → List EpollEvent × World
  wait_epoll max ms none w = ([], w)
  wait_epoll max ms (some p) w =
      let (result, w_1) = epoll_wait p max ms w in
      elim result [ none ↦ ([], w_1) | some es ↦ (es, w_1) ]
