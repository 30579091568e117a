-- ===== src/Ipc/Sockets.antt =====
-- MLCommon/inc/Network/Ipc/IIpcSocket.h: a listening socket with the descriptors of its clients.
-- `none` is the descriptor -1. `clientsMutex` makes each operation one step.
use new_cpp.Prelude.{
  ℕ, ◌≡◌, refl, ◌∙◌, Bool, false, not, ◌&&◌, ◌||◌, Option, List, [], ◌∷◌, ◌++◌, arith, ◌==◌,
  if◌then◌else◌,
}

pub record IpcSocket : Type 0 where
  pub socket_uri : List ℕ
  pub socket_name : List ℕ
  pub socket_path : List ℕ
  pub socket_descriptor : Option ℕ
  pub clients : List ℕ

-- `std::find`, as a test.
unfoldable pub contains : ℕ → List ℕ → Bool
contains a [] = false
contains a (x ∷ xs) = (x == a) || contains a xs

-- `erase` at the first place where the value stands.
unfoldable pub erase : ℕ → List ℕ → List ℕ
erase a [] = []
erase a (x ∷ xs) = if x == a then xs else x ∷ erase a xs

unfoldable pub add_client_descriptor : ℕ → IpcSocket → IpcSocket
add_client_descriptor fd s =
    if contains fd s.clients then s else record s { clients = s.clients ++ fd ∷ [] }

unfoldable pub remove_client_descriptor : ℕ → IpcSocket → IpcSocket
remove_client_descriptor fd s =
    if contains fd s.clients then record s { clients = erase fd s.clients } else s

unfoldable pub clear_clients_descriptor : IpcSocket → IpcSocket
clear_clients_descriptor s = record s { clients = [] }

unfoldable pub set_socket_descriptor : Option ℕ → IpcSocket → IpcSocket
set_socket_descriptor fd s = record s { socket_descriptor = fd }

-- No descriptor stands twice.
abbrev pub IsDistinct : List ℕ → Type 0
IsDistinct [] = Unit {0}
IsDistinct (x ∷ xs) = (contains x xs ≡ false) × IsDistinct xs

pub contains-append :
    (a : ℕ) (xs ys : List ℕ) → contains a (xs ++ ys) ≡ (contains a xs || contains a ys)
unfolding contains
contains-append a [] ys = refl
contains-append a (x ∷ xs) ys = ground (arith, contains-append a xs ys)

contains-snoc : (a x : ℕ) (xs : List ℕ) → contains a (xs ++ x ∷ []) ≡ (contains a xs || (x == a))
contains-snoc a x xs = contains-append a xs (x ∷ []) ∙ unfold contains in ground arith

pub IsDistinct-snoc :
    (x : ℕ) (xs : List ℕ) → IsDistinct xs → contains x xs ≡ false → IsDistinct (xs ++ x ∷ [])
unfolding contains
IsDistinct-snoc x [] h e = (refl, tt)
IsDistinct-snoc x (y ∷ ys) h e =
    (ground (arith, contains-snoc y x ys), IsDistinct-snoc x ys h.1 (ground arith))

pub contains-erase :
    (a b : ℕ) (xs : List ℕ)
    → IsDistinct xs
    → contains a (erase b xs) ≡ (not (b == a) && contains a xs)
unfolding contains erase
contains-erase a b [] h = ground arith
contains-erase a b (x ∷ xs) h = ground (arith, contains-erase a b xs h.1)

pub IsDistinct-erase : (b : ℕ) (xs : List ℕ) → IsDistinct xs → IsDistinct (erase b xs)
unfolding erase
IsDistinct-erase b [] h = tt
IsDistinct-erase b (x ∷ xs) h = ground (arith, contains-erase x b xs h.1, IsDistinct-erase b xs h.1)

-- The clients, after each operation, as a set.
pub record ActsAsSet (a b : ℕ) (s : IpcSocket) : Type 0 where
  pub added_distinct : IsDistinct (add_client_descriptor b s).clients
  pub added : contains a (add_client_descriptor b s).clients ≡ ((b == a) || contains a s.clients)
  pub removed_distinct : IsDistinct (remove_client_descriptor b s).clients
  pub removed :
      contains a (remove_client_descriptor b s).clients ≡ (not (b == a) && contains a s.clients)
  pub cleared : contains a (clear_clients_descriptor s).clients ≡ false

-- While no descriptor stands twice: adding a client, removing one and clearing keep the clients distinct, and act on them as on a
-- set: after the call a descriptor is a client exactly if it is the one added or was a client
-- before; exactly if it was one before and is not the one removed; never after clearing.
pub clients-ActsAsSet : (a b : ℕ) (s : IpcSocket) → IsDistinct s.clients → ActsAsSet a b s
unfolding add_client_descriptor remove_client_descriptor clear_clients_descriptor
clients-ActsAsSet a b s h = record {
  added_distinct = ground (arith, IsDistinct-snoc b s.clients h);
  added = ground (arith, contains-snoc a b s.clients);
  removed_distinct = ground (arith, IsDistinct-erase b s.clients h);
  removed = ground (arith, contains-erase a b s.clients h);
  cleared = unfold contains in refl;
}
