-- ===== src/Converter/Bytes.antt =====
-- Where the bytes of a number stand in a vector, and what is read from them.
use new_cpp.Prelude.{
  ℕ, suc, ◌+◌, ◌/◌, ◌%◌, ◌^◌, ◌<◌, ◌≡◌, refl, ap, Option, none, some, List, [], ◌∷◌, ◌++◌, length,
  get_elem?, arith, ◌>>=◌,
}
use new_cpp.Converter.{set_byte, set_u32, get_u32, get_u64}

-- The bytes of a number.
unfoldable pub u32_bytes : ℕ → List ℕ
u32_bytes v = v / 2 ^ 24 % 256 ∷ v / 2 ^ 16 % 256 ∷ v / 2 ^ 8 % 256 ∷ v % 256 ∷ []

unfoldable pub u64_bytes : ℕ → List ℕ
u64_bytes v = u32_bytes (v / 2 ^ 32 % 2 ^ 32) ++ u32_bytes (v % 2 ^ 32)

-- The two steps of a chain that gave something.
bind-some :
    {A : Type 0} {B : Type 0} (o : Option A) (f : A → Option B) (y : B)
    → (o >>= f) ≡ some y
    → (x : A) × (o ≡ some x) × (f x ≡ some y)
bind-some none f y e = absurd cc
bind-some (some x) f y e = (x, refl, e)

-- Behind a beginning, only the distance to it matters.
pub set_byte-append :
    (a : List ℕ) (i v : ℕ) (d d' : List ℕ)
    → set_byte i v d ≡ some d'
    → set_byte (length a + i) v (a ++ d) ≡ some (a ++ d')
unfolding set_byte
set_byte-append [] i v d d' e = let z : 0 + i ≡ i = omega arith in rw (z, e)
set_byte-append (x ∷ a) i v d d' e =
    let z : suc (length a) + i ≡ suc (length a + i) = omega arith in
    rw (z, set_byte-append a i v d d' e)

pub get_elem?-append : (a d : List ℕ) (i : ℕ) → get_elem? (a ++ d) (length a + i) ≡ get_elem? d i
get_elem?-append [] d i = let z : 0 + i ≡ i = omega arith in rw z
get_elem?-append (x ∷ a) d i =
    let z : suc (length a) + i ≡ suc (length a + i) = omega arith in rw (z, get_elem?-append a d i)

+-assoc : (a b c : ℕ) → a + b + c ≡ a + (b + c)
+-assoc a b c = omega arith

pub set_u32-append :
    (a : List ℕ) (i v : ℕ) (d d' : List ℕ)
    → set_u32 i v d ≡ some d'
    → set_u32 (length a + i) v (a ++ d) ≡ some (a ++ d')
unfolding set_u32
set_u32-append a i v d d' e =
    let (d_1, e_1, f_1) = bind-some _ _ d' e in
    let (d_2, e_2, f_2) = bind-some _ _ d' f_1 in
    let (d_3, e_3, f_3) = bind-some _ _ d' f_2 in
    rw (
      set_byte-append a i (v / 2 ^ 24 % 256) d d_1 e_1,
      +-assoc (length a) i 1,
      set_byte-append a (i + 1) (v / 2 ^ 16 % 256) d_1 d_2 e_2,
      +-assoc (length a) i 2,
      set_byte-append a (i + 2) (v / 2 ^ 8 % 256) d_2 d_3 e_3,
      +-assoc (length a) i 3,
      set_byte-append a (i + 3) (v % 256) d_3 d' f_3,
    )

pub get_u32-append : (a d : List ℕ) (i : ℕ) → get_u32 (a ++ d) (length a + i) ≡ get_u32 d i
unfolding get_u32
get_u32-append a d i = rw (
  get_elem?-append a d i,
  +-assoc (length a) i 1,
  get_elem?-append a d (i + 1),
  +-assoc (length a) i 2,
  get_elem?-append a d (i + 2),
  +-assoc (length a) i 3,
  get_elem?-append a d (i + 3),
)

-- What was written as four or eight bytes is read back.
pub get_u32-u32_bytes : (v : ℕ) (d : List ℕ) → v < 2 ^ 32 → get_u32 (u32_bytes v ++ d) 0 ≡ some v
unfolding get_u32 u32_bytes
get_u32-u32_bytes v d h = ap some (omega (arith, h))

pub get_u64-u64_bytes : (v : ℕ) (d : List ℕ) → v < 2 ^ 64 → get_u64 (u64_bytes v ++ d) 0 ≡ some v
unfolding get_u64 get_u32 u64_bytes u32_bytes
get_u64-u64_bytes v d h = ap some (omega (arith, h))
