-- ===== src/Memory.antt =====
-- The memory that the C++ code works on: the bytes from a pointer to the end of its block, as a
-- list. `none` is an access outside the block, which C++ leaves undefined.
pub mod Laws
use test_server.Base.{
  ℕ, zero, suc, ◌+◌, ◌*◌, ◌/◌, ◌%◌, ◌<◌, List, [], ◌∷◌, Option, none, some, ◌==◌, if◌then◌else◌,
  drop, length,
}
use mathlib.Core.Option

infixl 5 ◌>>=◌
abbrev pub ◌>>=◌ {ℓ κ} : {A : Type ℓ} {B : Type κ} → Option A → (A → Option B) → Option B
none >>= f = none
some a >>= f = f a

-- A copy of `bytes` to the pointer: memcpy, and the assignment of a packed field.
unfoldable pub overwrite : List ℕ → List ℕ → Option (List ℕ)
overwrite mem [] = some mem
overwrite [] (b ∷ bytes) = none
overwrite (m ∷ mem) (b ∷ bytes) = Option.map (◌∷◌ b) (overwrite mem bytes)

-- The same `offset` bytes further on.
unfoldable pub store : ℕ → List ℕ → List ℕ → Option (List ℕ)
store zero mem bytes = overwrite mem bytes
store (suc offset) [] bytes = none
store (suc offset) (m ∷ mem) bytes = Option.map (◌∷◌ m) (store offset mem bytes)

-- A copy of `n` bytes from the pointer.
unfoldable pub fetch : ℕ → List ℕ → Option (List ℕ)
fetch zero mem = some []
fetch (suc n) [] = none
fetch (suc n) (m ∷ mem) = Option.map (◌∷◌ m) (fetch n mem)

-- The four bytes of a little-endian uint32_t or int.
abbrev pub put_u32 : ℕ → List ℕ
put_u32 v = (v % 256) ∷ (v / 256 % 256) ∷ (v / 65536 % 256) ∷ (v / 16777216 % 256) ∷ []

unfoldable pub get_u32 : List ℕ → Option ℕ
get_u32 (a ∷ b ∷ c ∷ d ∷ mem) = some (a + 256 * b + 65536 * c + 16777216 * d)
get_u32 _ = none

unfoldable pub load_u32 : ℕ → List ℕ → Option ℕ
load_u32 offset mem = get_u32 (drop offset mem)

-- The C string at the pointer, without its NUL; a block with no NUL is read past its end.
unfoldable pub c_string : List ℕ → Option (List ℕ)
c_string [] = none
c_string (b ∷ mem) = if b == 0 then some [] else Option.map (◌∷◌ b) (c_string mem)

-- What `c_str()` shows of a std::string to strlen, strcpy and printf.
unfoldable pub until_nul : List ℕ → List ℕ
until_nul [] = []
until_nul (b ∷ text) = if b == 0 then [] else b ∷ until_nul text

abbrev pub strlen : List ℕ → ℕ
strlen text = length (until_nul text)

-- A character of a C string.
abbrev pub IsText : ℕ → Type 0
IsText b = 0 < b
