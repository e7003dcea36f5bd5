-- ===== src/Memory/Laws.antt =====
-- Laws of the accesses: what fits is done, what does not is refused.
use mathlib.Core.Option
use test_server.Base.{
  Option, ◌-◌, replicate, ℕ, zero, suc, ◌+◌, ◌^◌, ◌≤◌, ◌<◌, List, [], ◌∷◌, ◌++◌, none, some, ◌≡◌,
  refl, ap, arith, drop, length, length-drop, All, drop-length_append, subst, inl, inr, ◌==◌,
  Bool-cases, Option-cases,
}
use test_server.Memory.{
  ◌>>=◌, overwrite, store, fetch, put_u32, get_u32, load_u32, c_string, until_nul, strlen, IsText,
}

pub overwrite-append :
    (old new rest : List ℕ)
    → length old ≡ length new
    → overwrite (old ++ rest) new ≡ some (new ++ rest)
unfolding overwrite
overwrite-append [] [] rest h = refl
overwrite-append [] (b ∷ new) rest h = absurd (omega arith)
overwrite-append (m ∷ old) [] rest h = absurd (omega arith)
overwrite-append (m ∷ old) (b ∷ new) rest h = rw (overwrite-append old new rest (omega arith))

pub overwrite-short : (mem new : List ℕ) → length mem < length new → overwrite mem new ≡ none
unfolding overwrite
overwrite-short mem [] h = absurd (omega arith)
overwrite-short [] (b ∷ new) h = refl
overwrite-short (m ∷ mem) (b ∷ new) h = rw (overwrite-short mem new (omega arith))

pub store-append :
    (front old new rest : List ℕ)
    → length old ≡ length new
    → store (length front) (front ++ (old ++ rest)) new ≡ some (front ++ (new ++ rest))
unfolding store
store-append [] old new rest h = overwrite-append old new rest h
store-append (m ∷ front) old new rest h = rw (store-append front old new rest h)

pub store-short :
    (offset : ℕ) (mem new : List ℕ) → length mem < offset + length new → store offset mem new ≡ none
unfolding store
store-short zero mem new h = overwrite-short mem new (omega arith)
store-short (suc offset) [] new h = refl
store-short (suc offset) (m ∷ mem) new h = rw (store-short offset mem new (omega arith))

pub fetch-append : (front rest : List ℕ) → fetch (length front) (front ++ rest) ≡ some front
unfolding fetch
fetch-append [] rest = refl
fetch-append (m ∷ front) rest = rw (fetch-append front rest)

pub fetch-short : (n : ℕ) (mem : List ℕ) → length mem < n → fetch n mem ≡ none
unfolding fetch
fetch-short zero mem h = absurd (omega arith)
fetch-short (suc n) [] h = refl
fetch-short (suc n) (m ∷ mem) h = rw (fetch-short n mem (omega arith))

-- A uint32_t is read back from its four bytes.
pub get_u32-put_u32 : (v : ℕ) (rest : List ℕ) → v < 2 ^ 32 → get_u32 (put_u32 v ++ rest) ≡ some v
unfolding get_u32
get_u32-put_u32 v rest h = ap some (omega arith)

pub load_u32-append :
    (front : List ℕ) (v : ℕ) (rest : List ℕ)
    → v < 2 ^ 32
    → load_u32 (length front) (front ++ (put_u32 v ++ rest)) ≡ some v
unfolding load_u32
load_u32-append front v rest h = rw drop-length_append (get_u32-put_u32 v rest h)

-- A C string ends at its first NUL.
pub c_string-append :
    (text rest : List ℕ) → All IsText text → c_string (text ++ 0 ∷ rest) ≡ some text
unfolding c_string
c_string-append [] rest h = refl
c_string-append (b ∷ text) rest h = ground (arith, c_string-append text rest h.1)

pub until_nul-IsText : (text : List ℕ) → All IsText (until_nul text)
unfolding until_nul
until_nul-IsText [] = tt
until_nul-IsText (b ∷ text) = ground (arith, until_nul-IsText text)

-- A text without NUL is shown whole.
pub until_nul-text : (text : List ℕ) → All IsText text → until_nul text ≡ text
unfolding until_nul
until_nul-text [] h = refl
until_nul-text (b ∷ text) h = ground (arith, until_nul-text text h.1)

pub strlen-le : (text : List ℕ) → strlen text ≤ length text
unfolding until_nul
strlen-le [] = omega arith
strlen-le (b ∷ text) = ground (arith, strlen-le text)

-- What is read as a C string has no NUL.
pub c_string-IsText : (mem : List ℕ) {text : List ℕ} → c_string mem ≡ some text → All IsText text
unfolding c_string
c_string-IsText [] h = absurd (cc)
c_string-IsText (b ∷ mem) {text} h = elim (Bool-cases (b == 0)) [
  | inl nul ↦ let e : [] ≡ text = ground arith in subst (All IsText) e tt
  | inr more ↦ elim (Option-cases (c_string mem)) [
    | inl out ↦ absurd (ground arith)
    | inr (rest, found) ↦
        let e : b ∷ rest ≡ text = ground arith in
        subst (All IsText) e (ground arith, c_string-IsText mem found)
  ]
]

-- Nor is it longer than what was read.
pub c_string-length :
    (mem : List ℕ) {text : List ℕ} → c_string mem ≡ some text → length text < length mem
unfolding c_string
c_string-length [] h = absurd (cc)
c_string-length (b ∷ mem) {text} h = elim (Option-cases (c_string mem)) [
  | inl out ↦ ground arith
  | inr (rest, found) ↦ ground (arith, c_string-length mem found)
]

pub overwrite-length :
    (mem new : List ℕ) {after : List ℕ} → overwrite mem new ≡ some after → length after ≡ length mem
unfolding overwrite
overwrite-length mem [] h = ground arith
overwrite-length [] (b ∷ new) h = absurd (cc)
overwrite-length (m ∷ mem) (b ∷ new) h = elim (Option-cases (overwrite mem new)) [
  | inl out ↦ ground arith
  | inr (rest, found) ↦ ground (arith, overwrite-length mem new found)
]

pub store-length :
    (offset : ℕ) (mem new : List ℕ) {after : List ℕ}
    → store offset mem new ≡ some after
    → length after ≡ length mem
unfolding store
store-length zero mem new h = overwrite-length mem new h
store-length (suc offset) [] new h = absurd (cc)
store-length (suc offset) (m ∷ mem) new h = elim (Option-cases (store offset mem new)) [
  | inl out ↦ ground arith
  | inr (rest, found) ↦ ground (arith, store-length offset mem new found)
]

get_u32_total : (mem : List ℕ) → 4 ≤ length mem → (v : ℕ) × (get_u32 mem ≡ some v)
unfolding get_u32
get_u32_total (a ∷ b ∷ c ∷ d ∷ mem) h = (_, refl)
get_u32_total (a ∷ b ∷ c ∷ []) h = absurd (omega arith)
get_u32_total (a ∷ b ∷ []) h = absurd (omega arith)
get_u32_total (a ∷ []) h = absurd (omega arith)
get_u32_total [] h = absurd (omega arith)

-- A word whose bytes are in the block can be read.
pub load_u32_total :
    (offset : ℕ) (mem : List ℕ) → offset + 4 ≤ length mem → (v : ℕ) × (load_u32 offset mem ≡ some v)
unfolding load_u32
load_u32_total offset mem h =
    get_u32_total (drop offset mem) (omega (arith, length-drop offset mem))

pub load_u32-short :
    (offset : ℕ) (mem : List ℕ) → length mem < offset + 4 → load_u32 offset mem ≡ none
unfolding load_u32
load_u32-short offset mem h = short (drop offset mem) (omega (arith, length-drop offset mem))
  where
    short : (m : List ℕ) → length m < 4 → get_u32 m ≡ none
    short (a ∷ b ∷ c ∷ d ∷ m) l = absurd (omega arith)
    short (a ∷ b ∷ c ∷ []) l = unfold get_u32 in refl
    short (a ∷ b ∷ []) l = unfold get_u32 in refl
    short (a ∷ []) l = unfold get_u32 in refl
    short [] l = unfold get_u32 in refl

-- A text that is copied into a zeroed array is followed by zeros.
pub overwrite-replicate :
    (n : ℕ) (bytes : List ℕ)
    → length bytes ≤ n
    → overwrite (replicate n 0) bytes ≡ some (bytes ++ replicate (n - length bytes) 0)
unfolding overwrite
overwrite-replicate n [] h = let e : n - 0 ≡ n = omega arith in rw e
overwrite-replicate zero (b ∷ bytes) h = absurd (omega arith)
overwrite-replicate (suc n) (b ∷ bytes) h =
    let e : suc n - suc (length bytes) ≡ n - length bytes = omega arith in
    rw (overwrite-replicate n bytes (omega arith), e)

pub until_nul-append : (text rest : List ℕ) → All IsText text → until_nul (text ++ 0 ∷ rest) ≡ text
unfolding until_nul
until_nul-append [] rest h = refl
until_nul-append (b ∷ text) rest h = ground (arith, until_nul-append text rest h.1)

-- A text and what is read behind it.
pub c_string-behind :
    (text rest : List ℕ) {junk : List ℕ}
    → All IsText text
    → c_string rest ≡ some junk
    → c_string (text ++ rest) ≡ some (text ++ junk)
unfolding c_string
c_string-behind [] rest h e = e
c_string-behind (b ∷ text) rest {junk} h e = ground (arith, c_string-behind text rest h.1 e)

-- What a chain of steps was made of, if it has a result.
pub bind_inverse {ℓ κ} :
    {A : Type ℓ} {B : Type κ} (o : Option A) (f : A → Option B) {b : B}
    → (o >>= f) ≡ some b
    → (a : A) × (o ≡ some a) × (f a ≡ some b)
bind_inverse none f h = absurd (cc)
bind_inverse (some a) f h = (a, refl, h)

pub map_inverse {ℓ κ} :
    {A : Type ℓ} {B : Type κ} (f : A → B) (o : Option A) {b : B}
    → Option.map f o ≡ some b
    → (a : A) × (o ≡ some a) × (f a ≡ b)
map_inverse f none h = absurd (cc)
map_inverse f (some a) h = (a, refl, (cc))

pub bind_assoc {ℓ κ μ} :
    {A : Type ℓ} {B : Type κ} {C : Type μ} (o : Option A) (f : A → Option B) (g : B → Option C)
    → ((o >>= f) >>= g) ≡ (o >>= λ a. f a >>= g)
bind_assoc none f g = refl
bind_assoc (some a) f g = refl
