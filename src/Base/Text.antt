-- ===== src/Base/Text.antt =====
-- Texts as the bytes of their characters, which are ASCII, and the std::string functions on them.
use Prim.Native.Nat.{ℕ, suc}
use Prim.Native.Char.{code}
use Prim.Native.String.{String}
use mathlib.Core.Path.{◌≡◌, refl, ap}
use mathlib.Core.Logic.{inl, inr}
use mathlib.Core.Bool.{Bool, true, false, ◌&&◌}
use mathlib.Core.Option
use mathlib.Core.Option.{Option, none, some}
use mathlib.Core.List.{List, [], ◌∷◌, ◌++◌}
use native.Mathlib.Omega.{arith}
use test_server.Base.Tests.{◌==◌, if◌then◌else◌, Bool-cases, Option-cases}
use test_server.Base.Lists.{length}

abbrev pub codes : String → List ℕ
codes String.[] = []
codes (String.◌∷◌ c s) = code c ∷ codes s

unfoldable pub starts_with : List ℕ → List ℕ → Bool
starts_with [] text = true
starts_with (a ∷ needle) [] = false
starts_with (a ∷ needle) (b ∷ text) = a == b && starts_with needle text

-- std::string::find: the first place of the needle.
unfoldable pub find : List ℕ → List ℕ → Option ℕ
find needle [] = if starts_with needle [] then some 0 else none
find needle (b ∷ text) =
    if starts_with needle (b ∷ text) then some 0 else Option.map suc (find needle text)

-- The needle is not found at a place inside `front`, which `tail` follows.
abbrev pub IsAbsent : List ℕ → List ℕ → List ℕ → Type 0
IsAbsent needle [] tail = Unit {0}
IsAbsent needle (b ∷ front) tail =
    (starts_with needle (b ∷ (front ++ tail)) ≡ false) × IsAbsent needle front tail

pub starts_with-append : (needle tail : List ℕ) → starts_with needle (needle ++ tail) ≡ true
unfolding starts_with
starts_with-append [] tail = refl
starts_with-append (a ∷ needle) tail = ground (arith, starts_with-append needle tail)

starts_with_rest :
    (needle text : List ℕ)
    → starts_with needle text ≡ true
    → (tail : List ℕ) × (text ≡ needle ++ tail)
unfolding starts_with
starts_with_rest [] text h = (text, refl)
starts_with_rest (a ∷ needle) [] h = absurd (cc)
starts_with_rest (a ∷ needle) (b ∷ text) h =
    let same : a ≡ b = ground arith in
    let (tail, e) = starts_with_rest needle text (ground arith) in (tail, ground arith)

-- What is found, is the first.
pub find_splits :
    (needle text : List ℕ) {n : ℕ}
    → find needle text ≡ some n
    → (front : List ℕ) × (tail : List ℕ) × (text ≡ front ++ (needle ++ tail))
      × (length front ≡ n)
      × IsAbsent needle front (needle ++ tail)
unfolding find
find_splits needle [] {n} h = elim (Bool-cases (starts_with needle [])) [
  | inl here ↦ let (tail, e) = starts_with_rest needle [] here in ([], tail, e, ground arith, tt)
  | inr out ↦ absurd (ground arith)
]
find_splits needle (b ∷ text) {n} h = elim (Bool-cases (starts_with needle (b ∷ text))) [
  | inl here ↦
      let (tail, e) = starts_with_rest needle (b ∷ text) here in ([], tail, e, ground arith, tt)
  | inr out ↦ elim (Option-cases (find needle text)) [
    | inl lost ↦ absurd (ground arith)
    | inr (m, found) ↦
        let (front, tail, e, size, absent) = find_splits needle text found in
        let here : starts_with needle (b ∷ (front ++ (needle ++ tail))) ≡ false = rw (← e) out in
        (b ∷ front, tail, ap (◌∷◌ b) e, ground arith, (here, absent))
  ]
]

find_here : (needle text : List ℕ) → starts_with needle text ≡ true → find needle text ≡ some 0
unfolding find
find_here needle [] h = rw h refl
find_here needle (b ∷ text) h = rw h refl

pub find-append :
    (needle front tail : List ℕ)
    → IsAbsent needle front (needle ++ tail)
    → find needle (front ++ (needle ++ tail)) ≡ some (length front)
unfolding find
find-append needle [] tail h = find_here needle (needle ++ tail) (starts_with-append needle tail)
find-append needle (b ∷ front) tail (here, absent) =
    rw (here, find-append needle front tail absent) refl
