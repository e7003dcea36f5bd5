-- ===== src/Select/Table.antt =====
-- The table of connections.
use test_server.Select.{is_member, del_fd, add_fd}
use test_server.Base.{
  refl, sym, ◌||◌, Bool, ap, [], inl, inr, Bool-cases, false, true, ◌∷◌, ◌⊎◌, All, List, ◌≡◌,
}
use test_server.Base.Int.{eq_ℤ-refl, eq_ℤ, is_positive, minus_one, ℤ}

-- A slot is free, which is -1, or holds a positive descriptor.
abbrev pub IsSlot : ℤ → Type 0
IsSlot slot = (slot ≡ minus_one) ⊎ (is_positive slot ≡ true)

-- A descriptor that is not in the table yet.
abbrev pub IsNew : ℤ → List ℤ → Type 0
IsNew fd = All (λ slot. eq_ℤ slot fd ≡ false)

-- A table of free and taken slots stays one.
pub add_fd-IsSlot :
    (fd : ℤ) (table : List ℤ)
    → is_positive fd ≡ true
    → All IsSlot table
    → All IsSlot (add_fd fd table)
unfolding add_fd
add_fd-IsSlot fd [] up h = tt
add_fd-IsSlot fd (slot ∷ table) up (here, rest) = elim (Bool-cases (is_positive slot)) [
  | inl taken ↦ rw taken (inr taken, add_fd-IsSlot fd table up rest)
  | inr free ↦ rw free (inr up, rest)
]

-- For a new descriptor `del_fd` undoes `add_fd`, also on a full table, where neither does anything.
del_fd-add_fd :
    (fd : ℤ) (table : List ℤ)
    → All IsSlot table
    → IsNew fd table
    → del_fd fd (add_fd fd table) ≡ table
unfolding add_fd del_fd
del_fd-add_fd fd [] h new = refl
del_fd-add_fd fd (slot ∷ table) (here, rest) (other, others) =
    elim (Bool-cases (is_positive slot)) [
      | inl taken ↦ rw (taken, other) (ap (◌∷◌ slot) (del_fd-add_fd fd table rest others))
      | inr free ↦ rw (free, eq_ℤ-refl fd) (ap (λ (g : ℤ). g ∷ table) (sym (is_free here free)))
    ]
  where
    is_free : IsSlot slot → is_positive slot ≡ false → slot ≡ minus_one
    is_free (inl e) free = e
    is_free (inr up) free = absurd (cc)

-- `add_fd` stores the descriptor exactly if a slot is free; on a full table it is dropped, open as
-- it is, and nothing changes.
add_fd_cases :
    (fd : ℤ) (table : List ℤ)
    → is_positive fd ≡ true
    → All IsSlot table
    → (is_member fd (add_fd fd table) ≡ true)
      ⊎ (All (λ slot. is_positive slot ≡ true) table × (add_fd fd table ≡ table))
unfolding add_fd
add_fd_cases fd [] up h = inr (tt, refl)
add_fd_cases fd (slot ∷ table) up (here, rest) = elim (Bool-cases (is_positive slot)) [
  | inl taken ↦ rw taken (elim (add_fd_cases fd table up rest) [
    | inl stored ↦ inl (rw stored (or_true (eq_ℤ slot fd)))
    | inr (full, same) ↦ inr ((refl, full), ap (◌∷◌ slot) same)
  ])
  | inr free ↦ rw free (inl (rw (eq_ℤ-refl fd) refl))
]
  where
    or_true : (b : Bool) → (b || true) ≡ true
    or_true true = refl
    or_true false = refl
