-- ===== src/Select/Refine.antt =====
-- The table of connections, as a bag of descriptors with room for a fixed number of them.
use test_server.Base.Int.{eq_ℤ-refl, eq_ℤ→eq, eq_ℤ, is_positive, negsuc, ℤ, pos}
use test_server.Base.{
  subst, sym, true, false, refl, ◌∙◌, ◌-◌, inr, Bool-cases, zero, arith, ap, inl, [], All, ◌≡◌, ◌∷◌,
  suc, if◌then◌else◌, Bool, List, ℕ,
}
use test_server.Select.Table.{add_fd-IsSlot, IsSlot}
use test_server.Select.{ℤ, pos, negsuc, del_fd, Bool, List, ℕ, add_fd}

-- The descriptor n + 1 in the table: how often it is there; and the free slots.
abbrev pub count : ℕ → List ℤ → ℕ
count n [] = 0
count n (slot ∷ table) =
    let rest = count n table in if eq_ℤ slot (pos (suc n)) then suc rest else rest

abbrev pub free : List ℤ → ℕ
free [] = 0
free (slot ∷ table) = let rest = free table in if is_positive slot then rest else suc rest

-- Whether two numbers stand for the same descriptor.
abbrev pub same_fd : ℕ → ℕ → Bool
same_fd n g = eq_ℤ (pos (suc n)) (pos (suc g))

-- What a table promises: how often each descriptor is held, and the room that is left.
abbrev pub Bag : Type 0
Bag = (ℕ → ℕ) × ℕ

-- A connection that comes or goes.
pub data Change : Type 0 where
  comes : ℕ → Change
  goes : ℕ → Change

abbrev put : ℕ → Bag → Bag
put n (held, zero) = (held, zero)
put n (held, suc room) = (λ g. if same_fd n g then suc (held g) else held g, room)

abbrev remove_one : ℕ → Bag → ℕ → Bag
remove_one n (held, room) zero = (held, room)
remove_one n (held, room) (suc c) = (λ g. if same_fd n g then held g - 1 else held g, suc room)

abbrev pub bag_after : Change → Bag → Bag
bag_after (comes n) bag = put n bag
bag_after (goes n) bag = remove_one n bag (bag.0 n)

unfoldable pub table_after : Change → List ℤ → List ℤ
unfolding add_fd del_fd
table_after (comes n) table = add_fd (pos (suc n)) table
table_after (goes n) table = del_fd (pos (suc n)) table

abbrev pub bag_run : List Change → Bag → Bag
bag_run [] bag = bag
bag_run (change ∷ changes) bag = bag_run changes (bag_after change bag)

unfoldable pub table_run : List Change → List ℤ → List ℤ
unfolding table_after
table_run [] table = table
table_run (change ∷ changes) table = table_run changes (table_after change table)

abbrev pub Represents : List ℤ → Bag → Type 0
Represents table (held, room) = ((g : ℕ) → count g table ≡ held g) × (free table ≡ room)

no_zero : {A : Type 0} → IsSlot (pos 0) → A
no_zero (inl e) = absurd (cc)
no_zero (inr up) = absurd (cc)

no_minus_two : {A : Type 0} (k : ℕ) → IsSlot (negsuc (suc k)) → A
no_minus_two k (inl e) = absurd (cc)
no_minus_two k (inr up) = absurd (cc)

add_fd_full : (n : ℕ) (table : List ℤ) → free table ≡ 0 → add_fd (pos (suc n)) table ≡ table
unfolding add_fd
add_fd_full n [] full = refl
add_fd_full n (pos (suc m) ∷ table) full = ap (◌∷◌ (pos (suc m))) (add_fd_full n table full)
add_fd_full n (pos zero ∷ table) full = absurd (omega arith)
add_fd_full n (negsuc k ∷ table) full = absurd (omega arith)

-- The order of two tests.
swap :
    (b c : Bool) (x : ℕ)
    → (if c then suc (if b then suc x else x) else (if b then suc x else x))
      ≡ (if b then suc (if c then suc x else x) else (if c then suc x else x))
swap true true x = refl
swap true false x = refl
swap false true x = refl
swap false false x = refl

if_zero : (b : Bool) (x : ℕ) → (if b then suc x else x) ≡ 0 → (b ≡ false) × (x ≡ 0)
if_zero true x h = absurd (omega arith)
if_zero false x h = (refl, h)

if_false_ℕ : (b : Bool) {x y : ℕ} → b ≡ false → (if b then suc x else x) ≡ y → x ≡ y
if_false_ℕ true h e = absurd (cc)
if_false_ℕ false h e = e

taken_here :
    (b : Bool) (x : ℕ) → x ≡ (if b then (if b then suc x else x) - 1 else (if b then suc x else x))
taken_here true x = omega arith
taken_here false x = refl

taken_behind :
    (b c : Bool) (x : ℕ)
    → (b ≡ true → c ≡ true → ⊥)
    → (if c then suc (if b then x - 1 else x) else (if b then x - 1 else x))
      ≡ (if b then (if c then suc x else x) - 1 else (if c then suc x else x))
taken_behind true true x h = absurd (h refl refl)
taken_behind true false x h = refl
taken_behind false c x h = refl

same_fd→eq : (n g : ℕ) → same_fd n g ≡ true → n ≡ g
same_fd→eq n g h = let e : pos (suc n) ≡ pos (suc g) = eq_ℤ→eq (pos (suc n)) (pos (suc g)) h in cc

add_fd_stores :
    (n g r : ℕ) (table : List ℤ)
    → All IsSlot table
    → free table ≡ suc r
    → (count g (add_fd (pos (suc n)) table)
        ≡ (if same_fd n g then suc (count g table) else count g table))
      × (free (add_fd (pos (suc n)) table) ≡ r)
unfolding add_fd
add_fd_stores n g r [] h some_free = absurd (omega arith)
add_fd_stores n g r (pos (suc m) ∷ table) (here, rest) some_free =
    let (same, room) = add_fd_stores n g r table rest some_free in
    (
      ap (λ x. if same_fd m g then suc x else x) same
          ∙ swap (same_fd n g) (same_fd m g) (count g table),
      room,
    )
add_fd_stores n g r (pos zero ∷ table) (here, rest) some_free = no_zero here
add_fd_stores n g r (negsuc zero ∷ table) (here, rest) some_free = (refl, omega arith)
add_fd_stores n g r (negsuc (suc k) ∷ table) (here, rest) some_free = no_minus_two k here

del_fd_absent : (n : ℕ) (table : List ℤ) → count n table ≡ 0 → del_fd (pos (suc n)) table ≡ table
unfolding del_fd
del_fd_absent n [] absent = refl
del_fd_absent n (slot ∷ table) absent =
    let (other, behind) = if_zero (eq_ℤ slot (pos (suc n))) (count n table) absent in
    rw other (ap (◌∷◌ slot) (del_fd_absent n table behind))

del_fd_takes :
    (n g c : ℕ) (table : List ℤ)
    → All IsSlot table
    → count n table ≡ suc c
    → (count g (del_fd (pos (suc n)) table)
        ≡ (if same_fd n g then count g table - 1 else count g table))
      × (free (del_fd (pos (suc n)) table) ≡ suc (free table))
unfolding del_fd
del_fd_takes n g c [] h there = absurd (omega arith)
del_fd_takes n g c (pos (suc m) ∷ table) (here, rest) there = elim (Bool-cases (same_fd m n)) [
  | inl same ↦
      let e : m ≡ n = same_fd→eq m n same in
      rw same (
        (
          subst
              (λ k. count g table ≡ (
                if same_fd k g
                then (if same_fd m g then suc (count g table) else count g table) - 1
                else (if same_fd m g then suc (count g table) else count g table)))
              e (taken_here (same_fd m g) (count g table)),
          refl,
        ))
  | inr other ↦
      let there' : count n table ≡ suc c = behind other there in
      let (moved, room) = del_fd_takes n g c table rest there' in
      rw other (
        (
          ap (λ x. if same_fd m g then suc x else x) moved
              ∙ taken_behind (same_fd n g) (same_fd m g) (count g table) (apart other),
          room,
        ))
]
  where
    behind :
        same_fd m n ≡ false
        → (if same_fd m n then suc (count n table) else count n table) ≡ suc c
        → count n table ≡ suc c
    behind other h = if_false_ℕ (same_fd m n) other h

    apart : same_fd m n ≡ false → same_fd n g ≡ true → same_fd m g ≡ true → ⊥
    apart other ng mg =
        let e : m ≡ n = same_fd→eq m g mg ∙ sym (same_fd→eq n g ng) in
        let yes : same_fd m n ≡ true =
          subst (λ k. same_fd m k ≡ true) e (eq_ℤ-refl (pos (suc m))) in
        cc
del_fd_takes n g c (pos zero ∷ table) (here, rest) there = no_zero here
del_fd_takes n g c (negsuc zero ∷ table) (here, rest) there =
    let (same, room) = del_fd_takes n g c table rest there in (same, omega arith)
del_fd_takes n g c (negsuc (suc k) ∷ table) (here, rest) there = no_minus_two k here

del_fd-IsSlot : (fd : ℤ) (table : List ℤ) → All IsSlot table → All IsSlot (del_fd fd table)
unfolding del_fd
del_fd-IsSlot fd [] h = tt
del_fd-IsSlot fd (slot ∷ table) (here, rest) = elim (Bool-cases (eq_ℤ slot fd)) [
  | inl same ↦ rw same (inl refl, rest)
  | inr other ↦ rw other (here, del_fd-IsSlot fd table rest)
]

table_after-IsSlot :
    (change : Change) (table : List ℤ) → All IsSlot table → All IsSlot (table_after change table)
unfolding table_after
table_after-IsSlot (comes n) table h = add_fd-IsSlot (pos (suc n)) table refl h
table_after-IsSlot (goes n) table h = del_fd-IsSlot (pos (suc n)) table h

-- One change.
comes-Represents :
    (n : ℕ) (table : List ℤ) (bag : Bag)
    → All IsSlot table
    → Represents table bag
    → Represents (table_after (comes n) table) (put n bag)
unfolding table_after
comes-Represents n table (held, zero) h (holds, room) =
    subst (λ now. Represents now (held, zero)) (sym (add_fd_full n table room)) (holds, room)
comes-Represents n table (held, suc r) h (holds, room) = (
  λ g. (add_fd_stores n g r table h room).0 ∙ ap (λ x. if same_fd n g then suc x else x) (holds g),
  (add_fd_stores n zero r table h room).1,
)

goes-Represents :
    (n c : ℕ) (table : List ℤ) (held : ℕ → ℕ) (room : ℕ)
    → All IsSlot table
    → Represents table (held, room)
    → count n table ≡ c
    → Represents (table_after (goes n) table) (remove_one n (held, room) c)
unfolding table_after
goes-Represents n zero table held room h (holds, left) there =
    subst (λ now. Represents now (held, room)) (sym (del_fd_absent n table there)) (holds, left)
goes-Represents n (suc c) table held room h (holds, left) there = (
  λ g. (del_fd_takes n g c table h there).0 ∙ ap (λ x. if same_fd n g then x - 1 else x) (holds g),
  (del_fd_takes n zero c table h there).1 ∙ ap suc left,
)

-- On a table of slots that are -1 or positive, whatever connections come and go, `add_fd` and
-- `del_fd` do what a bag with room for as many as there are slots does: the table holds each
-- descriptor as often as the bag does, and has as many free slots as the bag has room.
pub table_run-Represents :
    (changes : List Change) (table : List ℤ) (bag : Bag)
    → All IsSlot table
    → Represents table bag
    → Represents (table_run changes table) (bag_run changes bag)
unfolding table_run
table_run-Represents [] table bag h same = same
table_run-Represents (comes n ∷ changes) table bag h same =
    table_run-Represents changes (table_after (comes n) table) (put n bag)
      (table_after-IsSlot (comes n) table h) (comes-Represents n table bag h same)
table_run-Represents (goes n ∷ changes) table (held, room) h (holds, left) =
    table_run-Represents changes (table_after (goes n) table) (remove_one n (held, room) (held n))
      (table_after-IsSlot (goes n) table h)
      (goes-Represents n (held n) table held room h (holds, left) (holds n))
