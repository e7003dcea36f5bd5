-- ===== src/Greeter/Arguments.antt =====
-- Which arguments the Greeter client takes, and for which address.
use test_server.Base.{
  List, [], arith, ◌==◌, Bool-cases, codes, if◌then◌else◌, refl, subst, Bool, find-append,
  find_splits, inr, drop-length_append, ap, inl, ◌∙◌, Option-cases, drop-drop, sym, IsAbsent, ◌+◌,
  none, ◌++◌, some, ◌↔◌, length, drop, find, ◌≡◌, ◌∷◌, ℕ, Option,
}
use test_server.Greeter.{target_at, usage, option_name, connect_to, target_of, after_option, Target}

-- The address of a target.
abbrev address_of : Target → Option (List ℕ)
address_of (connect_to address) = some address
address_of (usage line) = none

after_option_iff :
    (text address : List ℕ) → (after_option text ≡ connect_to address) ↔ (text ≡ b'=' ∷ address)
unfolding after_option
after_option_iff [] address = (λ h. absurd (cc), λ h. absurd (cc))
after_option_iff (b ∷ text) address = elim (Bool-cases (b == b'=')) [
  | inl same ↦ (
    λ h.
        let e : b ≡ b'=' = ground arith in
        let rest : text ≡ address = connected (sym (ap (branch text) same) ∙ h) in
        ap (λ c. c ∷ text) e ∙ ap (◌∷◌ b'=') rest,
    λ h. ap (branch text) same ∙ ap connect_to (let e : text ≡ address = cc in e),
  )
  | inr other ↦ (
    λ h. absurd (clash (sym (ap (branch text) other) ∙ h)),
    λ h. let e : b ≡ b'=' = cc in absurd (ground arith),
  )
]
  where
    branch : List ℕ → Bool → Target
    branch rest b =
        if b then connect_to rest else usage (codes "The only correct argument syntax is --target=")

    connected : {s t : List ℕ} → connect_to s ≡ connect_to t → s ≡ t
    connected h = cc

    clash : {s t : List ℕ} → usage s ≡ connect_to t → ⊥
    clash h = cc

drop_behind :
    (front needle tail : List ℕ)
    → drop (length front + length needle) (front ++ (needle ++ tail)) ≡ tail
drop_behind front needle tail =
    sym (drop-drop (length needle) (length front) (front ++ (needle ++ tail)))
    ∙ (ap (drop (length needle)) (drop-length_append front (needle ++ tail))
        ∙ drop-length_append needle tail)

target_of_found :
    (program arg_val : List ℕ) (more : List (List ℕ)) {n : ℕ}
    → find option_name arg_val ≡ some n
    → target_of (program ∷ arg_val ∷ more) ≡ after_option (drop (n + length option_name) arg_val)
unfolding target_of target_at
target_of_found program arg_val more h = ap (target_at arg_val) h

target_of_lost :
    (program arg_val : List ℕ) (more : List (List ℕ))
    → find option_name arg_val ≡ none
    → address_of (target_of (program ∷ arg_val ∷ more)) ≡ none
unfolding target_of target_at
target_of_lost program arg_val more h = ap (λ o. address_of (target_at arg_val o)) h

-- An address is taken from an argument exactly if it stands behind "--target=", where "--target"
-- stands for the first time in the argument; any text may stand in front of it.
pub target_of_iff :
    (program arg_val address : List ℕ) (more : List (List ℕ))
    → (target_of (program ∷ arg_val ∷ more) ≡ connect_to address) ↔ (
        (front : List ℕ) × (arg_val ≡ front ++ (option_name ++ b'=' ∷ address))
        × IsAbsent option_name front (option_name ++ b'=' ∷ address))
target_of_iff program arg_val address more = (
  λ h. elim (Option-cases (find option_name arg_val)) [
    | inl lost ↦
        let clash : some address ≡ none =
          sym (ap address_of h) ∙ target_of_lost program arg_val more lost in
        absurd (cc)
    | inr (n, found) ↦
        let (front, tail, e, size, absent) = find_splits option_name arg_val found in
        let rest : drop (n + length option_name) arg_val ≡ tail =
          ap (drop (n + length option_name)) e
          ∙ (ap (λ k. drop (k + length option_name) (front ++ (option_name ++ tail))) (sym size)
              ∙ drop_behind front option_name tail) in
        let behind : tail ≡ b'=' ∷ address =
          (after_option_iff tail address).0
            (ap after_option (sym rest) ∙ (sym (target_of_found program arg_val more found) ∙ h)) in
        (
          front,
          e ∙ ap (λ rest. front ++ (option_name ++ rest)) behind,
          subst (λ rest. IsAbsent option_name front (option_name ++ rest)) behind absent,
        )
  ],
  λ (front, e, absent).
      let found : find option_name arg_val ≡ some (length front) =
        rw e (find-append option_name front (b'=' ∷ address) absent) in
      let rest : drop (length front + length option_name) arg_val ≡ b'=' ∷ address =
        rw e (drop_behind front option_name (b'=' ∷ address)) in
      target_of_found program arg_val more found
      ∙ (ap after_option rest ∙ (after_option_iff (b'=' ∷ address) address).1 refl),
)
