-- ===== src/Os/Safe.antt =====
-- What holds of the calls of a program at any time: at its end, at undefined behaviour, and
-- wherever the replies run out.
use test_server.Base.{none, some, Option, refl, [], if◌then◌else◌, false, true, ◌≡◌}
use test_server.Os.{
  checked, ◌>>=◌, starved, ask, result, ◌∷◌, fault, bind_outcome, Os, done, Reply, ℤ, Bool, Outcome,
  Call, List, M,
}

-- `R` at the end, and `Q` of the calls if it is not reached.
abbrev pub Safe {ℓ} :
    {A : Type ℓ} → (List Call → Type 0) → (A → List Call → Type 0) → Outcome A → Type 0
Safe Q R (done a os) = R a os.trace
Safe Q R (fault os) = Q os.trace
Safe Q R (starved os) = Q os.trace

module _ {ℓ κ} {A : Type ℓ} {B : Type κ} (Q : List Call → Type 0) where
  -- One part after the other.
  pub bind-Safe :
      (o : Outcome A) (f : A → M B) (S : A → List Call → Type 0) (R : B → List Call → Type 0)
      → Safe Q S o
      → ((a : A) (os : Os) → S a os.trace → Safe Q R (f a os))
      → Safe Q R (bind_outcome o f)
  bind-Safe (done a os) f S R h k = k a os h
  bind-Safe (fault os) f S R h k = h
  bind-Safe (starved os) f S R h k = h

module _ {ℓ} {B : Type ℓ} (Q : List Call → Type 0) (R : B → List Call → Type 0) where
  -- A call, whatever it answers, and what comes after it.
  pub ask-Safe :
      (call : Reply → Call) (os : Os) (f : Reply → M B)
      → Q os.trace
      → ((r : Reply) (rest : List Reply)
          → Safe Q R (f r (record { script = rest; trace = call r ∷ os.trace })))
      → Safe Q R ((ask call >>= f) os)
  ask-Safe call os f h k = go os.script
    where
      go :
          (script : List Reply)
          → Safe Q R ((ask call >>= f) (record { script = script; trace = os.trace }))
      go [] = h
      go (r ∷ script) = k r script

  pub result-Safe :
      (call : ℤ → Call) (os : Os) (f : ℤ → M B)
      → Q os.trace
      → ((ret : ℤ) (rest : List Reply)
          → Safe Q R (f ret (record { script = rest; trace = call ret ∷ os.trace })))
      → Safe Q R ((result call >>= f) os)
  result-Safe call os f h k = go os.script
    where
      go :
          (script : List Reply)
          → Safe Q R ((result call >>= f) (record { script = script; trace = os.trace }))
      go [] = h
      go (r ∷ script) = k r.ret script

  pub checked-Safe {κ} :
      {A : Type κ} (o : Option A) (f : A → M B) (os : Os)
      → Q os.trace
      → ((a : A) → Safe Q R (f a os))
      → Safe Q R ((checked o >>= f) os)
  checked-Safe none f os h k = h
  checked-Safe (some a) f os h k = k a

  pub if-Safe :
      (b : Bool) (m n : M B) (os : Os)
      → (b ≡ true → Safe Q R (m os))
      → (b ≡ false → Safe Q R (n os))
      → Safe Q R ((if b then m else n) os)
  if-Safe true m n os h k = h refl
  if-Safe false m n os h k = k refl
