-- ===== src/Os/Post.antt =====
-- Postconditions: what holds of a program's result and of the calls that it has made, if it ends.
-- That it has no defined end is left open only where it is undefined; where it stops for want of
-- something, it is the replies of the system that are used up, never the fuel.
use test_server.Base.{
  arith, refl, none, if◌then◌else◌, [], suc, false, ◌≤◌, length, ◌∷◌, some, ℕ, true, ◌≡◌,
}
use test_server.Os.{
  filled, ◌>>=◌, result, starved, checked, fault, Reply, done, Call, bind_outcome, Os, Bool, ℤ,
  Outcome, Option, List, M,
}

-- `Q` holds at the end.
abbrev pub Post {ℓ} : {A : Type ℓ} → (A → Os → Type 0) → Outcome A → Type 0
Post Q (done a os) = Q a os
Post Q (fault os) = Unit
Post Q (starved os) = os.script ≡ []

-- Nothing but that the fuel is enough.
abbrev pub IsFuelled {ℓ} : {A : Type ℓ} → Outcome A → Type 0
IsFuelled o = Post (λ _ _. Unit) o

module _ {ℓ κ} {A : Type ℓ} {B : Type κ} where
  -- One part after the other.
  pub bind-Post :
      (o : Outcome A) (f : A → M B) (Q : A → Os → Type 0) (R : B → Os → Type 0)
      → Post Q o
      → ((a : A) (os : Os) → Q a os → Post R (f a os))
      → Post R (bind_outcome o f)
  bind-Post (done a os) f Q R h k = k a os h
  bind-Post (fault os) f Q R h k = tt
  bind-Post (starved os) f Q R h k = h

  -- What comes after a part of which nothing more is known.
  pub then-Post :
      (o : Outcome A) (f : A → M B) (R : B → Os → Type 0)
      → IsFuelled o
      → ((a : A) (os : Os) → Post R (f a os))
      → Post R (bind_outcome o f)
  then-Post o f R h k = bind-Post o f (λ _ _. Unit) R h λ a os _. k a os

  -- A memory access, and what comes after it.
  pub checked-Post :
      (o : Option A) (f : A → M B) (os : Os) (R : B → Os → Type 0)
      → ((a : A) → o ≡ some a → Post R (f a os))
      → Post R ((checked o >>= f) os)
  checked-Post none f os R k = tt
  checked-Post (some a) f os R k = k a refl

module _ {κ} {B : Type κ} where
  -- A call, whatever it answers, and what comes after it, in which a reply less is left.
  pub spend-Post :
      (call : ℤ → Call) (os : Os) (f : ℤ → M B) (R : B → Os → Type 0)
      → ((ret : ℤ) (rest : List Reply)
          → length os.script ≡ suc (length rest)
          → Post R (f ret (record { script = rest; trace = call ret ∷ os.trace })))
      → Post R ((result call >>= f) os)
  spend-Post call os f R h = go os.script h
    where
      go :
          (script : List Reply)
          → ((ret : ℤ) (rest : List Reply)
              → length script ≡ suc (length rest)
              → Post R (f ret (record { script = rest; trace = call ret ∷ os.trace })))
          → Post R ((result call >>= f) (record { script = script; trace = os.trace }))
      go [] k = refl
      go (r ∷ script) k = k r.ret script refl

  pub result-Post :
      (call : ℤ → Call) (os : Os) (f : ℤ → M B) (R : B → Os → Type 0)
      → ((ret : ℤ) (rest : List Reply)
          → Post R (f ret (record { script = rest; trace = call ret ∷ os.trace })))
      → Post R ((result call >>= f) os)
  result-Post call os f R h = spend-Post call os f R λ ret rest _. h ret rest

  pub filled-Post :
      (call : ℤ → Call) (os : Os) (f : ℤ × List ℕ → M B) (R : B → Os → Type 0)
      → ((ret : ℤ) (bytes : List ℕ) (rest : List Reply)
          → length os.script ≡ suc (length rest)
          → Post R (f (ret, bytes) (record { script = rest; trace = call ret ∷ os.trace })))
      → Post R ((filled call >>= f) os)
  filled-Post call os f R h = go os.script h
    where
      go :
          (script : List Reply)
          → ((ret : ℤ) (bytes : List ℕ) (rest : List Reply)
              → length script ≡ suc (length rest)
              → Post R (f (ret, bytes) (record { script = rest; trace = call ret ∷ os.trace })))
          → Post R ((filled call >>= f) (record { script = script; trace = os.trace }))
      go [] k = refl
      go (r ∷ script) k = k r.ret r.bytes script refl

  -- A test, by its two branches.
  pub if-Post :
      (b : Bool) (m n : M B) (os : Os) (R : B → Os → Type 0)
      → (b ≡ true → Post R (m os))
      → (b ≡ false → Post R (n os))
      → Post R ((if b then m else n) os)
  if-Post true m n os R h k = h refl
  if-Post false m n os R h k = k refl

-- The last call of a function.
pub call-Post :
    (call : ℤ → Call) (os : Os) (R : ℤ → Os → Type 0)
    → ((ret : ℤ) (rest : List Reply)
        → R ret (record { script = rest; trace = call ret ∷ os.trace }))
    → Post R (result call os)
call-Post call os R h = go os.script
  where
    go : (script : List Reply) → Post R (result call (record { script = script; trace = os.trace }))
    go [] = refl
    go (r ∷ script) = h r.ret script

module _ {ℓ} {A : Type ℓ} where
  pub Post-map :
      {Q R : A → Os → Type 0} (o : Outcome A)
      → ((a : A) (os : Os) → Q a os → R a os)
      → Post Q o
      → Post R o
  Post-map (done a os) h q = h a os q
  Post-map (fault os) h q = tt
  Post-map (starved os) h q = q

-- A function of which every run ends, is undefined, or uses up the replies.
abbrev pub AllFuelled : (ℤ → M ℤ) → Type 0
AllFuelled act = (fd : ℤ) (os : Os) → IsFuelled (act fd os)

-- Without fuel, nothing may be left of the script.
pub script_end : (script : List Reply) → length script ≤ 0 → script ≡ []
script_end [] h = refl
script_end (r ∷ script) h = absurd (omega arith)
