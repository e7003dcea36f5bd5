-- ===== src/Sockets/Opening.antt =====
-- What the opening functions return, the calls they make, and what they leave open.
use test_server.Base.{if◌then◌else◌, false, Bool, ℕ, List, [], ◌∷◌, true, ◌≡◌, ◌⊎◌, inl, inr, refl}
use test_server.Base.Int.{ℤ, pos, is_negative, is_positive, minus_one}
use test_server.Os.{
  ◌>>=◌, result, M, Os, Reply, Call, Outcome, done, fault, starved, socket, setsockopt, bind,
  listen,
}
use test_server.Sockets.{sample_listen}
use test_server.Sockets.Ledger.{open_fds, opened}

-- A listener is there exactly if all four calls succeed, and they are made in this order.
abbrev pub Listening : ℕ → List Call → Outcome (ℤ × ℤ) → Type 0
Listening port trace (done r os) =
    ((is_positive r.0 ≡ true)
      × (r.1 ≡ pos 0)
      × (os.trace ≡ listen r.0 5 ∷ bind r.0 port ∷ setsockopt r.0 ∷ socket r.0 ∷ trace))
    ⊎ ((r.1 ≡ minus_one) × (open_fds os.trace ≡ opened r.0 (open_fds trace)))
Listening port trace (fault os) = ⊥
Listening port trace (starved os) = os.script ≡ []

module _ (port : ℕ) (trace : List Call) where
  -- A call, whatever it answers, and what comes after it.
  call-Listening :
      (call : ℤ → Call) (os : Os) (f : ℤ → M (ℤ × ℤ))
      → ((ret : ℤ) (rest : List Reply)
          → Listening port trace (f ret (record { script = rest; trace = call ret ∷ os.trace })))
      → Listening port trace ((result call >>= f) os)
  call-Listening call os f k = go os.script
    where
      go :
          (script : List Reply)
          → Listening port trace
              ((result call >>= f) (record { script = script; trace = os.trace }))
      go [] = refl
      go (r ∷ script) = k r.ret script

  if-Listening :
      (b : Bool) (m n : M (ℤ × ℤ)) (os : Os)
      → (b ≡ true → Listening port trace (m os))
      → (b ≡ false → Listening port trace (n os))
      → Listening port trace ((if b then m else n) os)
  if-Listening true m n os h k = h refl
  if-Listening false m n os h k = k refl

pub sample_listen-Listening : (port : ℕ) (os : Os) → Listening port os.trace (sample_listen port os)
unfolding sample_listen open_fds
sample_listen-Listening port os = call-Listening port os.trace socket os _ λ fd rest.
    if-Listening port os.trace (is_positive fd) _ _ _
      (λ up.
        call-Listening port os.trace (λ _. setsockopt fd)
          (record { script = rest; trace = socket fd ∷ os.trace }) _
          λ r1 rest1.
            if-Listening port os.trace (is_negative r1) _ _ _ (λ _. inr (refl, refl))
              λ _.
                call-Listening port os.trace (λ _. bind fd port)
                  (record { script = rest1; trace = setsockopt fd ∷ socket fd ∷ os.trace }) _
                  λ r2 rest2.
                    if-Listening port os.trace (is_negative r2) _ _ _ (λ _. inr (refl, refl))
                      λ _.
                        call-Listening port os.trace (λ _. listen fd 5)
                          (record {
                            script = rest2;
                            trace = bind fd port ∷ setsockopt fd ∷ socket fd ∷ os.trace;
                          })
                          _
                          λ r3 rest3.
                            if-Listening port os.trace (is_negative r3) _ _ _
                              (λ _. inr (refl, refl)) λ _. inl (up, refl, refl))
      λ _. inr (refl, refl)
