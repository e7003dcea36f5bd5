-- ===== src/SafeIo/Written.antt =====
-- What `writen` leaves written on the descriptor.
use test_server.Base.{
  subst, ℕ, zero, suc, ◌≤◌, ◌<◌, List, [], ◌∷◌, ◌++◌, Bool, true, false, ◌≡◌, refl, sym, ap, ◌∙◌,
  ◌⊎◌, inl, inr, arith, length, length-drop, All, if◌then◌else◌, take, drop, append-nil,
  append_assoc, take-append-drop,
}
use test_server.Base.Int.{ℤ, pos, negsuc, minus_one, is_positive, is_negative, eq_ℤ-refl}
use test_server.Os.{Os, Reply, Call, Outcome, done, fault, starved, written, write}
use test_server.SafeIo.{writen_loop, writen}

-- `bytes` in two parts, of which the first was written behind `old` and the second was not.
abbrev pub Stopped : ℤ → List ℕ → List ℕ → Os → Type 0
Stopped fd old bytes os =
    (front : List ℕ) × (back : List ℕ) × (bytes ≡ front ++ back)
    × (0 < length back)
    × (written fd os.trace ≡ old ++ front)

-- All bytes are written and their number is the result, or a part is and the result is -1, or the
-- script ends on the way.
abbrev pub Sends : ℤ → ℕ → List ℕ → List ℕ → Outcome ℤ → Type 0
Sends fd n old bytes (done r os) =
    ((r ≡ pos n) × (written fd os.trace ≡ old ++ bytes))
    ⊎ ((r ≡ minus_one) × Stopped fd old bytes os)
Sends fd n old bytes (fault os) = ⊥
Sends fd n old bytes (starved os) = (os.script ≡ []) × Stopped fd old bytes os

Stopped-shift :
    (fd : ℤ) (old chunk rest bytes : List ℕ) (os : Os)
    → chunk ++ rest ≡ bytes
    → Stopped fd (old ++ chunk) rest os
    → Stopped fd old bytes os
Stopped-shift fd old chunk rest bytes os e (front, back, parts, more, sent) = (
  chunk ++ front,
  back,
  sym e ∙ ap (◌++◌ chunk) parts ∙ sym (append_assoc chunk front back),
  more,
  sent ∙ append_assoc old chunk front,
)

Sends-shift :
    (fd : ℤ) (n : ℕ) (old chunk rest bytes : List ℕ) (o : Outcome ℤ)
    → chunk ++ rest ≡ bytes
    → Sends fd n (old ++ chunk) rest o
    → Sends fd n old bytes o
Sends-shift fd n old chunk rest bytes (done r os) e (inl (all, sent)) =
    inl (all, sent ∙ append_assoc old chunk rest ∙ ap (◌++◌ old) e)
Sends-shift fd n old chunk rest bytes (done r os) e (inr (failed, stopped)) =
    inr (failed, Stopped-shift fd old chunk rest bytes os e stopped)
Sends-shift fd n old chunk rest bytes (fault os) e h = h
Sends-shift fd n old chunk rest bytes (starved os) e (out, stopped) =
    (out, Stopped-shift fd old chunk rest bytes os e stopped)

written-write :
    (fd : ℤ) (bytes : List ℕ) (trace : List Call)
    → written fd (write fd bytes ∷ trace) ≡ written fd trace ++ bytes
written-write fd bytes trace = rw (eq_ℤ-refl fd)

nothing_sent :
    (fd : ℤ) (left : List ℕ) (os : Os) → 0 < length left → Stopped fd (written fd os.trace) left os
nothing_sent fd left os more = ([], left, refl, more, sym (append-nil (written fd os.trace)))

-- One round, given what the rounds after it do.
round-Sends :
    (fuel : ℕ) (fd : ℤ) (n b : ℕ) (left : List ℕ) (script : List Reply) (trace : List Call)
    (ret : ℤ) (bytes : List ℕ) (interrupted : Bool)
    → ((rest : List ℕ) (t : List Call)
        → Sends fd n
            (written fd t)
            rest
            (writen_loop fuel fd n rest (record { script = script; trace = t })))
    → Sends fd n (written fd trace) (b ∷ left) (
        writen_loop (suc fuel) fd n (b ∷ left) (record {
          script = record { ret = ret; bytes = bytes; interrupted = interrupted } ∷ script;
          trace = trace;
        }))
unfolding writen_loop
round-Sends fuel fd n b left script trace (pos zero) bytes interrupted later =
    inr (refl, ([], b ∷ left, refl, omega arith, written-write fd [] trace))
round-Sends fuel fd n b left script trace (pos (suc k)) bytes interrupted later =
    let chunk : List ℕ = b ∷ take k left in
    Sends-shift fd n (written fd trace) chunk (drop (length (take k left)) left) (b ∷ left) _
      (ap (◌∷◌ b) (take-append-drop k left))
      (rw (written-write fd chunk trace) at
        (later (drop (length (take k left)) left) (write fd chunk ∷ trace)))
round-Sends fuel fd n b left script trace (negsuc k) bytes true later =
    Sends-shift fd n (written fd trace) [] (b ∷ left) (b ∷ left) _ refl
      (rw (written-write fd [] trace) at (later (b ∷ left) (write fd [] ∷ trace)))
round-Sends fuel fd n b left script trace (negsuc k) bytes false later =
    inr (refl, ([], b ∷ left, refl, omega arith, written-write fd [] trace))

writen_loop-Sends :
    (fuel : ℕ) (fd : ℤ) (n : ℕ) (left : List ℕ) (script : List Reply) (trace : List Call)
    → length script ≤ fuel
    → Sends fd n
        (written fd trace)
        left
        (writen_loop fuel fd n left (record { script = script; trace = trace }))
unfolding writen_loop
writen_loop-Sends fuel fd n [] script trace h = inl (refl, sym (append-nil (written fd trace)))
writen_loop-Sends zero fd n (b ∷ left) [] trace h =
    (refl, nothing_sent fd (b ∷ left) (record { script = []; trace = trace }) (omega arith))
writen_loop-Sends zero fd n (b ∷ left) (r ∷ script) trace h = absurd (omega arith)
writen_loop-Sends (suc fuel) fd n (b ∷ left) [] trace h =
    (refl, nothing_sent fd (b ∷ left) (record { script = []; trace = trace }) (omega arith))
writen_loop-Sends (suc fuel) fd n (b ∷ left) (r ∷ script) trace h =
    round-Sends fuel fd n b left script trace r.ret r.bytes r.interrupted
      (λ rest t. writen_loop-Sends fuel fd n rest script t (omega arith))

-- On any replies `writen` ends, and does so in one of three ways. It returns n, and the n bytes
-- have been written in order. It returns -1, and a proper part from the front has been. Or the
-- replies run out before the bytes do. It never writes a byte twice, skips one, or stops early with
-- success.
pub writen-Sends :
    (fd : ℤ) (bytes : List ℕ) (os : Os)
    → Sends fd (length bytes) (written fd os.trace) bytes (writen fd bytes os)
unfolding writen
writen-Sends fd bytes os =
    writen_loop-Sends (length os.script) fd (length bytes) bytes os.script os.trace (omega arith)

-- A reply that lets `writen` go on: it takes a byte at least, or the call was interrupted.
abbrev pub IsProgress : Reply → Type 0
IsProgress r = (is_positive r.ret ≡ true) ⊎ ((is_negative r.ret ≡ true) × (r.interrupted ≡ true))

-- The number of replies that take a byte at least.
abbrev pub taking : List Reply → ℕ
taking [] = 0
taking (r ∷ script) = if is_positive r.ret then suc (taking script) else taking script

abbrev Finishes : ℕ → Outcome ℤ → Type 0
Finishes n o = (os : Os) × (o ≡ done (pos n) os)

round-Finishes :
    (fuel : ℕ) (fd : ℤ) (n b : ℕ) (left : List ℕ) (script : List Reply) (trace : List Call)
    (ret : ℤ) (bytes : List ℕ) (interrupted : Bool)
    → IsProgress (record { ret = ret; bytes = bytes; interrupted = interrupted })
    → suc (length left)
      ≤ taking (record { ret = ret; bytes = bytes; interrupted = interrupted } ∷ script)
    → ((rest : List ℕ) (t : List Call)
        → length rest ≤ taking script
        → Finishes n (writen_loop fuel fd n rest (record { script = script; trace = t })))
    → Finishes n (
        writen_loop (suc fuel) fd n (b ∷ left) (record {
          script = record { ret = ret; bytes = bytes; interrupted = interrupted } ∷ script;
          trace = trace;
        }))
unfolding writen_loop
round-Finishes fuel fd n b left script trace (pos zero) bytes interrupted (inl p) enough later =
    absurd (cc)
round-Finishes fuel fd n b left script trace (pos zero) bytes interrupted (inr p) enough later =
    absurd (cc (p.0))
round-Finishes fuel fd n b left script trace (pos (suc k)) bytes interrupted p enough later =
    later (drop (length (take k left)) left) (write fd (b ∷ take k left) ∷ trace)
      (omega (arith, length-drop (length (take k left)) left))
round-Finishes fuel fd n b left script trace (negsuc k) bytes true p enough later =
    later (b ∷ left) (write fd [] ∷ trace) enough
round-Finishes fuel fd n b left script trace (negsuc k) bytes false (inl p) enough later =
    absurd (cc)
round-Finishes fuel fd n b left script trace (negsuc k) bytes false (inr p) enough later =
    absurd (cc (p.1))

writen_loop-Finishes :
    (fuel : ℕ) (fd : ℤ) (n : ℕ) (left : List ℕ) (script : List Reply) (trace : List Call)
    → length script ≤ fuel
    → All IsProgress script
    → length left ≤ taking script
    → Finishes n (writen_loop fuel fd n left (record { script = script; trace = trace }))
unfolding writen_loop
writen_loop-Finishes fuel fd n [] script trace h going enough = (_, refl)
writen_loop-Finishes fuel fd n (b ∷ left) [] trace h going enough = absurd (omega arith)
writen_loop-Finishes zero fd n (b ∷ left) (r ∷ script) trace h going enough = absurd (omega arith)
writen_loop-Finishes (suc fuel) fd n (b ∷ left) (r ∷ script) trace h going enough =
    round-Finishes fuel fd n b left script trace r.ret r.bytes r.interrupted going.0 enough
      (λ rest t e. writen_loop-Finishes fuel fd n rest script t (omega arith) going.1 e)

-- As long as each call takes a byte or is interrupted, and as many calls take one as there are
-- bytes, `writen` returns n with every byte written in order.
pub writen_finishes :
    (fd : ℤ) (bytes : List ℕ) (os : Os)
    → All IsProgress os.script
    → length bytes ≤ taking os.script
    → (after : Os) × (writen fd bytes os ≡ done (pos (length bytes)) after)
      × (written fd after.trace ≡ written fd os.trace ++ bytes)
unfolding writen
writen_finishes fd bytes os going enough =
    let (after, e) =
      writen_loop-Finishes (length os.script) fd (length bytes) bytes os.script os.trace
        (omega arith) going enough in
    (
      after,
      e,
      all_written after
          (subst (Sends fd _ (written fd os.trace) bytes) e (writen-Sends fd bytes os)),
    )
  where
    all_written :
        (after : Os)
        → Sends fd (length bytes) (written fd os.trace) bytes (done (pos (length bytes)) after)
        → written fd after.trace ≡ written fd os.trace ++ bytes
    all_written after (inl s) = s.1
    all_written after (inr s) = absurd (cc (s.0))
