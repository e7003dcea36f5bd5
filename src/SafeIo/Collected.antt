-- ===== src/SafeIo/Collected.antt =====
-- What `readn` brings from the descriptor.
use test_server.Base.{
  ℕ, zero, suc, ◌+◌, ◌-◌, ◌≤◌, ◌<◌, List, [], ◌∷◌, ◌++◌, Bool, true, false, ◌≡◌, refl, sym, ap, ◌∙◌,
  ◌⊎◌, inl, inr, arith, length, take, append-nil, append_assoc, length-append, length-take-le,
  take-all, All,
}
use test_server.Base.Int.{ℤ, pos, negsuc, minus_one, eq_ℤ-refl}
use test_server.Os.{Os, Reply, Call, Outcome, done, fault, starved, obtained, read}
use test_server.SafeIo.{readn_loop, readn}

-- `got` is what was obtained on the descriptor behind `old`, and at most `n` bytes.
abbrev pub Got : ℤ → ℕ → List ℕ → List ℕ → Os → Type 0
Got fd n old got os = (obtained fd os.trace ≡ old ++ got) × (length got ≤ n)

-- The number of bytes is the result unless that is -1; if the script ends nothing is said but that.
abbrev pub Collects : ℤ → ℕ → List ℕ → Outcome (ℤ × List ℕ) → Type 0
Collects fd n old (done t os) = ((t.0 ≡ pos (length t.1)) ⊎ (t.0 ≡ minus_one)) × Got fd n old t.1 os
Collects fd n old (fault os) = ⊥
Collects fd n old (starved os) = os.script ≡ []

obtained-read :
    (fd : ℤ) (bytes : List ℕ) (trace : List Call)
    → obtained fd (read fd bytes ∷ trace) ≡ obtained fd trace ++ bytes
obtained-read fd bytes trace = rw (eq_ℤ-refl fd)

-- The state of the loop: what came so far and what is wanted make up n.
abbrev Going : ℤ → ℕ → ℕ → List ℕ → List ℕ → List Call → Type 0
Going fd n nleft old got trace = (obtained fd trace ≡ old ++ got) × (length got + nleft ≡ n)

more :
    (fd : ℤ) (n nleft : ℕ) (old got bytes : List ℕ) (trace : List Call)
    → length bytes ≤ nleft
    → Going fd n nleft old got trace
    → Going fd n (nleft - length bytes) old (got ++ bytes) (read fd bytes ∷ trace)
more fd n nleft old got bytes trace fits (seen, sum) = (
  obtained-read fd bytes trace ∙ ap (λ (l : List ℕ). l ++ bytes) seen ∙ append_assoc old got bytes,
  omega (arith, length-append got bytes),
)

none_more :
    (fd : ℤ) (n nleft : ℕ) (old got : List ℕ) (trace : List Call)
    → Going fd n nleft old got trace
    → (obtained fd (read fd [] ∷ trace) ≡ old ++ got) × (length got ≤ n)
none_more fd n nleft old got trace (seen, sum) =
    (obtained-read fd [] trace ∙ append-nil (obtained fd trace) ∙ seen, omega arith)

round-Collects :
    (fuel : ℕ) (fd : ℤ) (n nleft : ℕ) (old got : List ℕ) (script : List Reply) (trace : List Call)
    (ret : ℤ) (bytes : List ℕ) (interrupted : Bool)
    → Going fd n (suc nleft) old got trace
    → ((left : ℕ) (g : List ℕ) (t : List Call)
        → Going fd n left old g t
        → Collects fd n old (readn_loop fuel fd n left g (record { script = script; trace = t })))
    → Collects fd n old (
        readn_loop (suc fuel) fd n (suc nleft) got (record {
          script = record { ret = ret; bytes = bytes; interrupted = interrupted } ∷ script;
          trace = trace;
        }))
unfolding readn_loop
round-Collects fuel fd n nleft old got script trace (pos k) [] interrupted g later =
    (inl (ap pos (omega (arith, g.1))), none_more fd n (suc nleft) old got trace g)
round-Collects fuel fd n nleft old got script trace (pos k) (b ∷ bytes) interrupted g later =
    let chunk : List ℕ = b ∷ take nleft bytes in
    later (suc nleft - length chunk) (got ++ chunk) (read fd chunk ∷ trace)
      (more fd n (suc nleft) old got chunk trace (omega (arith, length-take-le nleft bytes)) g)
round-Collects fuel fd n nleft old got script trace (negsuc k) bytes true g later =
    (inl (ap pos (omega (arith, g.1))), none_more fd n (suc nleft) old got trace g)
round-Collects fuel fd n nleft old got script trace (negsuc k) bytes false g later =
    (inr refl, none_more fd n (suc nleft) old got trace g)

readn_loop-Collects :
    (fuel : ℕ) (fd : ℤ) (n nleft : ℕ) (old got : List ℕ) (script : List Reply) (trace : List Call)
    → length script ≤ fuel
    → Going fd n nleft old got trace
    → Collects fd n old (readn_loop fuel fd n nleft got (record { script = script; trace = trace }))
unfolding readn_loop
readn_loop-Collects fuel fd n zero old got script trace h g =
    (inl (ap pos (omega (arith, g.1))), (g.0, omega (arith, g.1)))
readn_loop-Collects zero fd n (suc nleft) old got [] trace h g = refl
readn_loop-Collects zero fd n (suc nleft) old got (r ∷ script) trace h g = absurd (omega arith)
readn_loop-Collects (suc fuel) fd n (suc nleft) old got [] trace h g = refl
readn_loop-Collects (suc fuel) fd n (suc nleft) old got (r ∷ script) trace h g =
    round-Collects fuel fd n nleft old got script trace r.ret r.bytes r.interrupted g
      (λ left l t e. readn_loop-Collects fuel fd n left old l script t (omega arith) e)

-- On any replies `readn` ends. The bytes in the buffer are those that came on the descriptor, in
-- order and at most n, and the result is their number or -1.
pub readn-Collects :
    (fd : ℤ) (n : ℕ) (os : Os) → Collects fd n (obtained fd os.trace) (readn fd n os)
unfolding readn
readn-Collects fd n os =
    readn_loop-Collects (length os.script) fd n n (obtained fd os.trace) [] os.script os.trace
      (omega arith) (sym (append-nil (obtained fd os.trace)), omega arith)

-- A call that a signal interrupts ends `readn` as the end of the stream would: the bytes that came
-- before are returned, however many are still wanted and whatever the script holds.
readn_loop_interrupted :
    (fuel : ℕ) (fd : ℤ) (n nleft k : ℕ) (got bytes : List ℕ) (script : List Reply)
    (trace : List Call)
    → readn_loop (suc fuel) fd n (suc nleft) got (record {
      script = record { ret = negsuc k; bytes = bytes; interrupted = true } ∷ script;
      trace = trace;
    })
      ≡ done (pos (n - suc nleft), got) (record { script = script; trace = read fd [] ∷ trace })
unfolding readn_loop
readn_loop_interrupted fuel fd n nleft k got bytes script trace = refl

readn_interrupted :
    (fd : ℤ) (n k : ℕ) (bytes : List ℕ) (script : List Reply) (trace : List Call)
    → 0 < n
    → readn fd n (record {
      script = record { ret = negsuc k; bytes = bytes; interrupted = true } ∷ script;
      trace = trace;
    })
      ≡ done (pos 0, []) (record { script = script; trace = read fd [] ∷ trace })
unfolding readn
readn_interrupted fd zero k bytes script trace h = absurd (omega arith)
readn_interrupted fd (suc n) k bytes script trace h =
    let whole : suc n - suc n ≡ 0 = omega arith in
    rw (← whole) (readn_loop_interrupted (length script) fd (suc n) n k [] bytes script trace)

abbrev pub concat : List (List ℕ) → List ℕ
concat [] = []
concat (chunk ∷ chunks) = chunk ++ concat chunks

-- The replies that bring `chunks`, then those of `rest`.
abbrev pub bringing : List (List ℕ) → List Reply → List Reply
bringing [] rest = rest
bringing (chunk ∷ chunks) rest =
    record { ret = pos (length chunk); bytes = chunk; interrupted = false } ∷ bringing chunks rest

abbrev pub reads : ℤ → List (List ℕ) → List Call → List Call
reads fd [] trace = trace
reads fd (chunk ∷ chunks) trace = reads fd chunks (read fd chunk ∷ trace)

length-bringing :
    (chunks : List (List ℕ)) (rest : List Reply) → length chunks ≤ length (bringing chunks rest)
length-bringing [] rest = omega arith
length-bringing (chunk ∷ chunks) rest = omega (arith, length-bringing chunks rest)

readn_loop_chunks :
    (chunks : List (List ℕ)) (fuel : ℕ) (fd : ℤ) (n : ℕ) (got : List ℕ) (rest : List Reply)
    (trace : List Call)
    → All (λ c. 0 < length c) chunks
    → length chunks ≤ fuel
    → readn_loop fuel fd n
        (length (concat chunks))
        got
        (record { script = bringing chunks rest; trace = trace })
      ≡ done
          (pos (n - 0), got ++ concat chunks)
          (record { script = rest; trace = reads fd chunks trace })
unfolding readn_loop
readn_loop_chunks [] fuel fd n got rest trace full h = rw append-nil
readn_loop_chunks ([] ∷ chunks) fuel fd n got rest trace full h = absurd (omega (arith, full.0))
readn_loop_chunks ((b ∷ c) ∷ chunks) zero fd n got rest trace full h = absurd (omega arith)
readn_loop_chunks ((b ∷ c) ∷ chunks) (suc fuel) fd n got rest trace full h =
    let sum = length-append c (concat chunks) in
    let whole : take (length (c ++ concat chunks)) c ≡ c =
      take-all (length (c ++ concat chunks)) c (omega arith) in
    let less : suc (length (c ++ concat chunks)) - suc (length c) ≡ length (concat chunks) =
      omega arith in
    rw whole (
      ap
        (λ (m : ℕ).
          readn_loop fuel fd n m (got ++ b ∷ c)
            (record { script = bringing chunks rest; trace = read fd (b ∷ c) ∷ trace }))
        less
      ∙ readn_loop_chunks chunks fuel fd n (got ++ b ∷ c) rest (read fd (b ∷ c) ∷ trace) full.1
          (omega arith)
      ∙ rw append_assoc)

-- However the stream is cut into chunks, of a byte at least each, `readn` of its length brings the
-- whole stream, one call for a chunk, and leaves the later replies alone.
pub readn_chunks :
    (fd : ℤ) (chunks : List (List ℕ)) (rest : List Reply) (trace : List Call)
    → All (λ c. 0 < length c) chunks
    → readn fd (length (concat chunks)) (record { script = bringing chunks rest; trace = trace })
      ≡ done
          (pos (length (concat chunks)), concat chunks)
          (record { script = rest; trace = reads fd chunks trace })
unfolding readn
readn_chunks fd chunks rest trace full =
    readn_loop_chunks chunks (length (bringing chunks rest)) fd (length (concat chunks)) [] rest
      trace full (length-bringing chunks rest)
    ∙ rw minus_zero
  where
    minus_zero : length (concat chunks) - 0 ≡ length (concat chunks)
    minus_zero = omega arith
