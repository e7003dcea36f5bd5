-- ===== src/Loader/Rounds.antt =====
-- What the library of sample_lib prints, round by round.
use test_server.Base.{
  arith, Bool-cases, append_assoc, refl, ℕ, List, [], ◌∷◌, ◌++◌, Option, none, some, Bool, true,
  false, ◌≡◌, ◌⊎◌, inl, inr, All,
}
use test_server.Memory.Laws.{bind_inverse}
use test_server.Loader.{
  go_on, After, returns, behind, continues, continues, Round, Print, first, yyy, lib_main,
  lib_round, call_func, close_library, func,
}

-- A round in which nothing fails.
pub record Works (r : Round) : Type 0 where
  pub opens : r.open_error ≡ none
  pub finds : r.symbol_error ≡ none
  pub callable : r.has_func ≡ true
  pub closes : r.closes ≡ true
  pub clean : r.close_error ≡ none

-- "first." where the library was loaded, and "yyy" always.
abbrev pub round_prints : Bool → List Print
round_prints true = first ∷ yyy ∷ []
round_prints false = yyy ∷ []

abbrev pub prints_of : List Round → List Print
prints_of [] = []
prints_of (r ∷ rounds) = round_prints r.is_fresh ++ prints_of rounds

-- The library is in memory and func has run, or the first round loads it.
abbrev pub IsLoaded : ℕ → List Round → Type 0
IsLoaded count [] = count ≡ 1
IsLoaded count (r ∷ rounds) = (count ≡ 1) ⊎ (r.is_fresh ≡ true)

IsLoaded-one : (rounds : List Round) → IsLoaded 1 rounds
IsLoaded-one [] = refl
IsLoaded-one (r ∷ rounds) = inl refl

behind_nothing : (o : Option (List Print × Bool)) → o ≡ behind [] o
behind_nothing none = refl
behind_nothing (some (more, returned)) = refl

behind_both :
    (prints more : List Print) (o : Option (List Print × Bool))
    → behind prints (behind more o) ≡ behind (prints ++ more) o
behind_both prints more none = refl
behind_both prints more (some (rest, returned)) = rw append_assoc refl

lib_round-Works :
    (r : Round) (count : ℕ)
    → Works r
    → (count ≡ 1) ⊎ (r.is_fresh ≡ true)
    → lib_round r count ≡ some (round_prints r.is_fresh, continues 1)
unfolding lib_round call_func close_library func
lib_round-Works r count w at_hand =
    rw (w.opens, w.finds, w.callable, w.closes, w.clean)
      (elim (Bool-cases r.is_fresh) [
        | inl fresh ↦ rw fresh refl
        | inr still ↦ elim at_hand [ inl one ↦ rw (still, one) refl | inr fresh ↦ absurd (cc) ]
      ])

-- Rounds in which nothing fails, from one that loads the library or with the library in memory,
-- print "first." exactly where the library was loaded, and "yyy" in each; then the loop goes on
-- with what follows.
pub lib_main-prints_of :
    (rounds rest : List Round) (count : ℕ)
    → All Works rounds
    → IsLoaded count rounds
    → lib_main (rounds ++ rest) count ≡ behind (prints_of rounds) (lib_main rest 1)
unfolding lib_main
lib_main-prints_of [] rest count works one = rw one (behind_nothing (lib_main rest 1))
lib_main-prints_of (r ∷ rounds) rest count (w, works) at_hand =
    rw
      (
        lib_round-Works r count w at_hand,
        lib_main-prints_of rounds rest 1 works (IsLoaded-one rounds),
      )
      (behind_both (round_prints r.is_fresh) (prints_of rounds) (lib_main rest 1))

continues-Works :
    (r : Round) (count : ℕ) {prints : List Print} {count' : ℕ}
    → lib_round r count ≡ some (prints, continues count')
    → Works r
unfolding lib_round call_func close_library func
continues-Works r count e = record {
  opens = ground arith;
  finds = ground arith;
  callable = ground arith;
  closes = ground arith;
  clean = ground arith;
}

behind_inverse :
    (prints : List Print) (o : Option (List Print × Bool)) {all : List Print} {returned : Bool}
    → behind prints o ≡ some (all, returned)
    → (more : List Print) × (o ≡ some (more, returned))
behind_inverse prints none e = absurd (cc)
behind_inverse prints (some (more, returned)) e = (more, (cc))

-- main goes on only through rounds in which nothing fails: if it has not returned behind them, in
-- none of them anything failed.
pub lib_main-Works :
    (rounds : List Round) (count : ℕ) {prints : List Print}
    → lib_main rounds count ≡ some (prints, false)
    → All Works rounds
unfolding lib_main
lib_main-Works [] count e = tt
lib_main-Works (r ∷ rounds) count {prints} e =
    let ((said, after), stepped, rest) =
      bind_inverse (lib_round r count) (λ (said, after). go_on said after (lib_main rounds)) e in
    onward said after stepped rest λ count' more e'. lib_main-Works rounds count' e'
  where
    onward :
        (said : List Print) (after : After)
        → lib_round r count ≡ some (said, after)
        → go_on said after (lib_main rounds) ≡ some (prints, false)
        → ((count' : ℕ) (more : List Print)
            → lib_main rounds count' ≡ some (more, false)
            → All Works rounds)
        → Works r × All Works rounds
    onward said returns stepped e' again = absurd (cc)
    onward said (continues count') stepped e' again =
        let (more, rest) = behind_inverse said (lib_main rounds count') e' in
        (continues-Works r count stepped, again count' more rest)
