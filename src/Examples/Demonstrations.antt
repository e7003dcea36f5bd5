-- ===== src/Examples/Demonstrations.antt =====
-- An interleaving of sample_thread/test_thread2.cpp, rounds of sample_lib, and the blocks of
-- sample_protocol.
use test_server.Base.{List, [], ◌∷◌, ◌++◌, none, some, true, false, ◌≡◌, refl, codes, inr}
use test_server.Counting.{MainPc, Turn, main_turn, work_turn, run, step, start}
use test_server.Loader.{Round, lib_main, behind}
use test_server.Loader.Rounds.{lib_main-prints_of, prints_of, Works}

abbrev turns : List Turn
turns =
    main_turn ∷ work_turn ∷ work_turn ∷ main_turn ∷ main_turn ∷ work_turn ∷ main_turn ∷ main_turn
    ∷ []

turns_return : (run true turns start).main ≡ MainPc.returned
unfolding run step
turns_return = refl

run_output : (run true turns start).output ≡ 3 ∷ 2 ∷ []
unfolding run step
run_output = refl

-- A library that is loaded anew, and one that has stayed in memory.
abbrev fresh_round : Round
fresh_round = record {
  open_error = none;
  is_fresh = true;
  symbol_error = none;
  has_func = true;
  closes = true;
  close_error = none;
}

abbrev kept_round : Round
kept_round = record {
  open_error = none;
  is_fresh = false;
  symbol_error = none;
  has_func = true;
  closes = true;
  close_error = none;
}

abbrev lost_round : Round
lost_round = record {
  open_error = some (codes "no such file");
  is_fresh = false;
  symbol_error = none;
  has_func = true;
  closes = true;
  close_error = none;
}

fresh_round-Works : Works fresh_round
fresh_round-Works = record {
  opens = refl;
  finds = refl;
  callable = refl;
  closes = refl;
  clean = refl;
}

kept_round-Works : Works kept_round
kept_round-Works = record {
  opens = refl;
  finds = refl;
  callable = refl;
  closes = refl;
  clean = refl;
}

lib_main-prints_of_example :
    lib_main ((fresh_round ∷ kept_round ∷ []) ++ lost_round ∷ []) 7
    ≡ behind (prints_of (fresh_round ∷ kept_round ∷ [])) (lib_main (lost_round ∷ []) 1)
lib_main-prints_of_example =
    lib_main-prints_of (fresh_round ∷ kept_round ∷ []) (lost_round ∷ []) 7
      (fresh_round-Works, (kept_round-Works, tt)) (inr refl)
