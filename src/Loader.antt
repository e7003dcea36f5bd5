-- ===== src/Loader.antt =====
-- main of sample_lib/test_lib.cpp, which loads a library and unloads it again in each round, and
-- func of sample_lib/func.c, which is in the library and has a variable of its own.
pub mod Rounds
use test_server.Base.{
  ℕ, List, [], ◌∷◌, ◌++◌, Option, none, some, Bool, true, false, if◌then◌else◌, ◌==◌,
}
use test_server.Memory.{◌>>=◌}

-- What the dynamic linker answers in a round: the error of dlopen if it gives no handle; whether it
-- loaded the file, with its variables as they are written there, or had it still; what dlerror says
-- behind dlsym, and whether dlsym gave a function; whether dlclose returned 0, and what dlerror
-- says behind it.
pub record Round : Type 0 where
  pub open_error : Option (List ℕ)
  pub is_fresh : Bool
  pub symbol_error : Option (List ℕ)
  pub has_func : Bool
  pub closes : Bool
  pub close_error : Option (List ℕ)

-- What is printed: "first.    ", "yyy\n", "!!! %s\n" and "dlclose error.\n".
pub data Print : Type 0 where
  first : Print
  yyy : Print
  complaint : List ℕ → Print
  dlclose_error : Print

-- func: what it prints, and its count.
unfoldable pub func : ℕ → List Print × ℕ
func count = if count == 0 then (first ∷ yyy ∷ [], 1) else (yyy ∷ [], count)

-- The count that func finds.
abbrev pub loaded : Bool → ℕ → ℕ
loaded is_fresh count = if is_fresh then 0 else count

-- How a round leaves the loop: by return 0, or to the next one with a count.
pub data After : Type 0 where
  returns : After
  continues : ℕ → After

-- if (err != NULL) { printf(...); return 0; }, and what is done otherwise.
abbrev pub unless_error :
    Option (List ℕ) → Option (List Print × After) → Option (List Print × After)
unless_error none next = next
unless_error (some err) next = some (complaint err ∷ [], returns)

-- dlclose, and the second look at dlerror.
unfoldable pub close_library : Round → ℕ → Option (List Print × After)
close_library r count =
    if r.closes
    then unless_error r.close_error (some ([], continues count))
    else some (dlclose_error ∷ [], returns)

-- The call of func, which is undefined through a null pointer, and the rest of the round.
unfoldable pub call_func : Round → ℕ → Option (List Print × After)
unfolding func close_library
call_func r count =
    if r.has_func
    then (let (prints, count') = func (loaded r.is_fresh count) in
        close_library r count' >>= λ (more, after). some (prints ++ more, after))
    else none

-- One round of main's loop; `count` is that of the library in memory, if it is there.
unfoldable pub lib_round : Round → ℕ → Option (List Print × After)
unfolding call_func
lib_round r count = unless_error r.open_error (unless_error r.symbol_error (call_func r count))

-- What is printed before what the rest of the loop prints.
abbrev pub behind : List Print → Option (List Print × Bool) → Option (List Print × Bool)
behind prints none = none
behind prints (some (more, returned)) = some (prints ++ more, returned)

-- return 0, or the rest of the loop.
abbrev pub go_on :
    List Print → After → (ℕ → Option (List Print × Bool)) → Option (List Print × Bool)
go_on prints returns rest = some (prints, true)
go_on prints (continues count) rest = behind prints (rest count)

-- main, over the rounds that the linker answers, and whether it has returned then; `none` is
-- undefined.
unfoldable pub lib_main : List Round → ℕ → Option (List Print × Bool)
unfolding lib_round
lib_main [] count = some ([], false)
lib_main (r ∷ rounds) count =
    lib_round r count >>= λ (prints, after). go_on prints after (lib_main rounds)
