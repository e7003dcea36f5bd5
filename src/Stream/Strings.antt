-- ===== src/Stream/Strings.antt =====
-- `write_string` and `read_string` of sample_socket/test_server.cpp and
-- sample_client/test_client.cpp. `readn` and `writen` are those of the ironman library, which is
-- not part of the repository: they are parameters.
use test_server.Memory.{store, fetch}
use test_server.Stream.{
  parse_loop, finished, unfinished, Parsing, packet_length, serialize, buffer_length, strncpy_self,
}
use test_server.Base.{zero, ltb, if◌then◌else◌, ◌++◌, take, ◌-◌, [], suc, replicate, ℕ, List}
use test_server.Base.Int.{is_negative, minus_one, is_zero, to_size, ◌+ℤ◌, negsuc, pos, ℤ}
use test_server.Os.{pure, undefined, starve, checked, M, ◌>>=◌}

module _ (readn : ℤ → ℕ → M (ℤ × List ℕ)) where
  -- The loop of `read_string`: the result, and what was printed. `count_used` bytes of the block
  -- are kept from the round before.
  unfoldable pub read_string_loop : ℕ → ℤ → List ℕ → ℤ → ℤ → List (List ℕ) → M (ℤ × List (List ℕ))
  unfolding strncpy_self
  read_string_loop zero fd block count_used total texts = starve
  read_string_loop (suc fuel) fd block (negsuc k) total texts = undefined
  read_string_loop (suc fuel) fd block (pos count_used) total texts =
      readn fd (buffer_length - count_used) >>= λ (count, bytes).
      let cleared = take count_used block ++ replicate (buffer_length - count_used) 0 in
      let used = pos count_used +ℤ count in
      let after : Parsing → List ℕ → M (ℤ × List (List ℕ)) = λ parsing buffer. elim parsing [
        | unfinished more ↦ starve
        | finished more left ↦ checked (strncpy_self (to_size left) buffer) >>= λ kept.
            let again = read_string_loop fuel fd kept left (total +ℤ left) (texts ++ more) in
            if is_zero left then pure (total +ℤ left, texts ++ more) else again
      ] in
      let parsing = checked (store count_used cleared bytes) >>= λ buffer.
      checked (parse_loop fuel buffer 0 used) >>= λ parsing. after parsing buffer in
      let full = if ltb buffer_length (to_size used) then pure (minus_one, texts) else parsing in
      if is_zero count
      then pure (total, texts)
      else if is_negative count
      then pure (minus_one, texts)
      else full

  -- int read_string(int fd), in at most `fuel` rounds of either loop.
  unfoldable pub read_string : ℕ → ℤ → M (ℤ × List (List ℕ))
  unfolding read_string_loop
  read_string fuel fd = read_string_loop fuel fd (replicate buffer_length 0) (pos 0) (pos 0) []

-- int write_string(int fd), for its message.
unfoldable pub write_string : (ℤ → List ℕ → M ℤ) → List ℕ → ℤ → M ℤ
write_string writen msg fd =
    checked (serialize (replicate (packet_length msg) 0) msg) >>= λ (buffer, length2).
    checked (fetch length2 buffer) >>= λ bytes. writen fd bytes
