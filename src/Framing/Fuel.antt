-- ===== src/Framing/Fuel.antt =====
-- The reading loop of read_structs ends by itself.
use test_server.Framing.Transfer.{filled}
use test_server.Memory.{overwrite, ◌>>=◌}
use test_server.Memory.Laws.{bind_inverse}
use test_server.Framing.{advance, fetch_block, fetch_length, remaining, Block}
use test_server.Base.{
  zero, subst, Bool-cases, length, inr, sym, Bool, ◌<◌, ◌∙◌, [], ap, if◌then◌else◌, ◌∷◌, none, inl,
  Option, Option-cases, arith, false, some, true, ◌+◌, ◌≡◌, suc, ◌≤◌, List, ℕ,
}
use test_server.Base.Int.{negsuc, pos, is_positive, pos_part, ℤ}
use test_server.Framing.Structs.{load_address, Address, read_record, read_records}

remaining_less :
    (remain : ℤ) (data_length fuel : ℕ)
    → pos_part remain ≤ suc (suc fuel)
    → is_positive (remaining remain data_length) ≡ true
    → pos_part (remaining remain data_length) ≤ suc fuel
remaining_less (pos n) data_length fuel enough more = ground arith
remaining_less (negsuc n) data_length fuel enough more = ground arith

remaining_done :
    (remain : ℤ) (data_length : ℕ)
    → pos_part remain ≤ 1
    → is_positive (remaining remain data_length) ≡ false
remaining_done (pos n) data_length few = ground arith
remaining_done (negsuc n) data_length few = ground arith

abbrev last_of : Option (Address × List ℕ × Block × ℤ) → ℤ
last_of none = pos 0
last_of (some (a, table, next, left)) = left

-- What a round leaves of the count.
read_record-remaining :
    (table : List ℕ) (block : Block) (remain : ℤ) {a : Address} {table' : List ℕ} {next : Block}
    {left : ℤ}
    → read_record table block remain ≡ some (a, table', next, left)
    → (data_length : ℕ) × (left ≡ remaining remain data_length)
unfolding read_record
read_record-remaining table block remain h =
    let (data_length, e, h1) = bind_inverse (fetch_length block) _ h in
    let (bytes, e1, h2) = bind_inverse (fetch_block data_length (advance 4 block)) _ h1 in
    let (over, e2, h3) = bind_inverse (overwrite table bytes) _ h2 in
    let (address, e3, h4) = bind_inverse (load_address over) _ h3 in
    (data_length, sym (ap last_of h4))

-- What comes behind a round, by what the round gave.
abbrev branch :
    Option (List Address × List ℕ) → Address → List ℕ → Bool → Option (List Address × List ℕ)
branch rest address table more =
    let longer = (do (addresses, last) ← rest; some (address ∷ addresses, last)) in
    if more then longer else some (address ∷ [], table)

abbrev behind : ℕ → Option (Address × List ℕ × Block × ℤ) → Option (List Address × List ℕ)
behind fuel o = do
  (address, table', next, remain') ← o
  branch (read_records fuel table' next remain') address table' (is_positive remain')

-- With as many rounds as there are bytes, the loop does what it does with any more rounds: it does
-- not stop for want of fuel.
pub read_records_enough :
    (fuel extra : ℕ) (table : List ℕ) (block : Block) (remain : ℤ)
    → pos_part remain ≤ suc fuel
    → read_records (suc (fuel + extra)) table block remain
      ≡ read_records (suc fuel) table block remain
unfolding read_records
read_records_enough zero extra table block remain enough =
    elim (Option-cases (read_record table block remain)) [
      | inl out ↦ ap (behind (zero + extra)) out ∙ sym (ap (behind zero) out)
      | inr ((address, table', next, left), found) ↦
          let (data_length, e) = read_record-remaining table block remain found in
          let over : is_positive left ≡ false =
            ap is_positive e ∙ remaining_done remain data_length enough in
          ap (behind (zero + extra)) found
          ∙ (ap (branch (read_records (zero + extra) table' next left) address table') over
              ∙ (sym (ap (branch (read_records zero table' next left) address table') over)
                  ∙ sym (ap (behind zero) found)))
    ]
read_records_enough (suc fuel) extra table block remain enough =
    elim (Option-cases (read_record table block remain)) [
      | inl out ↦ ap (behind (suc fuel + extra)) out ∙ sym (ap (behind (suc fuel)) out)
      | inr ((address, table', next, left), found) ↦
          let (data_length, e) = read_record-remaining table block remain found in
          ap (behind (suc fuel + extra)) found
          ∙ (elim (Bool-cases (is_positive left)) [
            | inl more ↦
                let less : pos_part left ≤ suc fuel =
                  subst (λ l. pos_part l ≤ suc fuel) (sym e)
                    (remaining_less remain data_length fuel enough
                      (sym (ap is_positive e) ∙ more)) in
                let shift : suc fuel + extra ≡ suc (fuel + extra) = omega arith in
                ap (λ rest. branch rest address table' (is_positive left))
                  (ap (λ n. read_records n table' next left) shift
                    ∙ read_records_enough fuel extra table' next left less)
            | inr over ↦
                ap (branch (read_records (suc fuel + extra) table' next left) address table') over
                ∙ sym (ap (branch (read_records (suc fuel) table' next left) address table') over)
          ]
              ∙ sym (ap (behind (suc fuel)) found))
    ]

-- In read_structs the number of bytes is the fuel, and the count.
pub read_structs_enough :
    (extra : ℕ) (table bytes : List ℕ)
    → 0 < length bytes
    → read_records (length bytes + extra) table (filled bytes) (pos (length bytes))
      ≡ read_records (length bytes) table (filled bytes) (pos (length bytes))
read_structs_enough extra table [] some_bytes = absurd (omega arith)
read_structs_enough extra table (b ∷ bytes) some_bytes =
    let shift : suc (length bytes) + extra ≡ suc (length bytes + extra) = omega arith in
    ap (λ n. read_records n table (filled (b ∷ bytes)) (pos (suc (length bytes)))) shift
    ∙ read_records_enough (length bytes) extra table (filled (b ∷ bytes)) (pos (suc (length bytes)))
        (omega arith)
