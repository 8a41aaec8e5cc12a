-- ===== src/Instruction/Control.antt =====
-- The control signals that `decode` raises, for every word.
use pret_iss.Prelude.{ℕ, ◌==◌, ◌≡◌, ◌≢◌, refl, sym, ap, ◌∙◌, true, false, ◌&&◌, not, ◌||◌, arith}
use pret_iss.Instruction.Enums.{
  SregMux, Op1, Op2, Op3Arithmetic, Op3Memory, op1_of, op2_of, op3_arithmetic_of, op3_memory_of,
}
use pret_iss.Instruction.Defs.{Instruction, initial}
use pret_iss.Instruction.Decode.{
  decode_arithmetic, decode_memory, decode_sethi_branches, decode_fields, dispatch, protect_g0,
  decode,
}

-- One round of `decode` with the opcodes given.
abbrev round_sethi : Op2 → Instruction → Instruction
round_sethi c i = protect_g0 (decode_sethi_branches c (decode_fields i))

abbrev round_memory : Op3Memory → Instruction → Instruction
round_memory c i = protect_g0 (decode_memory c (decode_fields i))

abbrev round_arithmetic : Op3Arithmetic → Instruction → Instruction
round_arithmetic c i = protect_g0 (decode_arithmetic c (decode_fields i))

round_sethi_twice : (c : Op2) (i : Instruction) → round_sethi c (round_sethi c i) ≡ round_sethi c i
unfolding protect_g0 decode_sethi_branches decode_fields
round_sethi_twice Op2.sethi i = ground arith
round_sethi_twice _ i = ground arith

round_memory_twice :
    (c : Op3Memory) (i : Instruction) → round_memory c (round_memory c i) ≡ round_memory c i
unfolding protect_g0 decode_memory decode_fields
round_memory_twice Op3Memory.ld i = ground arith
round_memory_twice _ i = ground arith

round_arithmetic_twice :
    (c : Op3Arithmetic) (i : Instruction)
    → round_arithmetic c (round_arithmetic c i) ≡ round_arithmetic c i
unfolding protect_g0 decode_arithmetic decode_fields
round_arithmetic_twice Op3Arithmetic.add i = ground arith
round_arithmetic_twice _ i = ground arith

-- The word, and so the opcodes, stay.
inst-round_sethi : (c : Op2) (i : Instruction) → (round_sethi c i).inst ≡ i.inst
unfolding protect_g0 decode_sethi_branches decode_fields
inst-round_sethi Op2.sethi i = refl
inst-round_sethi _ i = refl

inst-round_memory : (c : Op3Memory) (i : Instruction) → (round_memory c i).inst ≡ i.inst
unfolding protect_g0 decode_memory decode_fields
inst-round_memory Op3Memory.ld i = refl
inst-round_memory _ i = refl

inst-round_arithmetic : (c : Op3Arithmetic) (i : Instruction) → (round_arithmetic c i).inst ≡ i.inst
unfolding protect_g0 decode_arithmetic decode_fields
inst-round_arithmetic Op3Arithmetic.add i = refl
inst-round_arithmetic _ i = refl

-- The opcodes are functions of the word.
opcodes_of_inst :
    (i j : Instruction)
    → i.inst ≡ j.inst
    → ((decode_fields i).op1 ≡ (decode_fields j).op1)
      × ((decode_fields i).op2 ≡ (decode_fields j).op2)
      × ((decode_fields i).op3 ≡ (decode_fields j).op3)
unfolding decode_fields
opcodes_of_inst i j e = ground arith

abbrev round : Op1 → Instruction → Instruction
round c i = protect_g0 (dispatch c (decode_fields i))

inst-round : (c : Op1) (i : Instruction) → (round c i).inst ≡ i.inst
unfolding dispatch
inst-round Op1.call i = unfold protect_g0 decode_fields in refl
inst-round Op1.sethi_branches i = inst-round_sethi (op2_of (decode_fields i).op2) i
inst-round Op1.memory i = inst-round_memory (op3_memory_of (decode_fields i).op3) i
inst-round Op1.arithmetic_etc i = inst-round_arithmetic (op3_arithmetic_of (decode_fields i).op3) i
inst-round (Op1.other n) i = unfold protect_g0 decode_fields in refl

round_twice : (c : Op1) (i : Instruction) → round c (round c i) ≡ round c i
unfolding dispatch
round_twice Op1.call i = unfold protect_g0 decode_fields in refl
round_twice Op1.sethi_branches i =
    let c = op2_of (decode_fields i).op2 in
    let e = opcodes_of_inst (round_sethi c i) i (inst-round_sethi c i) in
    ap (λ n. round_sethi (op2_of n) (round_sethi c i)) e.1 ∙ round_sethi_twice c i
round_twice Op1.memory i =
    let c = op3_memory_of (decode_fields i).op3 in
    let e = opcodes_of_inst (round_memory c i) i (inst-round_memory c i) in
    ap (λ n. round_memory (op3_memory_of n) (round_memory c i)) e.2 ∙ round_memory_twice c i
round_twice Op1.arithmetic_etc i =
    let c = op3_arithmetic_of (decode_fields i).op3 in
    let e = opcodes_of_inst (round_arithmetic c i) i (inst-round_arithmetic c i) in
    ap (λ n. round_arithmetic (op3_arithmetic_of n) (round_arithmetic c i)) e.2
    ∙ round_arithmetic_twice c i
round_twice (Op1.other n) i = unfold protect_g0 decode_fields in ground arith

-- Decoding an instruction again changes nothing.
pub decode-decode : (i : Instruction) → decode (decode i) ≡ decode i
decode-decode i =
    let c = op1_of (decode_fields i).op1 in
    let e = opcodes_of_inst (round c i) i (inst-round c i) in
    ap decode (once i refl) ∙ once (round c i) (ap op1_of e.0) ∙ round_twice c i ∙ sym (once i refl)
  where
    once : (j : Instruction) {c : Op1} → op1_of (decode_fields j).op1 ≡ c → decode j ≡ round c j
    once j e = unfold decode in ap (λ c. round c j) e

-- What the later stages take for granted of the control signals.
pub record IsCoherent (d : Instruction) : Type 0 where
  pub not_both : (d.read_memory && d.write_memory) ≡ false
  pub load_writes_register : d.read_memory ≡ true → d.write_registers ≡ not (d.rd == 0)
  pub store_writes_no_register : d.write_memory ≡ true → d.write_registers ≡ false
  pub one_destination : (d.write_registers && d.write_special_registers) ≡ false
  pub one_transfer : (d.branch && (d.call || d.jump) || d.call && d.jump) ≡ false
  pub double_accesses_memory :
      d.db_word_instruction ≡ true → (d.read_memory || d.write_memory) ≡ true
  pub g0_protected : d.write_registers ≡ true → d.rd ≢ 0
  pub unimplemented_is_inert :
      d.unimplemented ≡ true
      → (d.write_registers || d.write_memory || d.read_memory || d.write_special_registers
          || d.write_icc || d.branch || d.call || d.jump || d.is_rett || d.sync_instruction
          || d.db_word_instruction)
        ≡ false
  pub unimplemented_selects_nothing :
      d.unimplemented ≡ true
      → (d.select_special_register ≡ SregMux.none) × (d.increment_window_pointer ≡ 0)

IsCoherent-sethi : (c : Op2) (w : ℕ) → IsCoherent (round_sethi c (initial w))
unfolding protect_g0 decode_sethi_branches decode_fields
IsCoherent-sethi Op2.sethi w = ground arith
IsCoherent-sethi _ w = ground arith

IsCoherent-memory : (c : Op3Memory) (w : ℕ) → IsCoherent (round_memory c (initial w))
unfolding protect_g0 decode_memory decode_fields
IsCoherent-memory Op3Memory.ld w = ground arith
IsCoherent-memory _ w = ground arith

IsCoherent-arithmetic : (c : Op3Arithmetic) (w : ℕ) → IsCoherent (round_arithmetic c (initial w))
unfolding protect_g0 decode_arithmetic decode_fields
IsCoherent-arithmetic Op3Arithmetic.add w = ground arith
IsCoherent-arithmetic _ w = ground arith

IsCoherent-round : (c : Op1) (w : ℕ) → IsCoherent (round c (initial w))
unfolding dispatch
IsCoherent-round Op1.call w = unfold protect_g0 decode_fields in ground arith
IsCoherent-round Op1.sethi_branches w = IsCoherent-sethi (op2_of (decode_fields (initial w)).op2) w
IsCoherent-round Op1.memory w = IsCoherent-memory (op3_memory_of (decode_fields (initial w)).op3) w
IsCoherent-round Op1.arithmetic_etc w =
    IsCoherent-arithmetic (op3_arithmetic_of (decode_fields (initial w)).op3) w
IsCoherent-round (Op1.other n) w = unfold protect_g0 decode_fields in ground arith

-- For every machine word, the decoded signals are coherent: no load is a store, a load writes its
-- register unless that is register 0, a store writes none, no instruction writes both a register and
-- a special register, at most one of branch, call and jump is raised, only loads and stores are
-- double words, register 0 is never written, and an unimplemented word raises none of these signals,
-- sets no condition codes, returns from no trap, waits for no thread, selects no special register and
-- moves no window.
pub decode-IsCoherent : (w : ℕ) → IsCoherent (decode (initial w))
unfolding decode
decode-IsCoherent w = IsCoherent-round (op1_of (decode_fields (initial w)).op1) w
