-- ===== src/Examples/Stages.antt =====
-- Instructions, arithmetic and commits of a thread: src/core/instruction.cpp, src/core/execute.cpp and
-- src/core/except.cpp.
use pret_iss.Prelude.{
  ℕ, ◌+◌, ◌-◌, ◌*◌, ◌%◌, ◌^◌, ◌<◌, ◌==◌, true, false, ◌≡◌, refl, ◌∷◌, some, replicate, arith,
  length-replicate,
}
use pret_iss.Instruction.Enums.{Alu, MemorySize, ExceptionState}
use pret_iss.Instruction.Defs.{Instruction, initial, nop_instruction}
use pret_iss.Instruction.Decode.{decode, decode_fields}
use pret_iss.Instruction.Transfer.{read_data, get_write_data}
use pret_iss.Instruction.Fields.{sign_extend, format3, decode_fields-format3}
use pret_iss.Instruction.Control.{IsCoherent, decode-IsCoherent}
use pret_iss.Instruction.Bytes.{width, extend, read_data-get_write_data}
use pret_iss.RegisterFile.{register_file, get_reg}
use pret_iss.Thread.{HwThread, hw_thread}
use pret_iss.Execute.{multiply_step, perform_alu_operations}
use pret_iss.Execute.Flags.{
  add_flags, sub_flags, perform_alu_operations-add, perform_alu_operations-sub,
}
use pret_iss.Execute.MultiplyStep.{sign_in, multiply_step_lem}
use pret_iss.Sync.{SyncTable, free_entry}
use pret_iss.Dma.{dma}
use pret_iss.Except.{handle_exceptions, synchronise, behavior}
use pret_iss.Except.NextPc.{condition_holds, inc_pc}
use pret_iss.Except.Branch.{compares, next, seen_icc, fate, condition_holds-sub, inc_pc_lem}
use pret_iss.Except.Trap.{IsPlain, Entered, two_passes, two_passes-Entered, handle_exceptions-mode}
use pret_iss.Except.Keeps.{Returns, Sound, IsSound, behavior-Sound}

-- `ld [%o1 - 4], %o0`
decode_fields-format3_example :
    let f = decode_fields (initial (format3 3 8 0 9 1 0x1ffc)) in
    (f.op1 ≡ 3)
    × (f.rd ≡ 8)
    × (f.op3 ≡ 0)
    × (f.rs1 ≡ 9)
    × (f.use_imm ≡ (1 == 1))
    × (f.imm ≡ sign_extend 13 0x1ffc)
    × (f.rs2 ≡ 0x1ffc % 32)
decode_fields-format3_example =
    decode_fields-format3 (initial (format3 3 8 0 9 1 0x1ffc)) 3 8 0 9 1 0x1ffc (omega arith)
      (omega arith) (omega arith) (omega arith) (omega arith) (omega arith) refl

decode-IsCoherent_example : IsCoherent (decode (initial (format3 3 8 3 9 1 0)))
decode-IsCoherent_example = decode-IsCoherent (format3 3 8 3 9 1 0)

-- A load or a store of the value `v`.
abbrev access : MemorySize → ℕ → Instruction
access size v = record (nop_instruction) { memory_size = size; op3_value = v }

abbrev byte : Instruction
byte = access MemorySize.signed_byte 0x1ff

read_data-get_write_data_example :
    (read_data byte (get_write_data byte 0x11223344 1) 1).alu_result
    ≡ extend byte.memory_size (byte.op3_value % 2 ^ width byte.memory_size)
read_data-get_write_data_example =
    read_data-get_write_data byte byte 0x11223344 1 refl (omega arith) (omega arith) (omega arith)

-- A thread at 0x40001000 that has this instruction in its stages.
abbrev running : Instruction → HwThread
running i = record (hw_thread 2 0x40001000 (replicate 512 0)) { inst = i; enabled = true }

-- An operation on two words that sets the condition codes.
abbrev operation : Alu → ℕ → ℕ → Instruction
operation a x y = record (nop_instruction) {
  aluop = a;
  op1_value = x;
  op2_value = y;
  write_icc = true;
}

abbrev sum : HwThread
sum = running (operation Alu.add 0x7fffffff 1)

abbrev difference : HwThread
difference = running (operation Alu.sub 5 0xffffffff)

perform_alu_operations-add_example :
    let i = (perform_alu_operations sum).inst in
    (i.alu_result ≡ (0x7fffffff + 1 + 0) % 2 ^ 32) × (i.icc ≡ add_flags 0x7fffffff 1 0)
perform_alu_operations-add_example =
    perform_alu_operations-add sum (omega arith, omega arith, refl) refl refl

perform_alu_operations-sub_example :
    let i = (perform_alu_operations difference).inst in
    (i.alu_result ≡ (5 + 2 ^ 33 - 0xffffffff - 0) % 2 ^ 32) × (i.icc ≡ sub_flags 5 0xffffffff 0)
perform_alu_operations-sub_example =
    perform_alu_operations-sub difference (omega arith, omega arith, refl) refl refl

-- 5 is not less than -1 as a signed number.
condition_holds-sub_example :
    condition_holds 3 (perform_alu_operations difference).inst.icc ≡ compares 3 5 0xffffffff
condition_holds-sub_example =
    condition_holds-sub difference 3 (omega arith, omega arith, refl) refl refl refl (omega arith)

multiply_step_lem_example :
    let (shifted, rsd, y') = multiply_step 6 9 5 0x8 in
    (rsd < 2 ^ 32)
    × (y' < 2 ^ 32)
    × ((2 * (rsd * 2 ^ 32 + y') + 5 % 2) % 2 ^ 65
        ≡ ((sign_in 0x8 * 2 ^ 32 + 6 + 2 * (5 % 2 * 9)) * 2 ^ 32 + 5) % 2 ^ 65)
multiply_step_lem_example =
    multiply_step_lem 6 9 5 0x8 (omega arith) (omega arith) (omega arith) (omega arith)

-- `bne` 64 bytes ahead, with the Z flag clear.
abbrev branching : HwThread
branching =
    running (record (nop_instruction) { branch = true; conditional_branch = 9; disp22 = 16 })

inc_pc_lem_example : fate (inc_pc branching) ≡ some (next (seen_icc branching) branching)
unfolding hw_thread
inc_pc_lem_example =
    inc_pc_lem branching (omega arith) refl refl
      (record { call_alone = λ e. cc; jump_alone = λ e. cc })

-- A missed deadline, type 0x70 + 2, with traps enabled.
abbrev missed : HwThread
missed =
    let t = running (nop_instruction) in
    record t {
      trapped = ExceptionState.trapped;
      trap_type = 0x72;
      spec_regs = record (t.spec_regs) { et = true; tbr = 0x40000000 };
    }

abbrev is_plain : IsPlain (nop_instruction)
is_plain = record { selects_result = refl; no_sync = refl; no_rett = refl }

abbrev table : SyncTable
table = replicate 6 free_entry

two_passes-Entered_example :
    (u : HwThread) × (two_passes missed (nop_instruction) dma table ≡ some u) × Entered missed u
unfolding hw_thread register_file
two_passes-Entered_example =
    two_passes-Entered missed (nop_instruction) dma table is_plain is_plain refl refl
      (record { globals = refl; windows = length-replicate {A = ℕ} 512 0 })

handle_exceptions-mode_example :
    let r = (handle_exceptions missed).1.spec_regs in
    (r.s ≡ missed.spec_regs.s) × (r.ps ≡ missed.spec_regs.ps) × (r.et ≡ true)
handle_exceptions-mode_example = handle_exceptions-mode missed

abbrev waiting : HwThread
waiting = record branching { memory_stalled = true }

-- `sync` on the threads 1 and 2, which opens a row.
abbrev syncing : HwThread
syncing = running (record (nop_instruction) { sync_instruction = true; imm = 0b110 })

abbrev opened : SyncTable
opened = record { mask = 0b110; waiting = 0b110; passed = 0 } ∷ replicate 5 free_entry

sound : IsSound syncing.regs
unfolding hw_thread register_file get_reg
sound = record {
  sized = record { globals = refl; windows = length-replicate {A = ℕ} 512 0 };
  zero_reads_zero = λ wp. refl;
}

behavior-Sound_example : Returns Sound (behavior syncing dma table)
unfolding synchronise hw_thread
behavior-Sound_example = behavior-Sound syncing dma table (false, opened) refl (λ e. refl) sound
