-- ===== src/Load/Threads/Failures.antt =====
-- When `parse_srec_files` of src/core/hw_thread_controller.cpp cannot load a thread.
use pret_iss.Prelude.{ℕ, ◌≡◌, ◌≢◌, ◌↔◌, refl, Option, none, some, arith}
use pret_iss.Memory.Unit.{MemoryUnit}
use pret_iss.Memory.Scratch.{L1Scratch}
use pret_iss.Load.Scan.{Text}
use pret_iss.Load.Srec.{SrecParser, Parsed, parsed, assertion, out_of_fuel, parse}
use pret_iss.Load.Srec.Ends.{parse-ends}
use pret_iss.Load.Bounds.{load_inst_spm, load_data_spm, load_spm, half}
use pret_iss.Load.Bounds.Slots.{Loaded, load_spm-Loaded}
use pret_iss.Load.Threads.{ThreadFiles, Loading, started, with_spms, load_thread}

Loaded-some : (start : ℕ) (s : L1Scratch) (o : Option L1Scratch) → Loaded start s o → o ≢ none
Loaded-some start s none h = elim h [ ]
Loaded-some start s (some t) h = λ e. cc

load_inst_spm-some :
    (s : L1Scratch) (m : MemoryUnit) (file : Option Text) → load_inst_spm s m file ≢ none
unfolding load_inst_spm
load_inst_spm-some s m file =
    Loaded-some 0 s (load_spm s m file 0) (load_spm-Loaded 0 s m file (omega arith))

load_data_spm-some :
    (s : L1Scratch) (m : MemoryUnit) (file : Option Text) → load_data_spm s m file ≢ none
unfolding load_data_spm
load_data_spm-some s m file =
    Loaded-some half s (load_spm s m file half) (load_spm-Loaded half s m file (omega arith))

then_some :
    (o : Option L1Scratch) (f : L1Scratch → Option Loading)
    → o ≢ none
    → ((s : L1Scratch) → f s ≢ none)
    → elim o as (λ x. Option Loading) [ none ↦ none | some s ↦ f s ] ≢ none
then_some none f h step = absurd (h refl)
then_some (some s) f h step = step s

pub with_spms-some :
    (i start : ℕ) (f : ThreadFiles) (p : SrecParser) (l : Loading) → with_spms i f start p l ≢ none
unfolding with_spms
with_spms-some i start f p l =
    then_some (load_inst_spm (l.spms i) p.mem f.ispm) _ (load_inst_spm-some (l.spms i) p.mem f.ispm)
      (λ s.
        then_some (load_data_spm s p.mem f.dspm) (λ t. some (started i start p t l))
          (load_data_spm-some s p.mem f.dspm) (λ t e. cc))

result_lem :
    (r : Parsed) (f : SrecParser → Option Loading)
    → r ≢ out_of_fuel
    → ((p : SrecParser) → f p ≢ none)
    → (elim r as (λ x. Option Loading) [ parsed p ↦ f p | assertion ↦ none | out_of_fuel ↦ none ]
        ≡ none)
      ↔ (r ≡ assertion)
result_lem (parsed p) f h step = ((λ e. absurd (step p e)), λ e. cc)
result_lem assertion f h step = ((λ e. refl), λ e. refl)
result_lem out_of_fuel f h step = absurd (h refl)

-- Loading a thread fails for one reason alone: an assertion of the SREC parser. ThreadFiles that are missing,
-- malformed bounds and an overloaded scratchpad do not stop it.
pub load_thread-fails :
    (i : ℕ) (f : ThreadFiles) (l : Loading)
    → (load_thread i f l ≡ none) ↔ ((parse l.parser f.srec).0 ≡ assertion)
unfolding load_thread
load_thread-fails i f l =
    result_lem (parse l.parser f.srec).0 (λ p. with_spms i f (parse l.parser f.srec).1 p l)
      (parse-ends l.parser f.srec) (λ p. with_spms-some i (parse l.parser f.srec).1 f p l)
