-- ===== src/Examples/Loading.antt =====
-- Loading and the command queues: src/core/srec_parser.cpp, src/core/static_bound_parser.cpp,
-- src/core/hw_thread_controller.cpp and soft/graphic/graphic_cmd_queue.c.
use pret_iss.Prelude.{
  ℕ, ◌+◌, ◌*◌, ◌<◌, ◌≡◌, ◌≢◌, ◌↔◌, refl, true, false, List, [], ◌∷◌, none, some, replicate, arith,
  inl,
}
use pret_iss.Memory.Unit.{read_word}
use pret_iss.Memory.Scratch
use pret_iss.Memory.Scratch.{L1Scratch, l1_scratch, is_addr_in_spm, add_addr}
use pret_iss.Memory.Wheel.{num_threads}
use pret_iss.Load.Scan.{Text, skip_space, unsigned_hex}
use pret_iss.Load.Srec.{SrecParser, parsed, assertion, out_of_fuel, parse}
use pret_iss.Load.Srec.Ends.{parse-ends}
use pret_iss.Load.Srec.Print.{Record, print_image, store_image}
use pret_iss.Load.Srec.Files.{parse-print_image}
use pret_iss.Load.Bounds.{half, load_spm, extract, extract_word, getlines}
use pret_iss.Load.Bounds.Keeps.{Spared, Keeps, load_spm-Keeps}
use pret_iss.Load.Bounds.Ranges.{print_range, load_spm-resident}
use pret_iss.Thread.{hw_thread}
use pret_iss.Load.Threads.{
  ThreadFiles, Loading, hw_thread_controller, load_thread, parse_srec_files,
}
use pret_iss.Load.Threads.Stacks.{HasStack, IfLoaded, parse_srec_files-HasStack}
use pret_iss.Load.Threads.Failures.{load_thread-fails}
use pret_iss.Load.Threads.Images.{load_thread-image}
use pret_iss.Graphic.Queue.{Command, Shared, graphic_init_queue}
use pret_iss.Graphic.Queue.Refines.{empty_queues}
use pret_iss.Graphic.Queue.Runs.{Action, send, next, flush, answers, answers_of, init-refines}

abbrev fresh : SrecParser
fresh = record { starting_addr = 0x40000000; mem = []; input = [] }

-- A header record whose data is cut off.
abbrev header : Text
header = b'S' ∷ b'0' ∷ b'0' ∷ b'3' ∷ 10 ∷ []

parse-ends_example : (parse fresh (some header)).0 ≢ out_of_fuel
parse-ends_example = parse-ends fresh (some header)

abbrev image : List Record
image =
    record { addr = 0x40000000; words = 0x9de3bfa0 ∷ 0x01000000 ∷ []; checksum = 0xaf }
    ∷ record { addr = 0x40100000; words = 0x81c7e008 ∷ []; checksum = 0 }
    ∷ []

abbrev stored : SrecParser
stored = record { starting_addr = 0x40000000; mem = store_image [] image; input = [] }

parse-print_image_example :
    parse fresh (some (print_image image 0x40000000 0xba)) ≡ (parsed stored, 0x40000000)
parse-print_image_example =
    parse-print_image image fresh 0x40000000 0xba (omega arith) (omega arith) (omega arith)

-- Slot 2 of the first half holds an address outside the range that is loaded into the second.
abbrev held : L1Scratch
held = add_addr l1_scratch 0x40200000 8 7

held-Spared : Spared half 0x40200000 held
unfolding add_addr l1_scratch
held-Spared slot lo hi = ground (arith, lo)

load_spm-Keeps_example :
    Keeps 2 0x40200000 held
      (load_spm held stored.mem (some (print_range 0x40000000 0x40000008)) half)
unfolding extract extract_word skip_space unsigned_hex getlines
load_spm-Keeps_example =
    load_spm-Keeps half 2 0x40200000 held stored.mem (some (print_range 0x40000000 0x40000008))
      (omega arith) (inl (omega arith)) (inl (omega arith), tt) held-Spared

load_spm-resident_example :
    (t : L1Scratch) × (load_spm l1_scratch stored.mem
        (some (print_range 0x40000000 (0x40000000 + 4 * 2)))
        half
      ≡ some t)
    × (is_addr_in_spm t (0x40000000 + 4 * 1) ≡ true)
    × (Scratch.read t (0x40000000 + 4 * 1) ≡ read_word stored.mem (0x40000000 + 4 * 1))
unfolding l1_scratch
load_spm-resident_example =
    load_spm-resident l1_scratch stored.mem half 0x40000000 2 1 (omega arith) (omega arith)
      (omega arith) (omega arith) (λ i h j k e. ground arith) (omega arith)

abbrev files : ThreadFiles
files = record { srec = some (print_image image 0x40000000 0xba); ispm = none; dspm = some [] }

abbrev loading : Loading
loading = record {
  controller = hw_thread_controller (λ i. replicate 512 0);
  parser = fresh;
  spms = λ i. l1_scratch;
}

parse_srec_files-HasStack_example :
    IfLoaded
      (λ l. (j : ℕ) → j < num_threads → HasStack j (l.controller.pool j))
      (parse_srec_files 0 (replicate 6 files) loading)
unfolding hw_thread_controller hw_thread
parse_srec_files-HasStack_example =
    parse_srec_files-HasStack (replicate 6 files) loading refl
      (λ j. record { globals = refl; windows = refl })

load_thread-fails_example :
    (load_thread 2 files loading ≡ none) ↔ ((parse loading.parser files.srec).0 ≡ assertion)
load_thread-fails_example = load_thread-fails 2 files loading

load_thread-image_example :
    (l : Loading) × (load_thread 2 files loading ≡ some l)
    × ((l.controller.pool 2).pc ≡ 0x40000000)
    × (l.parser.mem ≡ store_image [] image)
load_thread-image_example =
    load_thread-image 2 files loading image 0x40000000 0xba refl (omega arith) (omega arith)
      (omega arith)

abbrev memory : Shared
memory = record {
  command_queue = λ i. record { next = 0; command = record { command_type = 0; arg = [] } };
  queue_front = λ i. 0;
  queue_end = λ i. 0;
  current_send = 0;
  current_recv = 0;
  is_flushing = false;
}

abbrev dot : Command
dot = record { command_type = 0; arg = 1 ∷ 3 ∷ 3 ∷ 1 ∷ 2 ∷ [] }

abbrev actions : List Action
actions = send dot ∷ next ∷ flush ∷ next ∷ next ∷ []

init-refines_example :
    answers actions (graphic_init_queue memory)
    ≡ answers_of actions (empty_queues (graphic_init_queue memory).is_flushing)
init-refines_example = init-refines actions memory
