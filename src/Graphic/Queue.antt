-- ===== src/Graphic/Queue.antt =====
-- The command queues of soft/graphic/graphic_cmd_queue.c, at fixed places of the memory that the threads
-- share (soft/graphic/global_variable.c). A pointer into `_command_queue` is the index of a node.
pub mod Fifo
pub mod Refines
pub mod Runs
use pret_iss.Prelude.{
  ℕ, zero, suc, ◌+◌, ◌-◌, ◌*◌, ◌==◌, ltb, if◌then◌else◌, Bool, true, false, List, [], Option, none,
  some, bit_xor,
}

-- The numbers of `GRAPHIC_COMMAND_TYPE`, and an array of 10 words.
pub record Command : Type 0 where
  pub command_type : ℕ
  pub arg : List ℕ

-- `struct Graphic_command_list`
pub record Node : Type 0 where
  pub next : ℕ
  pub command : Command

pub record Shared : Type 0 where
  pub command_queue : ℕ → Node
  pub queue_front : ℕ → ℕ
  pub queue_end : ℕ → ℕ
  pub current_send : ℕ
  pub current_recv : ℕ
  pub is_flushing : Bool

abbrev pub size_command_queue : ℕ
size_command_queue = 20

abbrev pub n_command_queue : ℕ
n_command_queue = 2

abbrev pub put_at {ℓ} : {A : Type ℓ} → (ℕ → A) → ℕ → A → ℕ → A
put_at f i v j = if j == i then v else f j

abbrev pub set_next : Shared → ℕ → ℕ → Shared
set_next s i next = record s {
  command_queue = put_at s.command_queue i (record (s.command_queue i) { next = next });
}

-- The inner loop: node `j` of queue `i` and those after it, `n` in number, point to the next.
unfoldable pub link_nodes : ℕ → ℕ → ℕ → Shared → Shared
link_nodes zero i j s = s
link_nodes (suc n) i j s =
    link_nodes n i (j + 1)
      (set_next s (i * size_command_queue + j) (i * size_command_queue + j + 1))

unfoldable pub init_queue : Shared → ℕ → Shared
unfolding link_nodes
init_queue s i =
    let base = i * size_command_queue in
    let s' =
      set_next (link_nodes (size_command_queue - 1) i 0 s) (base + size_command_queue - 1) base in
    record s' {
      queue_front = put_at s'.queue_front i base;
      queue_end = put_at s'.queue_end i (base + 1);
    }

unfoldable pub graphic_init_queue : Shared → Shared
unfolding init_queue
graphic_init_queue s = record (init_queue (init_queue s 0) 1) { current_send = 0; current_recv = 1 }

unfoldable pub graphic_send_command : Shared → Command → Bool × Shared
graphic_send_command s p_command =
    let q = s.current_send in
    let temp = s.queue_end q in
    if s.queue_end q == s.queue_front q then (false, s) else (
      true,
      record s {
        command_queue =
            put_at s.command_queue temp (record (s.command_queue temp) { command = p_command });
        queue_end = put_at s.queue_end q (s.command_queue temp).next;
      },
    )

-- The command that is received, if there is one.
unfoldable pub graphic_recv_command : Shared → Option Command × Shared
graphic_recv_command s =
    let q = s.current_recv in
    let next = (s.command_queue (s.queue_front q)).next in
    if next == s.queue_end q then (none, s) else (
      some (s.command_queue next).command,
      record s { queue_front = put_at s.queue_front q next },
    )

unfoldable pub graphic_toggle_command_queue : Shared → Shared
graphic_toggle_command_queue s = record s {
  current_send = bit_xor s.current_send 1;
  current_recv = bit_xor s.current_recv 1;
}

-- The head of the driver's loop in soft/graphic/thread2.c: the next command, or else, if the other thread
-- waits in `graphic_flush_recv_command_queue`, the queues are toggled and it goes on.
unfoldable pub next_command : Shared → Option Command × Shared
unfolding graphic_recv_command graphic_toggle_command_queue
next_command s =
    let (got, s') = graphic_recv_command s in
    elim got [
      | some c ↦ (some c, s')
      | none ↦ (
        none,
        record (if s'.is_flushing then graphic_toggle_command_queue s' else s') {
          is_flushing = false;
        },
      )
    ]

-- What `graphic_flush_recv_command_queue` writes before it waits for the flag to be cleared.
abbrev pub request_flush : Shared → Shared
request_flush s = record s { is_flushing = true }
