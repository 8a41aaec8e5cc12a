-- ===== src/Graphic/Queue/Refines.antt =====
-- What the threads of soft/graphic see of the two queues: one that is sent to and one that is received
-- from, of 19 commands each at most, which change places when a flush was requested and the second is empty.
use pret_iss.Prelude.{
  ℕ, zero, suc, ◌+◌, ◌-◌, ◌*◌, ◌%◌, ◌<◌, ◌==◌, leb, ltb, if◌then◌else◌, Bool, true, false, ◌&&◌,
  ◌≡◌, ◌≢◌, ◌⊎◌, inl, inr, refl, sym, ap, ◌∙◌, List, [], ◌∷◌, Option, none, some, length, arith,
  Bool-cases,
}
use mathlib.Core.List.{◌++◌}
use pret_iss.Graphic.Queue.{
  Command, Node, Shared, size_command_queue, put_at, set_next, link_nodes, init_queue,
  graphic_init_queue, graphic_send_command, graphic_recv_command, graphic_toggle_command_queue,
  next_command,
}
use pret_iss.Graphic.Queue.Fifo.{
  place, IsRing, IsQueue, send_room, sent-IsQueue, sent-other, send_full,
}

pub record Queues : Type 0 where
  pub sending : List Command
  pub receiving : List Command
  pub flushing : Bool

abbrev pub capacity : ℕ
capacity = 19

abbrev pub send_to : Queues → Command → Bool × Queues
send_to a c =
    if ltb (length a.sending) capacity
    then (true, record a { sending = a.sending ++ (c ∷ []) })
    else (false, a)

abbrev pub swap : Queues → Queues
swap a = record a { sending = a.receiving; receiving = a.sending }

abbrev pub receive_from : List Command → Queues → Option Command × Queues
receive_from (c ∷ l) a = (some c, record a { receiving = l })
receive_from [] a = (none, record (if a.flushing then swap a else a) { flushing = false })

-- The two indices are 0 and 1, or 1 and 0.
abbrev pub AreToggled : ℕ → ℕ → Type 0
AreToggled i j = ((i ≡ 0) × (j ≡ 1)) ⊎ ((i ≡ 1) × (j ≡ 0))

pub record Represents (s : Shared) (a : Queues) : Type 0 where
  pub toggled : AreToggled s.current_send s.current_recv
  pub sending : IsQueue s s.current_send a.sending
  pub receiving : IsQueue s s.current_recv a.receiving
  pub flushing : s.is_flushing ≡ a.flushing

next-link_nodes :
    (n i j m : ℕ) (s : Shared)
    → ((link_nodes n i j s).command_queue m).next ≡ (
        if leb (i * size_command_queue + j) m && ltb m (i * size_command_queue + j + n)
        then m + 1
        else (s.command_queue m).next)
unfolding link_nodes
next-link_nodes zero i j m s = ground arith
next-link_nodes (suc n) i j m s = ground (
  arith,
  next-link_nodes n i (j + 1) m
      (set_next s (i * size_command_queue + j) (i * size_command_queue + j + 1)),
)

queues-link_nodes :
    (n i j : ℕ) (s : Shared)
    → ((link_nodes n i j s).queue_front ≡ s.queue_front)
      × ((link_nodes n i j s).queue_end ≡ s.queue_end)
unfolding link_nodes
queues-link_nodes zero i j s = (refl, refl)
queues-link_nodes (suc n) i j s =
    queues-link_nodes n i (j + 1)
      (set_next s (i * size_command_queue + j) (i * size_command_queue + j + 1))

next-init_queue :
    (i m : ℕ) (s : Shared)
    → ((init_queue s i).command_queue m).next ≡ (
        if m == i * size_command_queue + 20 - 1
        then i * size_command_queue
        else ((link_nodes 19 i 0 s).command_queue m).next)
unfolding init_queue
next-init_queue i m s =
    put_at_next (link_nodes 19 i 0 s).command_queue (i * size_command_queue + 20 - 1) m
      (i * size_command_queue)
  where
    put_at_next :
        (nodes : ℕ → Node) (n m next : ℕ)
        → (put_at nodes n (record (nodes n) { next = next }) m).next
          ≡ (if m == n then next else (nodes m).next)
    put_at_next nodes n m next = ground arith

next_in_ring : (k : ℕ) → (k + 1) % 20 ≡ (if k % 20 == 19 then 0 else k % 20 + 1)
next_in_ring k = ground arith

ring_step :
    (r i : ℕ) (s : Shared)
    → r < 20
    → ((init_queue s i).command_queue (i * 20 + r)).next ≡ i * 20 + (if r == 19 then 0 else r + 1)
ring_step r i s h = next-init_queue i (i * 20 + r) s ∙ elim (Bool-cases (r == 19)) [
  | inl e ↦ ground arith
  | inr e ↦ ground (arith, next-link_nodes 19 i 0 (i * 20 + r) s)
]

init_queue-IsRing : (s : Shared) (i : ℕ) → IsRing (init_queue s i).command_queue i
init_queue-IsRing s i k =
    ring_step (k % 20) i s (omega arith) ∙ ap (λ (n : ℕ). i * 20 + n) (sym (next_in_ring k))

-- Setting up queue 1 leaves the nodes of queue 0.
next-before :
    (m : ℕ) (s : Shared)
    → m < 20
    → ((init_queue s 1).command_queue m).next ≡ (s.command_queue m).next
next-before m s h = next-init_queue 1 m s ∙ ground (arith, next-link_nodes 19 1 0 m s)

IsRing-before : (s : Shared) → IsRing s.command_queue 0 → IsRing (init_queue s 1).command_queue 0
IsRing-before s r k = next-before (place 0 k) s (omega arith) ∙ r k

ends-init_queue :
    (s : Shared) (i : ℕ)
    → ((init_queue s i).queue_front ≡ put_at s.queue_front i (i * size_command_queue))
      × ((init_queue s i).queue_end ≡ put_at s.queue_end i (i * size_command_queue + 1))
unfolding init_queue
ends-init_queue s i =
    let e = queues-link_nodes 19 i 0 s in
    (
      ap (λ f. put_at f i (i * size_command_queue)) e.0,
      ap (λ f. put_at f i (i * size_command_queue + 1)) e.1,
    )

abbrev pub empty_queues : Bool → Queues
empty_queues b = record { sending = []; receiving = []; flushing = b }

pub graphic_init_queue-Represents :
    (s : Shared)
    → Represents (graphic_init_queue s) (empty_queues (graphic_init_queue s).is_flushing)
unfolding graphic_init_queue
graphic_init_queue-Represents s =
    let s₀ = init_queue s 0 in
    let s₁ = init_queue s₀ 1 in
    let e₀ = ends-init_queue s 0 in
    let e₁ = ends-init_queue s₀ 1 in
    record {
      toggled = inl (refl, refl);
      sending = record {
        front = 0;
        at_front = ap (λ (f : ℕ → ℕ). f 0) e₁.0 ∙ ap (λ (f : ℕ → ℕ). f 0) e₀.0;
        at_end = ap (λ (f : ℕ → ℕ). f 0) e₁.1 ∙ ap (λ (f : ℕ → ℕ). f 0) e₀.1;
        ring = IsRing-before s₀ (init_queue-IsRing s 0);
        bounded = omega arith;
        holds = tt;
      };
      receiving = record {
        front = 0;
        at_front = ap (λ (f : ℕ → ℕ). f 1) e₁.0;
        at_end = ap (λ (f : ℕ → ℕ). f 1) e₁.1;
        ring = init_queue-IsRing s₀ 1;
        bounded = omega arith;
        holds = tt;
      };
      flushing = refl;
    }

pub AreToggled-ne : (i j : ℕ) → AreToggled i j → i ≢ j
AreToggled-ne i j (inl (p, q)) = λ e. omega (arith, p, q, e)
AreToggled-ne i j (inr (p, q)) = λ e. omega (arith, p, q, e)

-- The result is that of the two queues, and so is the state.
abbrev pub Agrees {ℓ} : {A : Type ℓ} → (A × Shared) → (A × Queues) → Type ℓ
Agrees r a = (r.0 ≡ a.0) × Represents r.1 a.1

pub send-Agrees :
    (s : Shared) (a : Queues) (c : Command)
    → Represents s a
    → Agrees (graphic_send_command s c) (send_to a c)
send-Agrees s a c r = elim (Bool-cases (ltb (length a.sending) capacity)) [
  | inl e ↦ rw e (
      rw (send_room s a.sending c r.sending (ground arith)) (
        refl,
        record {
          toggled = r.toggled;
          sending = sent-IsQueue s a.sending c r.sending (ground arith);
          receiving =
              sent-other s s.current_recv a.receiving a.sending c
                (AreToggled-ne s.current_send s.current_recv r.toggled) r.sending r.receiving;
          flushing = r.flushing;
        },
      ))
  | inr e ↦
      rw e (rw (send_full s a.sending c r.sending (ground (arith, r.sending.bounded))) (refl, r))
]

pub next_command-some :
    (s : Shared) (d : Command) (s' : Shared)
    → graphic_recv_command s ≡ (some d, s')
    → next_command s ≡ (some d, s')
unfolding next_command
next_command-some s d s' e =
    ap
      (λ (r : Option Command × Shared). elim r.0 as (λ x. Option Command × Shared) [
        | some c ↦ (some c, r.1)
        | none ↦ (
          none,
          record (if r.1.is_flushing then graphic_toggle_command_queue r.1 else r.1) {
            is_flushing = false;
          },
        )
      ])
      e
