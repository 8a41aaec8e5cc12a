-- ===== src/Graphic/Queue/Fifo.antt =====
-- The two queues as bounded first-in-first-out queues.
use pret_iss.Prelude.{
  ℕ, ◌+◌, ◌-◌, ◌*◌, ◌%◌, ◌≤◌, ◌<◌, ◌==◌, true, false, ◌≡◌, ◌≢◌, refl, sym, ap, ◌∙◌, List, [], ◌∷◌,
  Option, none, some, length, arith, ==_iff, ==_refl,
}
use mathlib.Core.List.{◌++◌}
use pret_iss.Graphic.Queue.{
  Command, Node, Shared, size_command_queue, put_at, graphic_send_command, graphic_recv_command,
}

-- Node `k` places along the ring of queue `q`.
abbrev pub place : ℕ → ℕ → ℕ
place q k = q * size_command_queue + k % size_command_queue

-- The ring is closed.
abbrev pub IsRing : (ℕ → Node) → ℕ → Type 0
IsRing nodes q = (k : ℕ) → (nodes (place q k)).next ≡ place q (k + 1)

-- From the node `k` on the ring holds these commands.
abbrev pub Holds : (ℕ → Node) → ℕ → ℕ → List Command → Type 0
Holds nodes q k [] = Unit {0}
Holds nodes q k (c ∷ l) = ((nodes (place q k)).command ≡ c) × Holds nodes q (k + 1) l

-- Queue `q` holds these commands, 19 at most, from the node after the front to the one before the end.
pub record IsQueue (s : Shared) (q : ℕ) (l : List Command) : Type 0 where
  pub front : ℕ
  pub at_front : s.queue_front q ≡ place q front
  pub at_end : s.queue_end q ≡ place q (front + 1 + length l)
  pub ring : IsRing s.command_queue q
  pub bounded : length l ≤ size_command_queue - 1
  pub holds : Holds s.command_queue q (front + 1) l

pub put_at_self {ℓ} : {A : Type ℓ} (f : ℕ → A) (i : ℕ) (v : A) → put_at f i v i ≡ v
put_at_self f i v = rw (==_refl i) refl

pub put_at_other {ℓ} : {A : Type ℓ} (f : ℕ → A) (i j : ℕ) (v : A) → i ≢ j → put_at f i v j ≡ f j
put_at_other f i j v h = ground (arith, h)

-- A node with another command.
abbrev pub with_command : (ℕ → Node) → ℕ → Command → ℕ → Node
with_command nodes n c = put_at nodes n (record (nodes n) { command = c })

next-with_command :
    (nodes : ℕ → Node) (n i : ℕ) (c : Command) → (with_command nodes n c i).next ≡ (nodes i).next
next-with_command nodes n i c = ground (arith, ==_iff i n)

IsRing-with_command :
    (nodes : ℕ → Node) (q n : ℕ) (c : Command) → IsRing nodes q → IsRing (with_command nodes n c) q
IsRing-with_command nodes q n c r k = next-with_command nodes n (place q k) c ∙ r k

Holds-with_command :
    (l : List Command) (nodes : ℕ → Node) (q k n : ℕ) (c : Command)
    → ((j : ℕ) → k ≤ j → j < k + length l → place q j ≢ n)
    → Holds nodes q k l
    → Holds (with_command nodes n c) q k l
Holds-with_command [] nodes q k n c out h = tt
Holds-with_command (d ∷ l) nodes q k n c out h = (
  ground (arith, out k (omega arith) (omega arith), h.0),
  Holds-with_command l nodes q (k + 1) n c (λ j le lt. out j (omega arith) (omega arith)) h.1,
)

Holds-append :
    (l : List Command) (nodes : ℕ → Node) (q k n : ℕ) (c : Command)
    → n ≡ place q (k + length l)
    → Holds nodes q k l
    → (nodes n).command ≡ c
    → Holds nodes q k (l ++ (c ∷ []))
Holds-append [] nodes q k n c e h m = (ap (λ (i : ℕ). (nodes i).command) (omega (arith, e)) ∙ m, tt)
Holds-append (d ∷ l) nodes q k n c e h m =
    (h.0, Holds-append l nodes q (k + 1) n c (omega (arith, e)) h.1 m)

length-append : (l : List Command) (c : Command) → length (l ++ (c ∷ [])) ≡ length l + 1
length-append [] c = refl
length-append (d ∷ l) c = omega (arith, length-append l c)

place-ne : (q q' a b : ℕ) → q ≢ q' → place q a ≢ place q' b
place-ne q q' a b ne e = ne (omega (arith, e))

-- The state after a command was put_at into the queue.
abbrev pub sent : Shared → Command → Shared
sent s c =
    let q = s.current_send in
    record s {
      command_queue = with_command s.command_queue (s.queue_end q) c;
      queue_end = put_at s.queue_end q (s.command_queue (s.queue_end q)).next;
    }

pub send_room :
    (s : Shared) (l : List Command) (c : Command)
    → IsQueue s s.current_send l
    → length l < size_command_queue - 1
    → graphic_send_command s c ≡ (true, sent s c)
unfolding graphic_send_command
send_room s l c w h =
    let free : (s.queue_end s.current_send == s.queue_front s.current_send) ≡ false =
      ground (arith, w.at_front, w.at_end) in
    rw free refl

pub sent-IsQueue :
    (s : Shared) (l : List Command) (c : Command)
    → IsQueue s s.current_send l
    → length l < size_command_queue - 1
    → IsQueue (sent s c) s.current_send (l ++ (c ∷ []))
sent-IsQueue s l c w h =
    let q = s.current_send in
    let n = s.queue_end q in
    let k = w.front + 1 in
    let next = ap (λ (i : ℕ). (s.command_queue i).next) w.at_end ∙ w.ring (k + length l) in
    record {
      front = w.front;
      at_front = w.at_front;
      at_end =
          put_at_self s.queue_end q (s.command_queue n).next
          ∙ next
          ∙ ap (place q) (omega (arith, length-append l c));
      ring = IsRing-with_command s.command_queue q n c w.ring;
      bounded = omega (arith, length-append l c);
      holds =
          Holds-append l (with_command s.command_queue n c) q k n c w.at_end
            (Holds-with_command l s.command_queue q k n c
              (λ j le lt e. absurd (omega (arith, e, w.at_end))) w.holds)
            (ap (λ (d : Node). d.command)
              (put_at_self s.command_queue n (record (s.command_queue n) { command = c })));
    }

pub sent-other :
    (s : Shared) (q : ℕ) (l k : List Command) (c : Command)
    → s.current_send ≢ q
    → IsQueue s s.current_send k
    → IsQueue s q l
    → IsQueue (sent s c) q l
sent-other s q l k c ne v w =
    let n = s.queue_end s.current_send in
    record {
      front = w.front;
      at_front = w.at_front;
      at_end = put_at_other s.queue_end s.current_send q _ ne ∙ w.at_end;
      ring = IsRing-with_command s.command_queue q n c w.ring;
      bounded = w.bounded;
      holds =
          Holds-with_command l s.command_queue q (w.front + 1) n c
            (λ j le lt e.
              place-ne q s.current_send j (v.front + 1 + length k) (λ e'. ne (sym e'))
                (e ∙ v.at_end))
            w.holds;
    }

pub send_full :
    (s : Shared) (l : List Command) (c : Command)
    → IsQueue s s.current_send l
    → length l ≡ size_command_queue - 1
    → graphic_send_command s c ≡ (false, s)
unfolding graphic_send_command
send_full s l c w h =
    let full : (s.queue_end s.current_send == s.queue_front s.current_send) ≡ true =
      ground (arith, w.at_front, w.at_end) in
    rw full refl

-- The state after the first command was taken from the queue.
abbrev pub taken : Shared → Shared
taken s =
    let q = s.current_recv in
    record s { queue_front = put_at s.queue_front q (s.command_queue (s.queue_front q)).next }

pub recv_some :
    (s : Shared) (l : List Command) (c : Command)
    → IsQueue s s.current_recv (c ∷ l)
    → (graphic_recv_command s ≡ (some c, taken s)) × IsQueue (taken s) s.current_recv l
unfolding graphic_recv_command
recv_some s l c w =
    let q = s.current_recv in
    let next = ap (λ (i : ℕ). (s.command_queue i).next) w.at_front ∙ w.ring w.front in
    let more : ((s.command_queue (s.queue_front q)).next == s.queue_end q) ≡ false =
      ground (arith, next, w.at_end, w.bounded) in
    (
      rw more (
          ap {B = Option Command × Shared} (λ d. (some d, taken s))
            (ap (λ (i : ℕ). (s.command_queue i).command) next ∙ w.holds.0)),
      record {
        front = w.front + 1;
        at_front = put_at_self s.queue_front q _ ∙ next;
        at_end = w.at_end ∙ ap (place q) (omega arith);
        ring = w.ring;
        bounded = omega (arith, w.bounded);
        holds = w.holds.1;
      },
    )

pub recv_none : (s : Shared) → IsQueue s s.current_recv [] → graphic_recv_command s ≡ (none, s)
unfolding graphic_recv_command
recv_none s w =
    let q = s.current_recv in
    let next = ap (λ (i : ℕ). (s.command_queue i).next) w.at_front ∙ w.ring w.front in
    let empty : ((s.command_queue (s.queue_front q)).next == s.queue_end q) ≡ true =
      ground (arith, next, w.at_end) in
    rw empty refl

pub taken-other :
    (s : Shared) (q : ℕ) (l : List Command)
    → s.current_recv ≢ q
    → IsQueue s q l
    → IsQueue (taken s) q l
taken-other s q l ne w = record {
  front = w.front;
  at_front = put_at_other s.queue_front s.current_recv q _ ne ∙ w.at_front;
  at_end = w.at_end;
  ring = w.ring;
  bounded = w.bounded;
  holds = w.holds;
}
