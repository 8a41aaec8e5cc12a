-- ===== src/Graphic/Queue/Runs.antt =====
-- Any sequence of what the threads of soft/graphic do with the queues, each operation taken as one step.
use pret_iss.Prelude.{
  ℕ, if◌then◌else◌, Bool, true, false, ◌≡◌, inl, inr, refl, sym, ap, List, [], ◌∷◌, Option, none,
  some, bit_xor,
}
use mathlib.Core.Path.{ap₂, subst}
use pret_iss.Graphic.Queue.{
  Command, Shared, graphic_init_queue, graphic_send_command, graphic_recv_command,
  graphic_toggle_command_queue, next_command, request_flush,
}
use pret_iss.Graphic.Queue.Fifo.{IsQueue, taken, recv_some, recv_none, taken-other}
use pret_iss.Graphic.Queue.Refines.{
  Queues, send_to, swap, receive_from, AreToggled, Represents, empty_queues, Agrees, send-Agrees,
  next_command-some, AreToggled-ne, graphic_init_queue-Represents,
}

next_command-none :
    (s : Shared)
    → graphic_recv_command s ≡ (none, s)
    → next_command s ≡ (
      none,
      record (if s.is_flushing then graphic_toggle_command_queue s else s) { is_flushing = false },
    )
unfolding next_command
next_command-none s e =
    ap
      (λ (r : Option Command × Shared). elim r.0 as (λ x. Option Command × Shared) [
        | some c ↦ (some c, r.1)
        | none ↦ (
          none,
          record (if r.1.is_flushing then graphic_toggle_command_queue r.1 else r.1) {
            is_flushing = false;
          },
        )
      ])
      e

-- A queue does not depend on the indices and the flag.
moved-IsQueue :
    (s : Shared) (i j q : ℕ) (b : Bool) (l : List Command)
    → IsQueue s q l
    → IsQueue (record s { current_send = i; current_recv = j; is_flushing = b }) q l
moved-IsQueue s i j q b l w = record {
  front = w.front;
  at_front = w.at_front;
  at_end = w.at_end;
  ring = w.ring;
  bounded = w.bounded;
  holds = w.holds;
}

AreToggled-xor : (i j : ℕ) → AreToggled i j → (bit_xor i 1 ≡ j) × (bit_xor j 1 ≡ i)
AreToggled-xor i j (inl (p, q)) = (rw (p, q) refl, rw (p, q) refl)
AreToggled-xor i j (inr (p, q)) = (rw (p, q) refl, rw (p, q) refl)

AreToggled-sym : (i j : ℕ) → AreToggled i j → AreToggled j i
AreToggled-sym i j (inl (p, q)) = inr (q, p)
AreToggled-sym i j (inr (p, q)) = inl (q, p)

-- The queues change places.
toggled-Represents :
    (s : Shared) (a : Queues)
    → Represents s a
    → Represents
        (record (graphic_toggle_command_queue s) { is_flushing = false })
        (record (swap a) { flushing = false })
unfolding graphic_toggle_command_queue
toggled-Represents s a r =
    let e = AreToggled-xor s.current_send s.current_recv r.toggled in
    subst
      (λ (p : ℕ × ℕ).
        Represents (record s { current_send = p.0; current_recv = p.1; is_flushing = false })
          (record (swap a) { flushing = false }))
      (ap₂ (λ (i j : ℕ). (i, j)) (sym e.0) (sym e.1))
      (record {
        toggled = AreToggled-sym s.current_send s.current_recv r.toggled;
        sending =
            moved-IsQueue s s.current_recv s.current_send s.current_recv false a.receiving
              r.receiving;
        receiving =
            moved-IsQueue s s.current_recv s.current_send s.current_send false a.sending r.sending;
        flushing = refl;
      })

flag-Represents :
    (s : Shared) (a : Queues) (b : Bool)
    → Represents s a
    → Represents (record s { is_flushing = b }) (record a { flushing = b })
flag-Represents s a b r = record {
  toggled = r.toggled;
  sending = moved-IsQueue s s.current_send s.current_recv s.current_send b a.sending r.sending;
  receiving =
      moved-IsQueue s s.current_send s.current_recv s.current_recv b a.receiving r.receiving;
  flushing = refl;
}

emptied-Represents :
    (b c : Bool) (s : Shared) (a : Queues)
    → b ≡ c
    → Represents s a
    → Represents
        (record (if b then graphic_toggle_command_queue s else s) { is_flushing = false })
        (record (if c then swap a else a) { flushing = false })
emptied-Represents true true s a e r = toggled-Represents s a r
emptied-Represents false false s a e r = flag-Represents s a false r
emptied-Represents true false s a e r = absurd (cc)
emptied-Represents false true s a e r = absurd (cc)

next-Agrees :
    (s : Shared) (a : Queues) (l : List Command)
    → a.receiving ≡ l
    → Represents s a
    → Agrees (next_command s) (receive_from l a)
next-Agrees s a [] e r =
    let w = subst (IsQueue s s.current_recv) e r.receiving in
    rw (next_command-none s (recv_none s w))
      (refl, emptied-Represents s.is_flushing a.flushing s a r.flushing r)
next-Agrees s a (c ∷ l) e r =
    let w = subst (IsQueue s s.current_recv) e r.receiving in
    let got = recv_some s l c w in
    rw (next_command-some s c (taken s) got.0) (
      refl,
      record {
        toggled = r.toggled;
        sending =
            taken-other s s.current_send a.sending
              (λ q. AreToggled-ne s.current_send s.current_recv r.toggled (sym q)) r.sending;
        receiving = got.1;
        flushing = r.flushing;
      },
    )

-- A command is sent, the driver asks for the next one, or a flush is requested.
pub data Action : Type 0 where
  send : Command → Action
  next : Action
  flush : Action

-- What an action returns.
pub data Answer : Type 0 where
  sent_is : Bool → Answer
  next_is : Option Command → Answer
  done : Answer

unfoldable pub act : Action → Shared → Answer × Shared
act (send c) s = let (b, s') = graphic_send_command s c in (sent_is b, s')
act next s = let (c, s') = next_command s in (next_is c, s')
act flush s = (done, request_flush s)

unfoldable pub act_on : Action → Queues → Answer × Queues
act_on (send c) a = let (b, a') = send_to a c in (sent_is b, a')
act_on next a = let (c, a') = receive_from a.receiving a in (next_is c, a')
act_on flush a = (done, record a { flushing = true })

unfoldable pub answers : List Action → Shared → List Answer
unfolding act
answers [] s = []
answers (x ∷ xs) s = let (r, s') = act x s in r ∷ answers xs s'

unfoldable pub answers_of : List Action → Queues → List Answer
unfolding act_on
answers_of [] a = []
answers_of (x ∷ xs) a = let (r, a') = act_on x a in r ∷ answers_of xs a'

act-Agrees : (x : Action) (s : Shared) (a : Queues) → Represents s a → Agrees (act x s) (act_on x a)
unfolding act act_on
act-Agrees (send c) s a r = let h = send-Agrees s a c r in (ap sent_is h.0, h.1)
act-Agrees next s a r = let h = next-Agrees s a a.receiving refl r in (ap next_is h.0, h.1)
act-Agrees flush s a r = (refl, flag-Represents s a true r)

answers-agree :
    (xs : List Action) (s : Shared) (a : Queues) → Represents s a → answers xs s ≡ answers_of xs a
unfolding answers answers_of
answers-agree [] s a r = refl
answers-agree (x ∷ xs) s a r =
    let h = act-Agrees x s a r in ap₂ ◌∷◌ h.0 (answers-agree xs (act x s).1 (act_on x a).1 h.1)

-- From the queues that `graphic_init_queue` sets up in any memory, every sequence of sends, requests for
-- the next command and requests to flush has the answers of two first-in-first-out queues of 19 commands,
-- which change places when the driver finds the one that it reads empty and a flush was requested.
pub init-refines :
    (xs : List Action) (s : Shared)
    → answers xs (graphic_init_queue s)
      ≡ answers_of xs (empty_queues (graphic_init_queue s).is_flushing)
init-refines xs s =
    answers-agree xs (graphic_init_queue s) (empty_queues (graphic_init_queue s).is_flushing)
      (graphic_init_queue-Represents s)
