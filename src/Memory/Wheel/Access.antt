-- ===== src/Memory/Wheel/Access.antt =====
-- What an access to the wheel does. An access is complete in the cycle in which it is scheduled: the
-- delay is stored, and not waited for.
use pret_iss.Prelude.{ℕ, ◌<◌, if◌then◌else◌, true, false, ◌≡◌, refl, some, arith}
use pret_iss.Memory.Unit.{add_address, read_word}
use pret_iss.Memory.Wheel.{
  WheeledMem, get_delay, is_scheduled, is_stalled_helper, read, write, read_burst, words_from, tick,
}

-- No access is open, and an access takes time.
pub record IsIdle (w : WheeledMem) : Type 0 where
  pub closed : w.accessing ≡ false
  pub slow : 0 < w.lat_d

-- What is stored by an access that is let through.
abbrev pub granted : WheeledMem → ℕ → ℕ → WheeledMem
granted w addr num_words = record w {
  accessing = false;
  remaining_cycles = get_delay w num_words;
  requested_addr = addr;
}

-- On an idle wheel no assertion fails, a thread is let through exactly when it is scheduled, and the
-- contents stay.
pub is_stalled_helper_lem :
    (w : WheeledMem) (cycles tid addr num_words : ℕ)
    → IsIdle w
    → is_stalled_helper w cycles tid addr num_words ≡ (
        if is_scheduled w cycles tid
        then some (false, granted w addr num_words)
        else some (true, w))
unfolding is_stalled_helper
is_stalled_helper_lem w cycles tid addr num_words v = ground arith

-- An idle wheel stays idle through an access and through the cycles.
pub granted-IsIdle :
    (w : WheeledMem) (addr num_words : ℕ) → IsIdle w → IsIdle (granted w addr num_words)
granted-IsIdle w addr num_words v = record { closed = refl; slow = v.slow }

pub tick-IsIdle : (w : WheeledMem) → IsIdle w → IsIdle (tick w)
unfolding tick
tick-IsIdle w v = record { closed = v.closed; slow = v.slow }

-- A read returns the word at the address whether it stalls or not.
pub read_lem :
    (w : WheeledMem) (cycles tid addr : ℕ)
    → IsIdle w
    → read w cycles tid addr ≡ (
        if is_scheduled w cycles tid
        then some (read_word w.mem addr, false, granted w addr 1)
        else some (read_word w.mem addr, true, w))
unfolding read
read_lem w cycles tid addr v = ground (arith, is_stalled_helper_lem w cycles tid addr 1 v)

-- A write that stalls changes nothing; one that does not stores its word.
pub write_lem :
    (w : WheeledMem) (cycles tid addr word : ℕ)
    → IsIdle w
    → write w cycles tid addr word ≡ (
        if is_scheduled w cycles tid
        then some (false, record (granted w addr 1) { mem = add_address w.mem addr word })
        else some (true, w))
unfolding write
write_lem w cycles tid addr word v = ground (arith, is_stalled_helper_lem w cycles tid addr 1 v)

pub read_burst_lem :
    (w : WheeledMem) (cycles tid addr n : ℕ)
    → IsIdle w
    → read_burst w cycles tid addr n ≡ (
        if is_scheduled w cycles tid
        then some (words_from w.mem addr n, false, granted w addr n)
        else some (words_from w.mem addr n, true, w))
unfolding read_burst
read_burst_lem w cycles tid addr n v = ground (arith, is_stalled_helper_lem w cycles tid addr n v)
