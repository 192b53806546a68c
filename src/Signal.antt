-- ===== src/Signal.antt =====
-- src/signal.c: the sets of signals and the table of handlers. A pointer that may be null is an
-- option; a call returns its result and what it leaves at the pointer or in the table.
pub mod Sets
pub mod Handlers
use c_lite.Base.{
  ℕ, zero, suc, ◌-◌, Bool, true, false, not, ◌&&◌, ◌||◌, Option, none, some, ltb, ◌==◌,
  if◌then◌else◌,
}
use c_lite.Base.Int.{ℤ, pos, negsuc}
use c_lite.Syscall.{Os, Sys, ◌>>=◌, pure, minus_one, getpid, kill}

-- _NSIG
abbrev pub nsig : ℕ
nsig = 32

-- An `unsigned long`, by its 32 bits.
abbrev pub Word : Type 0
Word = ℕ → Bool

-- 1UL << k
abbrev pub bit : ℕ → Word
bit k i = i == k

abbrev pub or_word : Word → Word → Word
or_word a b i = a i || b i

abbrev pub and_word : Word → Word → Word
and_word a b i = a i && b i

-- ~a
abbrev pub complement : Word → Word
complement a i = not (a i)

-- Whether one of the lowest n bits is set; a word is not 0 if one of 32 is.
unfoldable pub any_bit : ℕ → Word → Bool
any_bit zero a = false
any_bit (suc n) a = a n || any_bit n a

-- The number of the bit: `none` for signum < 1 || signum >= _NSIG.
unfoldable pub bit_of : ℤ → Option ℕ
bit_of (negsuc n) = none
bit_of (pos zero) = none
bit_of (pos (suc n)) = if ltb (suc n) nsig then some n else none

unfoldable pub sigemptyset : Option Word → ℤ × Option Word
sigemptyset none = (minus_one, none)
sigemptyset (some set) = (pos 0, some (λ i. false))

unfoldable pub sigfillset : Option Word → ℤ × Option Word
sigfillset none = (minus_one, none)
sigfillset (some set) = (pos 0, some (complement (λ i. false)))

-- A change of one bit.
abbrev pub with_bit : (Word → ℕ → Word) → Option Word → Option ℕ → ℤ × Option Word
with_bit change none k = (minus_one, none)
with_bit change (some set) none = (minus_one, some set)
with_bit change (some set) (some k) = (pos 0, some (change set k))

unfoldable pub sigaddset : Option Word → ℤ → ℤ × Option Word
unfolding bit_of
sigaddset set signum = with_bit (λ a k. or_word a (bit k)) set (bit_of signum)

unfoldable pub sigdelset : Option Word → ℤ → ℤ × Option Word
unfolding bit_of
sigdelset set signum = with_bit (λ a k. and_word a (complement (bit k))) set (bit_of signum)

abbrev pub tested : Option Word → Option ℕ → ℤ
tested none k = minus_one
tested (some set) none = minus_one
tested (some set) (some k) = if any_bit 32 (and_word set (bit k)) then pos 1 else pos 0

unfoldable pub sigismember : Option Word → ℤ → ℤ
unfolding any_bit bit_of
sigismember set signum = tested set (bit_of signum)

-- The address of a handler. SIG_ERR is -1.
abbrev pub Handler : Type 0
Handler = ℕ

abbrev pub sig_err : Handler
sig_err = 4294967295

abbrev pub Handlers : Type 0
Handlers = ℕ → Handler

-- struct sigaction; its restorer is a null pointer wherever the code writes one.
pub record Action : Type 0 where
  pub handler : Handler
  pub mask : ℕ
  pub flags : ℕ

abbrev pub set_handler : Handlers → ℕ → Handler → Handlers
set_handler handlers k h i = if i == k then h else handlers i

abbrev pub installed : Handlers → ℕ → Option Action → Handlers
installed handlers k none = handlers
installed handlers k (some act) = set_handler handlers k act.handler

-- handlers[signum], for a signal in range
abbrev pub exchange : Handlers → Option ℕ → Option Action → ℤ × Option Action × Handlers
exchange handlers none act = (minus_one, none, handlers)
exchange handlers (some k) act = (
  pos 0,
  some (record { handler = handlers (suc k); mask = 0; flags = 0 }),
  installed handlers (suc k) act,
)

-- The second part is what is written to `oldact`, where it is not null.
unfoldable pub sigaction : Handlers → ℤ → Option Action → ℤ × Option Action × Handlers
unfolding bit_of
sigaction handlers signum act = exchange handlers (bit_of signum) act

abbrev pub handled : Handlers → Option ℕ → Handler → Handler × Handlers
handled handlers none h = (sig_err, handlers)
handled handlers (some k) h = (handlers (suc k), set_handler handlers (suc k) h)

unfoldable pub signal : Handlers → ℤ → Handler → Handler × Handlers
unfolding bit_of
signal handlers signum h = handled handlers (bit_of signum) h

-- What is written to `oldset`, where it is not null; `set` has no effect.
unfoldable pub sigprocmask : ℤ → Option Word → ℤ × Word
sigprocmask how set = (pos 0, λ i. false)

module _ (O : Os) where
  unfoldable pub raise : ℤ → Sys O ℤ
  unfolding getpid kill
  raise sig = do pid ← getpid O; kill O pid sig
