-- ===== src/Shutdown.antt =====
-- internal/shutdown/context.go: a context that a signal cancels. The channel holds one signal; the
-- goroutine waits for it or for the end of the context.
pub mod Signals
use cribe.Prelude.{Bool, true, false, Option, none, some, List, [], ◌∷◌, ◌≡◌, ◌||◌, if◌then◌else◌}

pub data Signal : Type 0 where
  sigint sigterm other : Signal

abbrev pub same_signal : Signal → Signal → Bool
same_signal sigint sigint = true
same_signal sigterm sigterm = true
same_signal other other = true
same_signal _ _ = false

abbrev pub listed : Signal → List Signal → Bool
listed s [] = false
listed s (x ∷ xs) = same_signal x s || listed s xs

-- `received` tells whether a listed signal came and `closed` whether the closer was called, for the
-- theorems.
pub record Interrupt : Type 0 where
  pub signals : List Signal
  pub parent_done : Bool
  pub cancelled : Bool
  pub buffer : Option Signal
  pub watching : Bool
  pub received : Bool
  pub closed : Bool

-- InterruptContext(ctx, signals...), of a context that is not done
unfoldable pub interrupt_context : List Signal → Interrupt
interrupt_context signals = record {
  signals = signals;
  parent_done = false;
  cancelled = false;
  buffer = none;
  watching = true;
  received = false;
  closed = false;
}

-- New(): its parent, the background, is never done, so no step of it ends the parent.
unfoldable pub new : Interrupt
unfolding interrupt_context
new = interrupt_context (sigint ∷ sigterm ∷ [])

-- signal.Notify does not wait: where the buffer is full, the signal is dropped.
abbrev buffered : Option Signal → Signal → Option Signal
buffered none s = some s
buffered (some t) s = some t

pub data Step (i : Interrupt) : Interrupt → Type 0 where
  signal :
      (s : Signal)
      → listed s i.signals ≡ true
      → Step i (record i { buffer = buffered i.buffer s; received = true })
  -- case <-c: closer()
  takes :
      (s : Signal)
      → i.watching ≡ true
      → i.buffer ≡ some s
      → Step i (record i { buffer = none; watching = false; cancelled = true })
  -- case <-ctx.Done():
  gives_up : i.watching ≡ true → i.cancelled ≡ true → Step i (record i { watching = false })
  -- The closer that `InterruptContext` returns.
  closes : Step i (record i { cancelled = true; closed = true })
  ends : Step i (record i { cancelled = true; parent_done = true })

pub data Reach (from : Interrupt) : Interrupt → Type 0 where
  here : Reach from from
  next : {i j : Interrupt} → Reach from i → Step i j → Reach from j
