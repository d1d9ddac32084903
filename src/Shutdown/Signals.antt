-- ===== src/Shutdown/Signals.antt =====
-- No signal is lost, and nothing else cancels.
use cribe.Prelude.{
  Bool, true, false, Option, none, some, List, ◌≡◌, arith, ◌⊎◌, inl, inr, Bool-cases, Option-cases,
}
use cribe.Shutdown.{
  Signal, Interrupt, interrupt_context, Step, signal, takes, gives_up, closes, ends, Reach, here,
  next,
}

abbrev is_full : Option Signal → Bool
is_full none = false
is_full (some s) = true

-- The goroutine ends only when the context is done; until then a signal that came is in the buffer.
record IsWatched (i : Interrupt) : Type 0 where
  watched : i.watching ≡ false → i.cancelled ≡ true
  waits : i.received ≡ true → (i.cancelled ≡ true) ⊎ (is_full i.buffer ≡ true)
  real : is_full i.buffer ≡ true → i.received ≡ true
  caused : i.cancelled ≡ true → (i.received ≡ true) ⊎ ((i.closed ≡ true) ⊎ (i.parent_done ≡ true))

Step-IsWatched : {i j : Interrupt} → Step i j → IsWatched i → IsWatched j
Step-IsWatched (signal s l) w = ground arith
Step-IsWatched (takes s a b) w = ground arith
Step-IsWatched (gives_up a b) w = ground arith
Step-IsWatched closes w = ground arith
Step-IsWatched ends w = ground arith

Reach-IsWatched : {i j : Interrupt} → Reach i j → IsWatched i → IsWatched j
Reach-IsWatched here w = w
Reach-IsWatched (next r st) w = Step-IsWatched st (Reach-IsWatched r w)

interrupt_context-IsWatched : (signals : List Signal) → IsWatched (interrupt_context signals)
unfolding interrupt_context
interrupt_context-IsWatched signals = record {
  watched = λ h. cc;
  waits = λ h. cc;
  real = λ h. cc;
  caused = λ h. cc;
}

-- However the signals, the goroutine and the callers interleave: when a listed signal has come, the
-- context is cancelled, or the goroutine is still there and the signal waits in its channel; and the
-- context is cancelled only if a listed signal came, the closer was called or the parent was done.
pub interrupt_context-Reach :
    (signals : List Signal) (i : Interrupt)
    → Reach (interrupt_context signals) i
    → (i.received ≡ true
        → (i.cancelled ≡ true) ⊎ ((i.watching ≡ true) × ((s : Signal) × (i.buffer ≡ some s))))
      × (i.cancelled ≡ true → (i.received ≡ true) ⊎ ((i.closed ≡ true) ⊎ (i.parent_done ≡ true)))
interrupt_context-Reach signals i r =
    let w = Reach-IsWatched r (interrupt_context-IsWatched signals) in
    (
      λ h. elim (w.waits h) [
        | inl c ↦ inl c
        | inr f ↦ elim (Bool-cases i.watching) [
          | inl on ↦ elim (Option-cases i.buffer) [
            | inl n ↦ cc (rw n at f)
            | inr (s, e) ↦ inr (on, (s, e))
          ]
          | inr off ↦ inl (w.watched off)
        ]
      ],
      w.caused,
    )
