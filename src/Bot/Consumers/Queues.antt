-- ===== src/Bot/Consumers/Queues.antt =====
-- What a worker does with all the messages of its queue.
use cribe.Prelude.{ℕ, ◌+◌, ◌≤◌, String, List, [], ◌∷◌, ◌≡◌, arith, inl, inr, length}
use cribe.Exec.{Result, ok, err, panic, Exec, pure, ◌>>=◌, ◌>>◌, Result-cases}
use cribe.Bytes.{Bytes}
use cribe.Bot.Services.{Services}
use cribe.Bot.World.{World, chan, queue_declare, consume_from}
use cribe.Bot.Consumers.{each}

module _ {S : Type 0} where
  -- A number for each message, in the world in which the loop takes it up.
  abbrev pub along :
      (Bytes → World S → ℕ) → (Bytes → Exec (World S) (Unit {0})) → List Bytes → World S → ℕ
  along weight body [] w = 0
  along weight body (b ∷ bodies) w = weight b w + along weight body bodies (body b w).1

module _ {S : Type 0} (d : Services S) where
  abbrev from_consume : Result (List Bytes) → List Bytes
  from_consume (ok bodies) = bodies
  from_consume (err e) = []
  from_consume (panic p) = []

  abbrev from_declare : ℕ → String → Result (Unit {0}) × S → List Bytes
  from_declare c queue (ok u, s) = from_consume (d.broker.consume c queue s).0
  from_declare c queue (err e, s) = []
  from_declare c queue (panic p, s) = []

  abbrev from_chan : String → Result ℕ × S → List Bytes
  from_chan queue (ok c, s) = from_declare c queue (d.broker.queue_declare c queue s)
  from_chan queue (err e, s) = []
  from_chan queue (panic p, s) = []

  -- The messages that the broker delivers to a worker of a queue that starts in a state.
  abbrev pub delivered : String → S → List Bytes
  delivered queue s = from_chan queue (d.broker.chan s)

  abbrev pub total : (Bytes → ℕ) → List Bytes → ℕ
  total weight [] = 0
  total weight (b ∷ bodies) = weight b + total weight bodies

  -- The world in which the loop of a worker starts, with its channel.
  abbrev pub entered : String → Exec (World S) (ℕ × List Bytes)
  entered queue = do
    c ← chan d
    queue_declare d c queue
    bodies ← consume_from d c queue
    pure (c, bodies)

  module _ (measure : World S → ℕ) (body : Bytes → Exec (World S) (Unit {0})) where
    -- A body that adds at most the weight of its message.
    pub each-adds :
        (weight : Bytes → ℕ)
        → ((b : Bytes) (w : World S) → measure (body b w).1 ≤ measure w + weight b)
        → (bodies : List Bytes) (w : World S)
        → measure (each d body bodies w).1 ≤ measure w + total weight bodies
    unfolding each
    each-adds weight adds [] w = omega arith
    each-adds weight adds (b ∷ bodies) w =
        grind (arith, adds b w, each-adds weight adds bodies (body b w).1)

    -- A body that adds one for each message where it returns no error, or makes one of these up for it.
    pub each-adds_one :
        (missed : Bytes → World S → ℕ)
        → ((b : Bytes) (w : World S)
            → (body b w).0 ≡ ok tt
            → measure (body b w).1 + missed b w ≡ measure w + 1)
        → (bodies : List Bytes) (w : World S) → (each d body bodies w).0 ≡ ok tt
        → measure (each d body bodies w).1 + along missed body bodies w ≡ measure w + length bodies
    unfolding each
    each-adds_one missed adds [] w h = omega arith
    each-adds_one missed adds (b ∷ bodies) w h = elim (Result-cases (body b w).0) [
      | inl (x, g) ↦ ground (arith, adds b w, each-adds_one missed adds bodies (body b w).1)
      | inr (inl (e, g)) ↦ cc (rw g at h)
      | inr (inr (p, g)) ↦ cc (rw g at h)
    ]
