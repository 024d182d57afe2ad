-- ===== src/Races/Keeps.antt =====
-- What each step of a process does to the state, as a reflexive and transitive relation, and what follows
-- for any number of processes that take turns.
use multitenancy.Prelude.{ℕ, zero, suc, Bool, true, false, [], ◌∷◌, All, if◌then◌else◌}
use multitenancy.World.{World, Action, ok, err}
use multitenancy.World.Evolves.{Preorder, Evolves}
use multitenancy.Races.{Process, done, step, once, finished, ◌>>=◌, advance, Pool, turn}

-- each step of `p`, in whatever state it is taken, goes along `R`
abbrev pub AllSteps : {A : Type 0} → (World → World → Type 0) → Process A → Type 0
AllSteps R (done r) = Unit
AllSteps R (step f rest) = (w : World) → R w (f w) × AllSteps R (rest w)

pub record Keeps {A : Type 0} (R : World → World → Type 0) (p : Process A) : Type 0 where
  pub each : AllSteps R p

module _ {A : Type 0} {R : World → World → Type 0} where
  pub Keeps-once : (m : Action A) → Evolves R m → Keeps R (once m)
  Keeps-once m h = record { each = λ w. (h.at w, tt) }

  pub Keeps-finished : (a : A) → Keeps R (finished a)
  Keeps-finished a = record { each = tt }

  pub Keeps-if : (b : Bool) (p q : Process A) → Keeps R p → Keeps R q → Keeps R (if b then p else q)
  Keeps-if true p q hp hq = hp
  Keeps-if false p q hp hq = hq

  -- a step that only looks
  pub Keeps-look :
      (order : Preorder R) (rest : World → Process A)
      → ((w : World) → Keeps R (rest w))
      → Keeps R (step (λ w. w) rest)
  Keeps-look order rest h = record { each = λ w. (order.same w, (h w).each) }

module _ {A B : Type 0} {R : World → World → Type 0} where
  AllSteps-bind :
      (p : Process A) (f : A → Process B)
      → AllSteps R p
      → ((a : A) → Keeps R (f a))
      → AllSteps R (p >>= f)
  unfolding ◌>>=◌
  AllSteps-bind (done (ok a)) f hp hf = (hf a).each
  AllSteps-bind (done (err x)) f hp hf = tt
  AllSteps-bind (step g rest) f hp hf = λ w. ((hp w).0, AllSteps-bind (rest w) f (hp w).1 hf)

  pub Keeps-bind :
      (p : Process A) (f : A → Process B)
      → Keeps R p
      → ((a : A) → Keeps R (f a))
      → Keeps R (p >>= f)
  Keeps-bind p f hp hf = record { each = AllSteps-bind p f hp.each hf }

pub ruleset keeps_rules = (Keeps-once, Keeps-finished, Keeps-if, Keeps-bind, Keeps-look)

module _ {R : World → World → Type 0} (order : Preorder R) where
  Keeps-advance :
      {A : Type 0} (p : Process A) (w : World)
      → Keeps R p
      → Keeps R (advance p w).0 × R w (advance p w).1
  unfolding advance
  Keeps-advance (done r) w h = (h, order.same w)
  Keeps-advance (step f rest) w h = (record { each = (h.each w).1 }, (h.each w).0)

  -- A turn of one process leaves processes that keep `R`, in a state along `R`.
  pub Keeps-turn :
      (i : ℕ) (ps : Pool) (w : World)
      → All (Keeps R) ps
      → All (Keeps R) (turn i ps w).0 × R w (turn i ps w).1
  unfolding turn
  Keeps-turn i [] w h = (tt, order.same w)
  Keeps-turn zero (p ∷ ps) w h = let (kept, moved) = Keeps-advance p w h.0 in ((kept, h.1), moved)
  Keeps-turn (suc i) (p ∷ ps) w h =
      let (kept, moved) = Keeps-turn i ps w h.1 in ((h.0, kept), moved)
