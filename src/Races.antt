-- ===== src/Races.antt =====
-- Requests that overlap: a request as the statements that it sends one after another, and any number of
-- requests whose statements alternate. Node runs one request between two awaits; here the requests
-- may take turns at every step, which covers each order that Node can produce.
pub mod Requests
pub mod Keeps
pub mod Invariant
pub mod Unnoticed
use multitenancy.Prelude.{ℕ, zero, suc, List, [], ◌∷◌}
use multitenancy.World.{World, Result, ok, err, Action}

-- What is left of a request: its result, or a step that reads and changes the state.
pub data Process (A : Type 0) : Type 0 where
  done : Result A → Process A
  step : (World → World) → (World → Process A) → Process A

module _ {A : Type 0} where
  -- one statement, or one piece of code without `await`
  abbrev pub once : Action A → Process A
  once m = step (λ w. (m w).1) (λ w. done (m w).0)

  -- the request alone, from its first step to its result
  unfoldable pub run : Process A → Action A
  run (done r) w = (r, w)
  run (step f rest) w = run (rest w) (f w)

  -- the next step, if there is one
  unfoldable pub advance : Process A → World → Process A × World
  advance (done r) w = (done r, w)
  advance (step f rest) w = (rest w, f w)

  abbrev pub finished : A → Process A
  finished a = done (ok a)

module _ {A B : Type 0} where
  abbrev pub go_on : Result A → (A → Process B) → Process B
  go_on (ok a) f = f a
  go_on (err x) f = done (err x)

  infixl 5 ◌>>=◌ ◌>>◌
  unfoldable pub ◌>>=◌ : Process A → (A → Process B) → Process B
  done r >>= f = go_on r f
  step g rest >>= f = step g (λ w. rest w >>= f)

  abbrev pub ◌>>◌ : Process A → Process B → Process B
  p >> q = p >>= λ _. q

-- A request whose answer nobody waits for.
abbrev pub forget : {A : Type 0} → Process A → Process (Unit {0})
forget p = p >>= λ _. finished tt

abbrev pub Pool : Type 0
Pool = List (Process (Unit {0}))

-- The i-th request of the pool takes its next step; no request, no step.
unfoldable pub turn : ℕ → Pool → World → Pool × World
turn i [] w = ([], w)
turn zero (p ∷ ps) w = let (p', w') = advance p w in (p' ∷ ps, w')
turn (suc i) (p ∷ ps) w = let (ps', w') = turn i ps w in (p ∷ ps', w')
