-- ===== src/World/Evolves.antt =====
-- What every run of an action does to the state, by a relation that is reflexive and transitive: one
-- rule for each way to build an action. An invariant is such a relation, `P` before gives `P` after.
use multitenancy.Prelude.{Bool, true, false, Option, none, some, if◌then◌else◌}
use multitenancy.Exceptions.{Exception}
use multitenancy.World.{
  World, Result, ok, err, Action, pure, raise, gets, or_raise, raise_if, catch, recover, continue,
  ◌>>=◌,
}

pub record Preorder (R : World → World → Type 0) : Type 0 where
  pub same : (w : World) → R w w
  pub after : (u v w : World) → R u v → R v w → R u w

pub record Evolves {A : Type 0} (R : World → World → Type 0) (m : Action A) : Type 0 where
  pub at : (w : World) → R w (m w).1

module _ {A : Type 0} {R : World → World → Type 0} (order : Preorder R) where
  pub Evolves-pure : (a : A) → Evolves R (pure a)
  unfolding pure
  Evolves-pure a = record { at = λ w. order.same w }

  pub Evolves-raise : (x : Exception) → Evolves R (raise {A = A} x)
  unfolding raise
  Evolves-raise x = record { at = λ w. order.same w }

  pub Evolves-gets : (f : World → A) → Evolves R (gets f)
  unfolding gets
  Evolves-gets f = record { at = λ w. order.same w }

  pub Evolves-or_raise : (o : Option A) (x : Exception) → Evolves R (or_raise o x)
  unfolding or_raise
  Evolves-or_raise none x = record { at = λ w. order.same w }
  Evolves-or_raise (some a) x = record { at = λ w. order.same w }

  pub Evolves-if :
      (b : Bool) (m n : Action A) → Evolves R m → Evolves R n → Evolves R (if b then m else n)
  Evolves-if true m n km kn = km
  Evolves-if false m n km kn = kn

  recover-follows :
      (r : Result A) (handler : Exception → Action A) (u w : World)
      → ((x : Exception) → Evolves R (handler x))
      → R u w
      → R u (recover r handler w).1
  unfolding recover
  recover-follows (ok a) handler u w kh h = h
  recover-follows (err x) handler u w kh h = order.after u w (handler x w).1 h ((kh x).at w)

  pub Evolves-catch :
      (m : Action A) (handler : Exception → Action A)
      → Evolves R m
      → ((x : Exception) → Evolves R (handler x))
      → Evolves R (catch m handler)
  unfolding catch
  Evolves-catch m handler km kh = record {
    at = λ w. recover-follows (m w).0 handler w (m w).1 kh (km.at w);
  }

module _ {R : World → World → Type 0} (order : Preorder R) where
  pub Evolves-raise_if : (b : Bool) (x : Exception) → Evolves R (raise_if b x)
  unfolding raise_if
  Evolves-raise_if b x = record { at = λ w. order.same w }

module _ {A B : Type 0} {R : World → World → Type 0} (order : Preorder R) where
  continue-follows :
      (r : Result A) (f : A → Action B) (u w : World)
      → ((a : A) → Evolves R (f a))
      → R u w
      → R u (continue r f w).1
  unfolding continue
  continue-follows (ok a) f u w kf h = order.after u w (f a w).1 h ((kf a).at w)
  continue-follows (err x) f u w kf h = h

  pub Evolves-bind :
      (m : Action A) (f : A → Action B)
      → Evolves R m
      → ((a : A) → Evolves R (f a))
      → Evolves R (m >>= f)
  unfolding ◌>>=◌
  Evolves-bind m f km kf = record { at = λ w. continue-follows (m w).0 f w (m w).1 kf (km.at w) }

pub ruleset evolves_rules = (
  Evolves-pure, Evolves-raise, Evolves-gets, Evolves-or_raise, Evolves-if, Evolves-catch,
  Evolves-raise_if, Evolves-bind,
)
