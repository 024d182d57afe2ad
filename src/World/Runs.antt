-- ===== src/World/Runs.antt =====
-- Triples: from a state with `P`, an action that returns leaves `Q`, one that throws leaves `X`.
use multitenancy.Prelude.{Bool, true, false, Option, none, some, ◌≡◌, ◌≢◌, refl, if◌then◌else◌}
use multitenancy.Exceptions.{Exception}
use multitenancy.World.{
  World, Result, ok, err, Action, pure, raise, gets, or_raise, raise_if, catch, recover, continue,
  ◌>>=◌,
}
use multitenancy.World.Evolves.{Evolves}

abbrev pub Post :
    {A : Type 0} → (A → World → Type 0) → (Exception → World → Type 0) → Result A × World → Type 0
Post Q X (ok a, w) = Q a w
Post Q X (err x, w) = X x w

pub record Runs {A : Type 0} (P : World → Type 0) (m : Action A) (Q : A → World → Type 0)
    (X : Exception → World → Type 0) : Type 0 where
  pub at : (w : World) → P w → Post Q X (m w)

module _ {A : Type 0} {Q : A → World → Type 0} {X : Exception → World → Type 0} where
  recover-Post :
      (r : Result A) (handler : Exception → Action A) (w : World) (Y : Exception → World → Type 0)
      → ((x : Exception) → Runs (Y x) (handler x) Q X)
      → Post Q Y (r, w)
      → Post Q X (recover r handler w)
  unfolding recover
  recover-Post (ok a) handler w Y kh h = h
  recover-Post (err x) handler w Y kh h = (kh x).at w h

  pub weaken-Post :
      (r : Result A) (w : World) (Q' : A → World → Type 0) (X' : Exception → World → Type 0)
      → ((a : A) (w : World) → Q' a w → Q a w)
      → ((x : Exception) (w : World) → X' x w → X x w)
      → Post Q' X' (r, w)
      → Post Q X (r, w)
  weaken-Post (ok a) w Q' X' q x h = q a w h
  weaken-Post (err e) w Q' X' q x h = x e w h

module _ {A B : Type 0} {Q : B → World → Type 0} {X : Exception → World → Type 0} where
  continue-Post :
      (r : Result A) (f : A → Action B) (w : World) (M : A → World → Type 0)
      → ((a : A) → Runs (M a) (f a) Q X)
      → Post M X (r, w)
      → Post Q X (continue r f w)
  unfolding continue
  continue-Post (ok a) f w M kf h = (kf a).at w h
  continue-Post (err x) f w M kf h = h

module _ {A : Type 0} {P : World → Type 0} {Q : A → World → Type 0}
    {X : Exception → World → Type 0} where
  pub Runs-pure : (a : A) → ((w : World) → P w → Q a w) → Runs P (pure a) Q X
  unfolding pure
  Runs-pure a h = record { at = h }

  pub Runs-raise : (x : Exception) → ((w : World) → P w → X x w) → Runs P (raise x) Q X
  unfolding raise
  Runs-raise x h = record { at = h }

  pub Runs-gets : (f : World → A) → ((w : World) → P w → Q (f w) w) → Runs P (gets f) Q X
  unfolding gets
  Runs-gets f h = record { at = h }

  pub Runs-or_raise :
      (o : Option A) (x : Exception)
      → (o ≡ none → (w : World) → P w → X x w)
      → ((a : A) → o ≡ some a → (w : World) → P w → Q a w)
      → Runs P (or_raise o x) Q X
  unfolding or_raise
  Runs-or_raise none x fails gives = record { at = fails refl }
  Runs-or_raise (some a) x fails gives = record { at = gives a refl }

  pub Runs-if :
      (b : Bool) (m n : Action A)
      → (b ≡ true → Runs P m Q X)
      → (b ≡ false → Runs P n Q X)
      → Runs P (if b then m else n) Q X
  Runs-if true m n km kn = km refl
  Runs-if false m n km kn = kn refl

  pub Runs-catch :
      (m : Action A) (handler : Exception → Action A) (Y : Exception → World → Type 0)
      → Runs P m Q Y
      → ((x : Exception) → Runs (Y x) (handler x) Q X)
      → Runs P (catch m handler) Q X
  unfolding catch
  Runs-catch m handler Y km kh = record {
    at = λ w h. recover-Post (m w).0 handler (m w).1 Y kh (km.at w h);
  }

  pub Runs-to :
      (m : Action A) (Q' : A → World → Type 0) (X' : Exception → World → Type 0)
      → ((a : A) (w : World) → Q' a w → Q a w)
      → ((x : Exception) (w : World) → X' x w → X x w)
      → Runs P m Q' X'
      → Runs P m Q X
  Runs-to m Q' X' q x km = record { at = λ w h. weaken-Post (m w).0 (m w).1 Q' X' q x (km.at w h) }

  pub Runs-from :
      {P' : World → Type 0} (m : Action A)
      → ((w : World) → P' w → P w)
      → Runs P m Q X
      → Runs P' m Q X
  Runs-from m weaken km = record { at = λ w h. km.at w (weaken w h) }

module _ {P : World → Type 0} {X : Exception → World → Type 0} where
  pub Runs-raise_if :
      (b : Bool) (x : Exception) {Q : Unit {0} → World → Type 0}
      → (b ≡ true → (w : World) → P w → X x w)
      → (b ≡ false → (w : World) → P w → Q tt w)
      → Runs P (raise_if b x) Q X
  unfolding raise_if
  Runs-raise_if true x fails goes = record { at = fails refl }
  Runs-raise_if false x fails goes = record { at = goes refl }

module _ {A B : Type 0} {P : World → Type 0} {Q : B → World → Type 0}
    {X : Exception → World → Type 0} where
  pub Runs-bind :
      (m : Action A) (f : A → Action B) (M : A → World → Type 0)
      → Runs P m M X
      → ((a : A) → Runs (M a) (f a) Q X)
      → Runs P (m >>= f) Q X
  unfolding ◌>>=◌
  Runs-bind m f M km kf = record { at = λ w h. continue-Post (m w).0 f (m w).1 M kf (km.at w h) }

module _ {A : Type 0} where
  Post-of_both :
      (r : Result A) (w : World) (P : World → Type 0) → P w → Post (λ _. P) (λ _. P) (r, w)
  Post-of_both (ok a) w P h = h
  Post-of_both (err x) w P h = h

  -- An invariant is a triple.
  pub Runs-of_Evolves :
      (P : World → Type 0) (m : Action A)
      → Evolves (λ u v. P u → P v) m
      → Runs P m (λ _. P) (λ _. P)
  Runs-of_Evolves P m km = record { at = λ w h. Post-of_both (m w).0 (m w).1 P (km.at w h) }

  both-of_Post :
      (r : Result A) (w : World) (P : World → Type 0) → Post (λ _. P) (λ _. P) (r, w) → P w
  both-of_Post (ok a) w P h = h
  both-of_Post (err x) w P h = h

  -- A triple with one postcondition says where the state has gone.
  pub Runs-state :
      (P Q : World → Type 0) (m : Action A) (w : World)
      → Runs P m (λ _. Q) (λ _. Q)
      → P w
      → Q (m w).1
  Runs-state P Q m w km h = both-of_Post (m w).0 (m w).1 Q (km.at w h)

-- An action that leaves nothing true when it returns does not return.
pub no_result :
    {A : Type 0} (r : Result A × World) (a : A)
    → Post {A = A} (λ _ _. ⊥) (λ _ _. Unit {0}) r
    → r.0 ≢ ok a
no_result (ok b, w) a h e = h
no_result (err x, w) a h e = cc e
