-- ===== src/Races/Invariant.antt =====
-- What the table of invitations keeps when requests overlap
-- (src/tenant/tenant.service.ts, src/tenant/tenant-invitation-cleanup.service.ts).
use multitenancy.Prelude.{
  ℕ, Bool, false, some, List, [], ◌∷◌, ◌++◌, map, ◌≡◌, refl, ◌⊎◌, inl, inr, ◌∙◌, sym, Bool-cases,
  eq_of_some_eq, arith, any,
}
use mathlib.Core.Path.{subst}
use multitenancy.Entities.{TenantInvitation}
use multitenancy.Entities.Clash
use multitenancy.World.{World}
use multitenancy.World.Evolves.{Preorder}
use multitenancy.Repository.{invitations_repository}
use multitenancy.Repository.Rows.{Distinct-concat, Distinct-map}
use multitenancy.Invitations.{is_pending}
use multitenancy.Invitations.Progress.{SameOffer, IsDated, IsDistinct, clash_sym}
use multitenancy.Invitations.Settling.{Settles, step_row, step_row-clash, invitations-write}

-- A row stays as it is, or is settled, perhaps not for the first time.
abbrev pub Goes : TenantInvitation → TenantInvitation → Type 0
Goes x y = (y ≡ x) ⊎ ((is_pending y.status ≡ false) × SameOffer x y × IsDated y)

abbrev pub GoOn : List TenantInvitation → List TenantInvitation → Type 0
GoOn [] ys = Unit
GoOn (x ∷ xs) [] = ⊥
GoOn (x ∷ xs) (y ∷ ys) = Goes x y × GoOn xs ys

Goes-trans : (x y z : TenantInvitation) → Goes x y → Goes y z → Goes x z
Goes-trans x y z (inl p) (inl q) = inl (q ∙ p)
Goes-trans x y z (inl p) (inr q) =
    inr (subst (λ a. (is_pending z.status ≡ false) × SameOffer a z × IsDated z) p q)
Goes-trans x y z (inr p) (inl q) =
    inr (subst (λ a. (is_pending a.status ≡ false) × SameOffer x a × IsDated a) (sym q) p)
Goes-trans x y z (inr p) (inr q) = inr (ground arith)

GoOn-refl : (xs : List TenantInvitation) → GoOn xs xs
GoOn-refl [] = tt
GoOn-refl (x ∷ xs) = (inl refl, GoOn-refl xs)

GoOn-trans : (xs ys zs : List TenantInvitation) → GoOn xs ys → GoOn ys zs → GoOn xs zs
GoOn-trans [] ys zs p q = tt
GoOn-trans (x ∷ xs) [] zs p q = absurd p
GoOn-trans (x ∷ xs) (y ∷ ys) [] p q = absurd q
GoOn-trans (x ∷ xs) (y ∷ ys) (z ∷ zs) p q = (Goes-trans x y z p.0 q.0, GoOn-trans xs ys zs p.1 q.1)

GoOn-concat : (xs : List TenantInvitation) (n : TenantInvitation) → GoOn xs (xs ++ n ∷ [])
GoOn-concat [] n = tt
GoOn-concat (x ∷ xs) n = (inl refl, GoOn-concat xs n)

-- The table is there, has no clashes, and its rows go on from `xs`.
abbrev pub Kept : List TenantInvitation → World → Type 0
Kept xs w =
    (ys : List TenantInvitation) × (invitations_repository.rows w ≡ some ys)
    × IsDistinct ys
    × GoOn xs ys

abbrev pub Keep : World → World → Type 0
Keep u v =
    (xs : List TenantInvitation)
    → invitations_repository.rows u ≡ some xs
    → IsDistinct xs
    → Kept xs v

pub Keep-order : Preorder Keep
Keep-order = record {
  same = λ w xs e d. (xs, e, d, GoOn-refl xs);
  after = λ u v w p q xs e d.
      let (ys, e', d', f) = p xs e d in
      let (zs, e'', d'', g) = q ys e' d' in (zs, e'', d'', GoOn-trans xs ys zs f g);
}

pub Keep-of_same : (u v : World) → v.public ≡ u.public → Keep u v
Keep-of_same u v e xs ex dx = (xs, ground arith, dx, GoOn-refl xs)

module _ (p : TenantInvitation → Bool) (f : TenantInvitation → TenantInvitation)
    (settles : Settles f) (now : ℕ) where
  step_row-Goes : (x : TenantInvitation) → Goes x (step_row p f settles now x)
  step_row-Goes x = elim (Bool-cases (p x)) [
    | inl fits ↦ rw fits (inr (ground (arith, settles x)))
    | inr other ↦ rw other (inl refl)
  ]

  GoOn-map : (xs : List TenantInvitation) → GoOn xs (map (step_row p f settles now) xs)
  GoOn-map [] = tt
  GoOn-map (x ∷ xs) = (step_row-Goes x, GoOn-map xs)

-- an update that settles rows
pub Keep-update :
    (p : TenantInvitation → Bool) (f : TenantInvitation → TenantInvitation) (settles : Settles f)
    (v : World) (rows : List TenantInvitation)
    → invitations_repository.rows v ≡ some rows
    → Keep v (invitations_repository.write (map (step_row p f settles v.clock) rows) v)
Keep-update p f settles v rows e xs ex dx =
    let same : xs ≡ rows = eq_of_some_eq xs rows (sym ex ∙ e) in
    (
      map (step_row p f settles v.clock) rows,
      invitations-write (map (step_row p f settles v.clock) rows) v rows e,
      Distinct-map Clash.invitation (step_row p f settles v.clock)
          (step_row-clash p f settles v.clock) rows (subst IsDistinct same dx),
      subst (λ zs. GoOn zs (map (step_row p f settles v.clock) rows)) (sym same)
          (GoOn-map p f settles v.clock rows),
    )

-- an insert that the unique columns let through
pub Keep-insert :
    (v : World) (rows : List TenantInvitation) (n : TenantInvitation)
    → invitations_repository.rows v ≡ some rows
    → any (Clash.invitation n) rows ≡ false
    → Keep v (invitations_repository.write (rows ++ n ∷ []) v)
Keep-insert v rows n e new xs ex dx =
    let same : xs ≡ rows = eq_of_some_eq xs rows (sym ex ∙ e) in
    (
      rows ++ n ∷ [],
      invitations-write (rows ++ n ∷ []) v rows e,
      Distinct-concat Clash.invitation clash_sym rows n (subst IsDistinct same dx) new,
      subst (λ zs. GoOn zs (rows ++ n ∷ [])) (sym same) (GoOn-concat rows n),
    )
