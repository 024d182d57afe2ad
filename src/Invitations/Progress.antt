-- ===== src/Invitations/Progress.antt =====
-- How the table of invitations may change: rows are added at the end, a row that is no longer pending
-- never changes, and a pending one can only be settled. This is about the operations of
-- src/tenant/tenant.service.ts and src/tenant/tenant-invitation-cleanup.service.ts.
use multitenancy.Prelude.{
  Bool, true, false, some, List, [], ◌∷◌, ◌++◌, map, ◌≡◌, refl, ◌⊎◌, inl, inr, ◌∙◌, sym, All, arith,
}
use multitenancy.Enums.{InvitationStatus}
use mathlib.Core.Path.{subst}
use multitenancy.Entities.{TenantInvitation}
use multitenancy.Entities.Clash
use multitenancy.World.{World, is_some}
use multitenancy.World.Evolves.{Preorder}
use multitenancy.Repository.{invitations_repository}
use multitenancy.Repository.Rows.{Distinct, ==_sym}
use multitenancy.Invitations.{is_pending}

-- What was offered, to whom, by whom and until when.
abbrev pub SameOffer : TenantInvitation → TenantInvitation → Type 0
SameOffer x y =
    (y.base.id ≡ x.base.id)
    × (y.base.created_at ≡ x.base.created_at)
    × (y.tenant_schema ≡ x.tenant_schema)
    × (y.email ≡ x.email)
    × (y.role ≡ x.role)
    × (y.token ≡ x.token)
    × (y.invited_by_user_id ≡ x.invited_by_user_id)
    × (y.expires_at ≡ x.expires_at)

-- An acceptance and a revocation are dated.
abbrev dated_as : InvitationStatus → TenantInvitation → Bool
dated_as InvitationStatus.accepted y = is_some y.accepted_at
dated_as InvitationStatus.revoked y = is_some y.revoked_at
dated_as _ y = true

abbrev pub IsDated : TenantInvitation → Type 0
IsDated y = dated_as y.status y ≡ true

-- A row stays as it is, or goes from pending to a final status, once.
abbrev pub Progress : TenantInvitation → TenantInvitation → Type 0
Progress x y =
    (y ≡ x)
    ⊎ ((is_pending x.status ≡ true) × (is_pending y.status ≡ false) × SameOffer x y × IsDated y)

abbrev pub Follows : List TenantInvitation → List TenantInvitation → Type 0
Follows [] ys = Unit
Follows (x ∷ xs) [] = ⊥
Follows (x ∷ xs) (y ∷ ys) = Progress x y × Follows xs ys

Progress-trans : (x y z : TenantInvitation) → Progress x y → Progress y z → Progress x z
Progress-trans x y z (inl p) (inl q) = inl (q ∙ p)
Progress-trans x y z (inl p) (inr q) = inr (
    subst
      (λ a.
        (is_pending a.status ≡ true) × (is_pending z.status ≡ false) × SameOffer a z × IsDated z)
      p q)
Progress-trans x y z (inr p) (inl q) = inr (
    subst
      (λ a.
        (is_pending x.status ≡ true) × (is_pending a.status ≡ false) × SameOffer x a × IsDated a)
      (sym q) p)
Progress-trans x y z (inr p) (inr q) = cc (p.1, q.0)

pub Follows-refl : (xs : List TenantInvitation) → Follows xs xs
Follows-refl [] = tt
Follows-refl (x ∷ xs) = (inl refl, Follows-refl xs)

pub Follows-trans :
    (xs ys zs : List TenantInvitation) → Follows xs ys → Follows ys zs → Follows xs zs
Follows-trans [] ys zs p q = tt
Follows-trans (x ∷ xs) [] zs p q = absurd p
Follows-trans (x ∷ xs) (y ∷ ys) [] p q = absurd q
Follows-trans (x ∷ xs) (y ∷ ys) (z ∷ zs) p q =
    (Progress-trans x y z p.0 q.0, Follows-trans xs ys zs p.1 q.1)

pub Follows-concat : (xs : List TenantInvitation) (n : TenantInvitation) → Follows xs (xs ++ n ∷ [])
Follows-concat [] n = tt
Follows-concat (x ∷ xs) n = (inl refl, Follows-concat xs n)

pub Follows-map :
    (f : TenantInvitation → TenantInvitation) (xs : List TenantInvitation)
    → All (λ x. Progress x (f x)) xs
    → Follows xs (map f xs)
Follows-map f [] h = tt
Follows-map f (x ∷ xs) h = (h.0, Follows-map f xs h.1)

pub clash_sym : (x y : TenantInvitation) → Clash.invitation x y ≡ Clash.invitation y x
clash_sym x y = ground (arith, ==_sym x.base.id y.base.id, ==_sym x.token y.token)

abbrev pub IsDistinct : List TenantInvitation → Type 0
IsDistinct = Distinct Clash.invitation

-- The table is there, has no clashes, and its rows follow `xs`.
abbrev pub Tracked : List TenantInvitation → World → Type 0
Tracked xs w =
    (ys : List TenantInvitation) × (invitations_repository.rows w ≡ some ys)
    × IsDistinct ys
    × Follows xs ys

-- From a table without clashes, the later table has none, and its rows follow the earlier ones.
abbrev pub Track : World → World → Type 0
Track u v =
    (xs : List TenantInvitation)
    → invitations_repository.rows u ≡ some xs
    → IsDistinct xs
    → Tracked xs v

pub Track-order : Preorder Track
Track-order = record {
  same = λ w xs e d. (xs, e, d, Follows-refl xs);
  after = λ u v w p q xs e d.
      let (ys, e', d', f) = p xs e d in
      let (zs, e'', d'', g) = q ys e' d' in (zs, e'', d'', Follows-trans xs ys zs f g);
}
