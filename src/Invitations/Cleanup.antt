-- ===== src/Invitations/Cleanup.antt =====
-- What the cron job leaves (`expireStaleInvitations` of src/tenant/tenant-invitation-cleanup.service.ts).
use multitenancy.Prelude.{
  ℕ, true, false, some, List, [], ◌∷◌, map, ◌≡◌, refl, ◌⊎◌, inl, inr, arith, Bool-cases,
  if◌then◌else◌,
}
use multitenancy.Enums.{InvitationStatus}
use multitenancy.Entities.{TenantInvitation}
use multitenancy.World.{World, ok}
use multitenancy.Platform.{Platform, Migration}
use multitenancy.Repository.{invitations_repository, sent}
use multitenancy.Repository.Accepted.{update_where_accepted}
use multitenancy.Invitations.{is_stale, mark_expired, expire_stale_invitations}
use multitenancy.Invitations.Progress.{SameOffer}

-- a row that was stale is expired, with the same offer; any other is as it was
abbrev pub Swept : ℕ → List TenantInvitation → List TenantInvitation → Type 0
Swept now [] [] = Unit
Swept now [] (y ∷ ys) = ⊥
Swept now (x ∷ xs) [] = ⊥
Swept now (x ∷ xs) (y ∷ ys) =
    (((is_stale now x ≡ false) × (y ≡ x))
      ⊎ ((is_stale now x ≡ true) × (y.status ≡ InvitationStatus.expired) × SameOffer x y))
    × (is_stale now y ≡ false)
    × Swept now xs ys

abbrev swept : ℕ → ℕ → TenantInvitation → TenantInvitation
swept now at x = if is_stale now x then invitations_repository.touch at (mark_expired x) else x

map-Swept : (now at : ℕ) (rows : List TenantInvitation) → Swept now rows (map (swept now at) rows)
map-Swept now at [] = tt
map-Swept now at (x ∷ xs) = elim (Bool-cases (is_stale now x)) [
  | inl stale ↦ rw stale (inr (refl, refl, ground arith), refl, map-Swept now at xs)
  | inr fresh ↦ rw fresh (inl (refl, refl), fresh, map-Swept now at xs)
]

module _ (sys : Platform) (ups : List Migration) where
  -- The job, when its statement is not rejected, expires exactly the pending invitations whose time
  -- had run out when it began, and changes no other row; none of those is left pending.
  pub expire_sweeps :
      (w : World) (rows : List TenantInvitation)
      → invitations_repository.rows w ≡ some rows
      → sys.rejects w.calls ≡ false
      → let (r, v) = expire_stale_invitations sys ups w in
        (r ≡ ok tt)
        × ((after : List TenantInvitation) × (invitations_repository.rows v ≡ some after)
            × Swept w.clock rows after)
  unfolding expire_stale_invitations
  expire_sweeps w rows e sends =
      rw
        (update_where_accepted sys w sends invitations_repository rows (ground arith)
          (is_stale w.clock) mark_expired)
        (
          refl,
          (
            map (swept w.clock (sent sys w).clock) rows,
            ground arith,
            map-Swept w.clock (sent sys w).clock rows,
          ),
        )
