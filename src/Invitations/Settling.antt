-- ===== src/Invitations/Settling.antt =====
-- What the updates of invitations do to one row and to the table: they settle pending rows and keep the
-- offers (the calls of `update` and `save` in src/tenant/tenant.service.ts).
use multitenancy.Prelude.{
  ℕ, Bool, true, false, some, List, [], ◌∷◌, ◌++◌, map, ◌≡◌, ◌==◌, any, sym, ◌∙◌, All, All-weaken,
  eq_of_some_eq, arith, if◌then◌else◌,
}
use mathlib.Core.Path.{subst}
use multitenancy.Entities.{TenantInvitation}
use multitenancy.Entities.Clash
use multitenancy.World.{World}
use multitenancy.Platform.{Platform}
use multitenancy.Repository.{invitations_repository}
use multitenancy.Repository.Rows.{Distinct-concat, Distinct-map, Distinct-Identifies, Identifies}
use multitenancy.Invitations.{is_pending, mark_accepted, mark_revoked, mark_expired}
use multitenancy.Invitations.Progress.{
  Progress, IsDated, SameOffer, IsDistinct, Tracked, clash_sym, Follows-concat, Follows-map,
  Follows-trans, Follows,
}

-- what an update does to one row
abbrev pub touched : ℕ → TenantInvitation → TenantInvitation
touched now x = invitations_repository.touch now x

-- An update that settles rows: it keeps the offer, and leaves a final status with its date.
abbrev pub Settles : (TenantInvitation → TenantInvitation) → Type 0
Settles f =
    (x : TenantInvitation) → (is_pending (f x).status ≡ false) × SameOffer x (f x) × IsDated (f x)

module _ (p : TenantInvitation → Bool) (f : TenantInvitation → TenantInvitation)
    (settles : Settles f) (now : ℕ) where
  abbrev pub step_row : TenantInvitation → TenantInvitation
  step_row x = if p x then touched now (f x) else x

  pub step_row-clash :
      (x y : TenantInvitation) → Clash.invitation (step_row x) (step_row y) ≡ Clash.invitation x y
  step_row-clash x y = ground (arith, settles x, settles y)

  step_row-Progress :
      (x : TenantInvitation) → (p x ≡ true → is_pending x.status ≡ true) → Progress x (step_row x)
  step_row-Progress x h = ground (arith, settles x)

pub mark_expired-Settles : Settles mark_expired
mark_expired-Settles x = ground arith

pub mark_accepted-Settles : (now : ℕ) → Settles (mark_accepted now)
mark_accepted-Settles now x = ground arith

pub mark_revoked-Settles : (now : ℕ) → Settles (mark_revoked now)
mark_revoked-Settles now x = ground arith

-- The rows with the identity of `i` are pending.
abbrev pub IdPending : TenantInvitation → World → Type 0
IdPending i w =
    (rows : List TenantInvitation)
    → invitations_repository.rows w ≡ some rows
    → All (λ z. (z.base.id == i.base.id) ≡ true → is_pending z.status ≡ true) rows

pub invitations-write :
    (new : List TenantInvitation) (w : World) (rows : List TenantInvitation)
    → invitations_repository.rows w ≡ some rows
    → invitations_repository.rows (invitations_repository.write new w) ≡ some new
invitations-write new w rows e = ground arith

same_id_clashes :
    (x y : TenantInvitation) → (x.base.id == y.base.id) ≡ true → Clash.invitation x y ≡ true
same_id_clashes x y h = ground arith

-- the table after an update of some rows, all of them pending
pub after_update :
    (p : TenantInvitation → Bool) (f : TenantInvitation → TenantInvitation) (settles : Settles f)
    (xs : List TenantInvitation) (v : World) (rows : List TenantInvitation)
    → invitations_repository.rows v ≡ some rows
    → All (λ x. p x ≡ true → is_pending x.status ≡ true) rows
    → Tracked xs v
    → Tracked xs (invitations_repository.write (map (step_row p f settles v.clock) rows) v)
after_update p f settles xs v rows e pending (ys, ey, dy, fol) =
    let same : ys ≡ rows = eq_of_some_eq ys rows (sym ey ∙ e) in
    (
      map (step_row p f settles v.clock) rows,
      invitations-write (map (step_row p f settles v.clock) rows) v rows e,
      Distinct-map Clash.invitation (step_row p f settles v.clock)
          (step_row-clash p f settles v.clock) rows (subst IsDistinct same dy),
      Follows-trans xs rows (map (step_row p f settles v.clock) rows) (subst (Follows xs) same fol)
          (Follows-map (step_row p f settles v.clock) rows
            (All-weaken _ _ rows (λ x. step_row-Progress p f settles v.clock x) pending)),
    )

-- the table after an insert
pub after_insert :
    (xs : List TenantInvitation) (v : World) (rows : List TenantInvitation) (n : TenantInvitation)
    → invitations_repository.rows v ≡ some rows
    → any (Clash.invitation n) rows ≡ false
    → Tracked xs v
    → Tracked xs (invitations_repository.write (rows ++ n ∷ []) v)
after_insert xs v rows n e new (ys, ey, dy, fol) =
    let same : ys ≡ rows = eq_of_some_eq ys rows (sym ey ∙ e) in
    (
      rows ++ n ∷ [],
      invitations-write (rows ++ n ∷ []) v rows e,
      Distinct-concat Clash.invitation clash_sym rows n (subst IsDistinct same dy) new,
      Follows-trans xs rows (rows ++ n ∷ []) (subst (Follows xs) same fol) (Follows-concat rows n),
    )

-- what is found among rows without clashes stands for its identity
pub found_pending :
    (sys : Platform) (p : TenantInvitation → Bool) (i : TenantInvitation)
    (rows : List TenantInvitation)
    → IsDistinct rows
    → sys.find_one TenantInvitation p rows ≡ some i
    → ((x : TenantInvitation) → p x ≡ true → is_pending x.status ≡ true)
    → All (λ z. (z.base.id == i.base.id) ≡ true → is_pending z.status ≡ true) rows
found_pending sys p i rows d found open_row =
    let (fits, alone) =
      sys.find_one_sound TenantInvitation p
        (Identifies Clash.invitation (λ a b. a.base.id == b.base.id) same_id_clashes clash_sym rows)
        rows i found
        (Distinct-Identifies Clash.invitation (λ a b. a.base.id == b.base.id) same_id_clashes
          clash_sym rows d) in
    All-weaken _ _ rows (λ z same e. rw (same e) (open_row i fits)) alone
