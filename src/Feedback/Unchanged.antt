-- ===== src/Feedback/Unchanged.antt =====
-- What `updateFeedback` of src/feedback/feedback.service.ts changes.
use multitenancy.Prelude.{
  String, Bool, true, false, Option, none, some, List, ◌≡◌, refl, sym, ◌∙◌, ◌==◌, eq_iff, In,
  All-In, any, Bool-cases, inl, inr, arith, eq_of_some_eq,
}
use multitenancy.Entities.{Feedback}
use multitenancy.Exceptions.{Exception, database}
use multitenancy.Cache
use multitenancy.World.{World, DataSource, raise, catch, recover, pure}
use multitenancy.World.Runs.{Runs, Post, Runs-bind, Runs-pure, Runs-raise, Runs-or_raise, Runs-to}
use multitenancy.Platform.{Platform, Migration}
use multitenancy.Repository.{Repository, feedback_repository, products_repository, sent}
use multitenancy.Repository.Runs.{Runs-find_one}
use multitenancy.Provisioning.{data_source, get_data_source}
use multitenancy.Provisioning.Reuse.{get_data_source-cached}
use multitenancy.Feedback.{
  PartialFeedbackDto, Unawaited, lands_first, lands_later, properties_of, every, feedback_columns,
  send_update, unseen, find_by_id, update_and_read, get_feedback_by_id, update_feedback, if_given,
}

abbrev is_known : String → Bool
is_known name = any (λ column. column == name) feedback_columns

every-given {ℓ} :
    {A : Type ℓ} (o : Option A) (name : String) (rest : List String)
    → every is_known rest ≡ false
    → every is_known (if_given o name rest) ≡ false
every-given none name rest h = h
every-given (some a) name rest h = ground arith

given-unknown {ℓ} :
    {A : Type ℓ} (o : Option A) (a : A) (name : String) (rest : List String)
    → o ≡ some a
    → is_known name ≡ false
    → every is_known (if_given o name rest) ≡ false
given-unknown none a name rest e h = cc e
given-unknown (some b) a name rest e h = ground arith

-- A row is named by `feedbackId`, which is no column.
names_no_column :
    (dto : PartialFeedbackDto) (id : String)
    → dto.feedback_id ≡ some id
    → every is_known (properties_of dto) ≡ false
unfolding properties_of
names_no_column dto id e = every-given dto.content "content" _ (
    every-given dto.priority "priority" _ (
      every-given dto.type "type" _ (
        every-given dto.status "status" _ (
          every-given dto.product_id "productId" _
            (given-unknown dto.feedback_id id "feedbackId" _ e refl)))))

-- From `w` to `v` the tables and the connections are the same.
abbrev pub Kept : World → World → Type 0
Kept w v = (v.public ≡ w.public) × (v.schemas ≡ w.schemas) × (v.connections ≡ w.connections)

-- the row that is named, if one is
abbrev pub Named : Option String → Feedback → Type 0
Named none f = Unit {0}
Named (some id) f = f.base.id ≡ id

-- what is read is one of the rows, and the one that is named
abbrev pub OldRow : List Feedback → Option String → Option Feedback → Type 0
OldRow rows id read = (f : Feedback) → read ≡ some f → In f rows × Named id f

abbrev pub After : World → List Feedback → Option String → Option Feedback → World → Type 0
After w rows id read v = OldRow rows id read × Kept w v

module _ (sys : Platform) (ups : List Migration) where
  refused_by :
      (ds : DataSource) (dto : PartialFeedbackDto) (o : Option String)
      → dto.feedback_id ≡ o
      → (x : Exception) × (send_update sys ups ds dto o ≡ raise x)
  unfolding send_update
  refused_by ds dto none e = (_, refl)
  refused_by ds dto (some id) e = elim (Bool-cases (id == "")) [
    | inl empty ↦ (database "Empty criteria(s) are not allowed", rw empty refl)
    | inr given ↦
        (database "property was not found in Feedback", rw (given, names_no_column dto id e) refl)
  ]

  unseen_lem :
      (ds : DataSource) (dto : PartialFeedbackDto)
      → unseen sys ups (send_update sys ups ds dto dto.feedback_id) ≡ pure tt
  unfolding catch recover raise pure
  unseen_lem ds dto = let (x, refused) = refused_by ds dto dto.feedback_id refl in rw refused refl

  module _ (schema : String) (w : World)
      (known : Cache.get schema w.connections ≡ some (data_source schema)) (rows : List Feedback)
      (there : (feedback_repository (data_source schema)).rows w ≡ some rows) where
    abbrev On : DataSource → World → Type 0
    On ds v = (ds ≡ data_source schema) × Kept w v

    get-On :
        (P : World → Type 0)
        → ((v : World) → P v → Kept w v)
        → Runs P
            (get_data_source sys ups schema)
            (λ ds v. (ds ≡ data_source schema) × P v)
            (λ _. Kept w)
    get-On P kept = record {
      at = λ v h.
          rw (get_data_source-cached sys ups schema v (data_source schema) (rw (kept v h).2 known))
            (refl, h);
    }

    find-On :
        {E : Type 0} (ds : DataSource) (loose : Bool) (repo : Repository E) (id_of : E → String)
        (id : Option String)
        → Runs (On ds) (find_by_id sys ups loose repo id_of id) (λ _. On ds) (λ _. Kept w)
    unfolding find_by_id
    find-On ds loose repo id_of (some id) = Runs-find_one sys repo (λ x v h. h.1) _ (λ v xs h e. h)
    find-On ds true repo id_of none = Runs-find_one sys repo (λ x v h. h.1) _ (λ v xs h e. h)
    find-On ds false repo id_of none = Runs-raise _ (λ v h. h.1)

    feedback-On :
        (ds : DataSource) (loose : Bool) (id : Option String)
        → Runs (On ds) (get_feedback_by_id sys ups loose schema id) (λ _. On ds) (λ _. Kept w)
    unfolding get_feedback_by_id
    feedback-On ds loose id =
        Runs-bind _ _ (λ _. On ds)
          (Runs-to _ (λ es v. (es ≡ data_source schema) × On ds v) (λ _. Kept w) (λ es v h. h.1)
            (λ x v h. h) (get-On (On ds) (λ v h. h.1)))
          λ es.
            Runs-bind _ _ (λ _. On ds)
              (find-On ds loose (feedback_repository es) (λ f. f.base.id) id)
              λ found. Runs-or_raise found _ (λ e v h. h.1) (λ f e v h. h)

    old_rows :
        (ds : DataSource) (v : World) (fs : List Feedback)
        → On ds v
        → (feedback_repository ds).rows (sent sys v) ≡ some fs
        → fs ≡ rows
    old_rows ds v fs (same, (public, schemas, conn)) e =
        eq_of_some_eq fs rows (sym (rw (same, schemas) at e) ∙ there)

    read-After :
        (ds : DataSource) (loose : Bool) (id : Option String)
        → Runs
            (On ds)
            (find_by_id sys ups loose (feedback_repository ds) (λ f. f.base.id) id)
            (After w rows id)
            (λ _. Kept w)
    unfolding find_by_id
    read-After ds loose (some id) =
        Runs-find_one sys (feedback_repository ds) (λ x v h. h.1) (λ f. f.base.id == id)
          λ v fs h e. (
            λ f found.
                let (fits, member) =
                  sys.find_one_sound Feedback (λ x. x.base.id == id) (λ x. In x rows) rows f
                    (rw (old_rows ds v fs h e) at found) (All-In rows) in
                (member, (eq_iff f.base.id id).0 fits),
            h.1,
          )
    read-After ds true none =
        Runs-find_one sys (feedback_repository ds) (λ x v h. h.1) (λ f. true)
          λ v fs h e. (
            λ f found.
                let (fits, member) =
                  sys.find_one_sound Feedback (λ x. true) (λ x. In x rows) rows f
                    (rw (old_rows ds v fs h e) at found) (All-In rows) in
                (member, tt),
            h.1,
          )
    read-After ds false none = Runs-raise _ (λ v h. h.1)

    finish-After :
        (ds : DataSource) (loose : Bool) (order : Unawaited) (dto : PartialFeedbackDto)
        → Runs
            (On ds)
            (update_and_read sys ups loose order ds dto)
            (After w rows dto.feedback_id)
            (λ _. Kept w)
    unfolding update_and_read
    finish-After ds loose lands_first dto =
        Runs-bind _ _ (λ _. On ds) (rw (unseen_lem ds dto) (Runs-pure tt (λ v h. h)))
          λ _. read-After ds loose dto.feedback_id
    finish-After ds loose lands_later dto =
        Runs-bind _ _ (After w rows dto.feedback_id) (read-After ds loose dto.feedback_id) λ read.
          Runs-bind _ _ (λ _. After w rows dto.feedback_id read)
            (rw (unseen_lem ds dto) (Runs-pure tt (λ v h. h))) λ _. Runs-pure read (λ v h. h)

    update-After :
        (loose : Bool) (order : Unawaited) (dto : PartialFeedbackDto)
        → Runs
            (Kept w)
            (update_feedback sys ups loose order schema dto)
            (After w rows dto.feedback_id)
            (λ _. Kept w)
    unfolding update_feedback
    update-After loose order dto = Runs-bind _ _ On (get-On (Kept w) (λ v h. h)) λ ds.
        Runs-bind _ _ (λ _. On ds) (feedback-On ds loose dto.feedback_id)
          λ _.
            Runs-bind _ _ (λ _. On ds)
              (find-On ds loose (products_repository ds) (λ p. p.base.id) dto.product_id)
              λ found.
                Runs-bind _ _ (λ _. On ds) (Runs-or_raise found _ (λ e v h. h.1) (λ p e v h. h))
                  λ _. finish-After ds loose order dto

    -- From a cached connection, whichever properties of the class the request has, and however it ends:
    -- `updateFeedback` changes no table, and what it answers with is a row as it was before, of the id if
    -- one is given. The update is refused before it is sent, since the object has `feedbackId`, which is
    -- no column, or since there is no id.
    pub update_feedback_changes_nothing :
        (loose : Bool) (order : Unawaited) (dto : PartialFeedbackDto)
        → Post
            (After w rows dto.feedback_id)
            (λ _. Kept w)
            (update_feedback sys ups loose order schema dto w)
    update_feedback_changes_nothing loose order dto =
        (update-After loose order dto).at w (refl, refl, refl)
