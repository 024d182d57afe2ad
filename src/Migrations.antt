-- ===== src/Migrations.antt =====
-- The migrations that are checked in under src/database/migrations, as lists of statements.
pub mod Undone
pub mod Options
pub mod Startup
use multitenancy.Prelude.{String, Bool, true, false, Option, none, some, List, [], ◌∷◌, ◌++◌}

-- the name of a table or of a type
pub data Name : Type 0 where
  within : String → String → Name
  unqualified : String → Name

pub data ColumnType : Type 0 where
  builtin : String → ColumnType
  enumeration : Name → ColumnType

-- a column: its name, its type, whether it is NOT NULL, its default
pub data Column : Type 0 where
  column : String → ColumnType → Bool → Option String → Column

pub data Constraint : Type 0 where
  unique primary_key : String → String → Constraint

pub data OnDelete : Type 0 where
  cascade set_null : OnDelete

pub data Statement : Type 0 where
  create_type : Name → List String → Statement
  create_table : Name → List Column → List Constraint → Statement
  add_foreign_key : Name → String → String → Name → OnDelete → Statement
  drop_type drop_table : Name → Statement
  drop_constraint : Name → String → Statement

-- `BaseEntity`
abbrev base_columns : List Column
base_columns =
    column "id" (builtin "uuid") true (some "uuid_generate_v4()")
    ∷ column "created_at" (builtin "TIMESTAMP") true (some "now()")
    ∷ column "updated_at" (builtin "TIMESTAMP") true (some "now()")
    ∷ []

abbrev products_columns : String → List Column
products_columns schema =
    base_columns
    ++ (column "title" (builtin "character varying") true none
        ∷ column "description" (builtin "character varying") false none
        ∷ column "tenant_schema" (builtin "character varying") true none
        ∷ [])

abbrev feedback_columns : String → List Column
feedback_columns schema =
    base_columns
    ++ (column "content" (builtin "character varying") false none
        ∷ column "status" (enumeration (within schema "feedback_status_enum")) false none
        ∷ column "priority" (enumeration (within schema "feedback_priority_enum")) false none
        ∷ column "feedback_type" (enumeration (within schema "feedback_feedback_type_enum")) false
            none
        ∷ column "voteCount" (builtin "integer") false (some "'0'")
        ∷ column "user_id" (builtin "character varying") true none
        ∷ column "product_id" (builtin "uuid") false none
        ∷ column "change_log_id" (builtin "uuid") false none
        ∷ [])

abbrev change_logs_columns : String → List Column
change_logs_columns schema =
    base_columns
    ++ (column "product_id" (builtin "uuid") true none
        ∷ column "title" (builtin "character varying") true none
        ∷ column "content" (builtin "text") true none
        ∷ column "type" (enumeration (within schema "change-logs_type_enum")) true (some "'bugfix'")
        ∷ column "status" (enumeration (within schema "change-logs_status_enum")) true
            (some "'draft'")
        ∷ column "version" (builtin "character varying") false none
        ∷ column "published_at" (builtin "TIMESTAMP") false none
        ∷ [])

abbrev users_columns : String → List Column
users_columns schema =
    base_columns
    ++ (column "email" (builtin "character varying") true none
        ∷ column "role" (enumeration (within schema "users_role_enum")) true (some "'member'")
        ∷ column "password_hash" (builtin "character varying") false none
        ∷ column "display_name" (builtin "character varying") true none
        ∷ column "avatar_url" (builtin "character varying") false none
        ∷ column "activated_at" (builtin "TIMESTAMP") false none
        ∷ column "password_changed_at" (builtin "TIMESTAMP") false none
        ∷ column "last_login_date" (builtin "TIMESTAMP") false none
        ∷ [])

abbrev tenants_columns : List Column
tenants_columns =
    base_columns
    ++ (column "name" (builtin "character varying") true none
        ∷ column "slug" (builtin "character varying") true none
        ∷ column "tenant_owner_email" (builtin "character varying") true none
        ∷ column "schema_name" (builtin "character varying") true none
        ∷ column "status" (enumeration (within "public" "tenants_status_enum")) true
            (some "'PENDING'")
        ∷ column "plan" (enumeration (within "public" "tenants_plan_enum")) true (some "'FREE'")
        ∷ [])

abbrev invitations_columns : List Column
invitations_columns =
    base_columns
    ++ (column "tenant_schema" (builtin "character varying") true none
        ∷ column "status" (enumeration (within "public" "invitations_status_enum")) true
            (some "'PENDING'")
        ∷ column "email" (builtin "character varying") true none
        ∷ column "role" (enumeration (within "public" "invitations_role_enum")) true
            (some "'member'")
        ∷ column "token" (builtin "character varying") true none
        ∷ column "invited_by_user_id" (builtin "character varying") true none
        ∷ column "expires_at" (builtin "TIMESTAMP WITH TIME ZONE") true none
        ∷ column "accepted_at" (builtin "TIMESTAMP WITH TIME ZONE") false none
        ∷ column "revoked_at" (builtin "TIMESTAMP WITH TIME ZONE") false none
        ∷ [])

unfoldable pub tenant_up : String → List Statement
tenant_up schema =
    create_table (within schema "products") (products_columns schema) (
      unique "UQ_a870a448d7a274f305a0937265c" "tenant_schema"
      ∷ primary_key "PK_0806c755e0aca124e67c0cf6d7d" "id"
      ∷ [])
    ∷ create_type (within schema "feedback_status_enum")
        ("OPEN" ∷ "UNDER_REVIEW" ∷ "IN_PROGRESS" ∷ "RESOLVED" ∷ [])
    ∷ create_type (within schema "feedback_priority_enum") ("LOW" ∷ "MEDIUM" ∷ "HIGH" ∷ [])
    ∷ create_type (within schema "feedback_feedback_type_enum")
        ("BUG" ∷ "FEATURE_REQUEST" ∷ "IMPROVEMENT" ∷ [])
    ∷ create_table (within schema "feedback") (feedback_columns schema)
        (primary_key "PK_8389f9e087a57689cd5be8b2b13" "id" ∷ [])
    ∷ create_type (within schema "change-logs_type_enum")
        ("feature" ∷ "improvement" ∷ "bugfix" ∷ "breaking" ∷ "security" ∷ [])
    ∷ create_type (within schema "change-logs_status_enum")
        ("draft" ∷ "published" ∷ "archived" ∷ [])
    ∷ create_table (within schema "change-logs") (change_logs_columns schema)
        (primary_key "PK_87f1f3033bac75e6ac3ee32866b" "id" ∷ [])
    ∷ create_type (within schema "users_role_enum") ("owner" ∷ "admin" ∷ "member" ∷ [])
    ∷ create_table (within schema "users") (users_columns schema) (
        unique "UQ_97672ac88f789774dd47f7c8be3" "email"
        ∷ primary_key "PK_a3ffb1c0c8416b9fc6f907b7433" "id"
        ∷ [])
    ∷ add_foreign_key (within schema "feedback") "FK_2477562980219ad72afcbe73530" "product_id"
        (within schema "products") cascade
    ∷ add_foreign_key (within schema "feedback") "FK_1c08b2ed11261c8382273d0eaa6" "change_log_id"
        (within schema "change-logs") set_null
    ∷ add_foreign_key (within schema "change-logs") "FK_c3b0853ef921da572f0ba83696e" "product_id"
        (within schema "products") cascade
    ∷ []

unfoldable pub tenant_down : String → List Statement
tenant_down schema =
    drop_constraint (within schema "change-logs") "FK_c3b0853ef921da572f0ba83696e"
    ∷ drop_constraint (within schema "feedback") "FK_1c08b2ed11261c8382273d0eaa6"
    ∷ drop_constraint (within schema "feedback") "FK_2477562980219ad72afcbe73530"
    ∷ drop_table (within schema "users")
    ∷ drop_type (within schema "users_role_enum")
    ∷ drop_table (within schema "change-logs")
    ∷ drop_type (within schema "change-logs_status_enum")
    ∷ drop_type (within schema "change-logs_type_enum")
    ∷ drop_table (within schema "feedback")
    ∷ drop_type (within schema "feedback_feedback_type_enum")
    ∷ drop_type (within schema "feedback_priority_enum")
    ∷ drop_type (within schema "feedback_status_enum")
    ∷ drop_table (within schema "products")
    ∷ []

unfoldable pub public_up : List Statement
public_up =
    create_type (within "public" "tenants_status_enum")
      ("PENDING" ∷ "ACTIVE" ∷ "INACTIVE" ∷ "SUSPENDED" ∷ [])
    ∷ create_type (within "public" "tenants_plan_enum") ("FREE" ∷ "PRO" ∷ "ENTERPRISE" ∷ [])
    ∷ create_table (unqualified "tenants") (tenants_columns) (
        unique "UQ_2310ecc5cb8be427097154b18fc" "slug"
        ∷ unique "UQ_03c2af5c19d2dfa8a6083df0195" "tenant_owner_email"
        ∷ unique "UQ_c2a961556326eec0e3b19f3ced5" "schema_name"
        ∷ primary_key "PK_53be67a04681c66b87ee27c9321" "id"
        ∷ [])
    ∷ create_type (within "public" "invitations_status_enum")
        ("PENDING" ∷ "ACCEPTED" ∷ "REVOKED" ∷ "EXPIRED" ∷ [])
    ∷ create_type (within "public" "invitations_role_enum") ("owner" ∷ "admin" ∷ "member" ∷ [])
    ∷ create_table (unqualified "invitations") (invitations_columns) (
        unique "UQ_e577dcf9bb6d084373ed3998509" "token"
        ∷ primary_key "PK_5dec98cfdfd562e4ad3648bbb07" "id"
        ∷ [])
    ∷ []

unfoldable pub public_down : List Statement
public_down =
    drop_table (unqualified "invitations")
    ∷ drop_type (within "public" "invitations_role_enum")
    ∷ drop_type (within "public" "invitations_status_enum")
    ∷ drop_table (unqualified "tenants")
    ∷ drop_type (within "public" "tenants_plan_enum")
    ∷ drop_type (within "public" "tenants_status_enum")
    ∷ []

-- The files that are checked in. Two of them have the same statements, for different schemas.
pub data CheckedIn : Type 0 where
  public_tables tenant_template tenant_acme : CheckedIn

unfoldable pub up : CheckedIn → List Statement
unfolding public_up tenant_up
up public_tables = public_up
up tenant_template = tenant_up "temporary_tenant_template"
up tenant_acme = tenant_up "tenant_acme"

unfoldable pub down : CheckedIn → List Statement
unfolding public_down tenant_down
down public_tables = public_down
down tenant_template = tenant_down "temporary_tenant_template"
down tenant_acme = tenant_down "tenant_acme"
