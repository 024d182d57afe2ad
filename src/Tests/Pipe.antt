-- ===== src/Tests/Pipe.antt =====
-- A pipe that does what the documentation says, with a simple test of addresses.
use multitenancy.Prelude.{
  String, Bool, true, false, List, ◌≡◌, refl, ◌==◌, ◌&&◌, ◌||◌, not, any, leb,
}
use multitenancy.Json.{Json, str, Fields}
use multitenancy.Bodies.{
  Decorator, is_string, is_email, is_number, is_date, min_length, matches, is_enum, PipeOptions,
  Property, is_text, is_num, every, declared, holds, Pipe,
}
use multitenancy.Validation.{chars}

-- an address is any text but the empty one
abbrev meets : Decorator → Json → Bool
meets is_string v = is_text v
meets is_email (str s) = not (s == "")
meets is_number v = is_num v
meets (min_length n) (str s) = leb n (chars s)
meets (matches r) (str s) = r s
meets (is_enum labels) (str s) = any (λ l. l == s) labels
meets d v = false

abbrev pub accepts : PipeOptions → List Property → Fields → Bool
accepts options ps body =
    (not (options.whitelist && options.forbid_non_whitelisted) || declared ps body)
    && every (holds meets body) ps

pub email-IsText : (v : Json) → meets is_email v ≡ true → is_text v ≡ true
email-IsText (str s) h = refl
email-IsText v h = cc h

pub enum-IsText :
    (labels : List String) (v : Json) → meets (is_enum labels) v ≡ true → is_text v ≡ true
enum-IsText labels (str s) h = refl
enum-IsText labels v h = cc h

pub no_date : (v : Json) → meets is_date v ≡ false
no_date v = refl

abbrev pub pipe : Pipe
pipe = record {
  meets = meets;
  accepts = accepts;
  meets_string = λ v. refl;
  meets_email = email-IsText;
  meets_number = λ v. refl;
  meets_date = no_date;
  meets_min_length = λ n s. refl;
  meets_pattern = λ r s. refl;
  meets_enum = λ labels s. refl;
  meets_enum_text = enum-IsText;
  accepts_lem = λ options ps body. refl;
}
