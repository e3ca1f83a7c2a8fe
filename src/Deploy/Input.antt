-- ===== src/Deploy/Input.antt =====
-- The inputs of a deployment and their validation (dashboard/packages/api/src/routers/deploy.ts).
use robotics_pacific_rim.Base.{
  ℕ, Text, text, eq_text, trim, is_letter, is_digit, is_empty, has_text, or_else, leb, ◌==◌,
  if◌then◌else◌, Bool, true, false, ◌&&◌, ◌||◌, Option, none, some, List, [], ◌∷◌, ◌++◌,
}
use robotics_pacific_rim.Base.Result.{Result, ok, err, ◌>>=◌, ◌>>◌, ensure}
use robotics_pacific_rim.Base.Decimal.{show_nat}

-- A JavaScript number as far as this code tells numbers apart: a whole one, at least 0 or below, or
-- another (a fraction, an infinity, NaN), with the text that `String` gives it.
pub data Number : Type 0 where
  whole : ℕ → Number
  negative : ℕ → Number
  other : Text → Number

-- `negative n` is -(n + 1).
unfoldable pub show_number : Number → Text
show_number (whole n) = show_nat n
show_number (negative n) = b'-' ∷ show_nat (Prim.Native.Nat.suc n)
show_number (other t) = t

-- `Number.isInteger(x) && x >= lo && x <= hi`, for natural bounds.
unfoldable pub is_integer_within : ℕ → ℕ → Number → Bool
is_integer_within lo hi (whole n) = leb lo n && leb n hi
is_integer_within lo hi (negative n) = false
is_integer_within lo hi (other t) = false

pub record DeployTargetInput : Type 0 where
  pub host : Text
  pub port : Option Number
  pub user : Option Text

pub record DeployImageBaseInput : Type 0 where
  pub target : DeployTargetInput
  pub open target use *
  pub domain_id : Option Number
  pub dry_run : Bool
  pub logs_tail : Option Number
  pub no_cache : Bool
  pub no_logs : Bool
  pub password : Option Text
  pub platform : Option Text
  pub pull : Bool

pub record DeployImageInput : Type 0 where
  pub base : DeployImageBaseInput
  pub package_name : Option Text
  pub package_names : Option (List Text)

-- What `validateDeployTarget` returns: every field is there.
pub record DeployTarget : Type 0 where
  pub host : Text
  pub port : Number
  pub user : Text

-- The errors that this code throws, with what their messages quote.
pub data Failure : Type 0 where
  invalid_host invalid_user invalid_package invalid_platform unknown_package : Text → Failure
  invalid_port invalid_domain invalid_tail : Number → Failure
  no_package : Failure
  command_failed io_error : Text → Failure

abbrev quoted : Text → Text → Text
quoted before value = before ++ (b'"' ∷ (value ++ text "\"."))

-- The messages of the errors.
unfoldable pub message : Failure → Text
message (invalid_host t) = quoted (text "Invalid deploy host ") t
message (invalid_user t) = quoted (text "Invalid deploy user ") t
message (invalid_package t) = quoted (text "Invalid ROS package name ") t
message (invalid_platform t) = quoted (text "Invalid deploy platform ") t
message (unknown_package t) = quoted (text "Unknown deploy package ") t
message (invalid_port n) = quoted (text "Invalid deploy port ") (show_number n)
message (invalid_domain n) = quoted (text "Invalid ROS_DOMAIN_ID ") (show_number n)
message (invalid_tail n) = quoted (text "Invalid logs tail ") (show_number n)
message no_package = text "Select at least one ROS package."
message (command_failed t) = t
message (io_error t) = t

abbrev pub default_user : Text
default_user = text "jetson"

abbrev pub default_port : Number
default_port = whole 22

abbrev pub default_domain : Number
default_domain = whole 42

abbrev pub default_tail : Number
default_tail = whole 120

abbrev pub all_units : (ℕ → Bool) → Text → Bool
all_units p [] = true
all_units p (c ∷ s) = p c && all_units p s

abbrev pub is_host_unit : ℕ → Bool
is_host_unit c = is_letter c || is_digit c || c == b'.' || c == b'-'

abbrev pub is_word_unit : ℕ → Bool
is_word_unit c = is_letter c || is_digit c || c == b'_'

abbrev pub is_user_unit : ℕ → Bool
is_user_unit c = is_word_unit c || c == b'.' || c == b'-'

-- HOST_PATTERN.test.
unfoldable pub is_host : Text → Bool
is_host [] = false
is_host (c ∷ s) = (is_letter c || is_digit c) && all_units is_host_unit s

-- PACKAGE_NAME_PATTERN.test.
unfoldable pub is_package_name : Text → Bool
is_package_name [] = false
is_package_name (c ∷ s) = is_letter c && all_units is_word_unit s

-- The end of USER_PATTERN: one `$` may stand last.
unfoldable pub is_user_tail : Text → Bool
is_user_tail [] = true
is_user_tail (c ∷ []) = is_user_unit c || c == b'$'
is_user_tail (c ∷ d ∷ s) = is_user_unit c && is_user_tail (d ∷ s)

-- USER_PATTERN.test.
unfoldable pub is_user : Text → Bool
is_user [] = false
is_user (c ∷ s) = (is_letter c || c == b'_') && is_user_tail s

-- PLATFORM_PATTERN.test.
unfoldable pub is_platform : Text → Bool
is_platform t =
    eq_text t (text "linux/amd64")
    || eq_text t (text "linux/arm64")
    || eq_text t (text "linux/arm/v7")

unfoldable pub validate_deploy_target : DeployTargetInput → Result Failure DeployTarget
validate_deploy_target input = do
  let host = trim input.host
  ensure (is_host host) (invalid_host input.host)
  let user = trim (or_else input.user default_user)
  ensure (is_user user) (invalid_user (or_else input.user []))
  let port = or_else input.port default_port
  ensure (is_integer_within 1 65535 port) (invalid_port port)
  ok (record { host = host; port = port; user = user })

unfoldable pub validate_package_name : Text → Result Failure Text
validate_package_name package_name = do
  let name = trim package_name
  ensure (is_package_name name) (invalid_package package_name)
  ok name

-- The packages that the input asks for: the list, if it has any, else the single one.
unfoldable pub requested : Option Text → Option (List Text) → List Text
requested (some []) none = []
requested (some (c ∷ s)) none = (c ∷ s) ∷ []
requested none none = []
requested (some []) (some []) = []
requested (some (c ∷ s)) (some []) = (c ∷ s) ∷ []
requested none (some []) = []
requested single (some (name ∷ names)) = name ∷ names

-- The loop of `normalizeDeployPackageNames`; `names` is also the set of names seen.
unfoldable pub collect_names : List Text → List Text → Result Failure (List Text)
collect_names names [] = ok names
collect_names names (package_name ∷ rest) = do
  name ← validate_package_name package_name
  collect_names (if has_text name names then names else names ++ name ∷ []) rest

unfoldable pub normalize_deploy_package_names : DeployImageInput → Result Failure (List Text)
normalize_deploy_package_names input = do
  names ← collect_names [] (requested input.package_name input.package_names)
  if is_empty names then err no_package else ok names

-- `null`, or a platform that the pattern takes.
unfoldable pub normalized_platform : Option Text → Result Failure (Option Text)
normalized_platform none = ok none
normalized_platform (some platform) =
    let value = trim platform in
    if is_empty value
    then ok none
    else if is_platform value
    then ok (some value)
    else err (invalid_platform value)
