-- ===== src/Core/Labels.antt =====
-- src/core/labels.js. The argument is the text that `String(input ?? "")` gives.
pub mod Laws
use aimgr.Prelude.{
  ℕ, Bool, true, false, ◌&&◌, ◌||◌, List, [], ◌∷◌, Text, codes, same, includes, trim, LowerCase,
  leb, ◌==◌, all, Result, ok, err, if◌then◌else◌,
}

pub data LabelError : Type 0 where
  missing_label : LabelError
  invalid_label : Text → LabelError
  reserved_label : Text → LabelError
  default_label : LabelError

unfoldable pub is_digit : ℕ → Bool
is_digit c = leb 48 c && leb c 57

unfoldable pub is_lower_letter : ℕ → Bool
is_lower_letter c = leb 97 c && leb c 122

unfoldable pub is_upper_letter : ℕ → Bool
is_upper_letter c = leb 65 c && leb c 90

-- `[a-z0-9]`, and `[a-z0-9_-]`.
unfoldable pub is_label_start : ℕ → Bool
unfolding is_digit is_lower_letter
is_label_start c = is_lower_letter c || is_digit c

unfoldable pub is_label_unit : ℕ → Bool
unfolding is_label_start
is_label_unit c = is_label_start c || c == b'_' || c == b'-'

-- `/^[a-z0-9][a-z0-9_-]*$/.test(label)`.
unfoldable pub is_label_text : Text → Bool
unfolding is_label_start is_label_unit
is_label_text [] = false
is_label_text (c ∷ t) = is_label_start c && all is_label_unit t

abbrev pub reserved : List Text
reserved =
    codes "status"
    ∷ codes "login"
    ∷ codes "pin"
    ∷ codes "autopin"
    ∷ codes "rebalance"
    ∷ codes "apply"
    ∷ codes "sync"
    ∷ codes "promote"
    ∷ codes "hermes"
    ∷ codes "codex"
    ∷ codes "browser"
    ∷ codes "internal"
    ∷ codes "use"
    ∷ codes "show"
    ∷ codes "set"
    ∷ codes "help"
    ∷ []

abbrev pub default_name : Text
default_name = codes "default"

-- The checks of `normalizeLabel` on the trimmed and lowered text, in their order.
unfoldable pub check_label : Text → Result LabelError Text
check_label [] = err missing_label
check_label (c ∷ t) =
    if is_label_text (c ∷ t)
    then if includes (c ∷ t) reserved
      then err (reserved_label (c ∷ t))
      else if same (c ∷ t) default_name
      then err default_label
      else ok (c ∷ t)
    else err (invalid_label (c ∷ t))

unfoldable pub normalize_label : LowerCase → Text → Result LabelError Text
unfolding check_label
normalize_label l input = check_label (l.lower (trim input))

pub data IdError : Type 0 where
  missing_id : IdError
  invalid_id : Text → IdError

-- `[A-Za-z0-9]`, and `[A-Za-z0-9_-]`.
unfoldable pub is_id_start : ℕ → Bool
unfolding is_label_start is_upper_letter
is_id_start c = is_label_start c || is_upper_letter c

unfoldable pub is_id_unit : ℕ → Bool
unfolding is_id_start
is_id_unit c = is_id_start c || c == b'_' || c == b'-'

unfoldable pub check_id : Text → Result IdError Text
unfolding is_id_start is_id_unit
check_id [] = err missing_id
check_id (c ∷ t) =
    if is_id_start c && all is_id_unit t then ok (c ∷ t) else err (invalid_id (c ∷ t))

unfoldable pub normalize_agent_id : Text → Result IdError Text
unfolding check_id
normalize_agent_id input = check_id (trim input)

unfoldable pub normalize_hermes_home_id : Text → Result IdError Text
unfolding check_id
normalize_hermes_home_id input = check_id (trim input)
