-- ===== src/Core/Providers.antt =====
-- src/core/providers.js.
pub mod Laws
use aimgr.Prelude.{ℕ, ◌||◌, map, Text, codes, same, trim, LowerCase, ◌==◌, if◌then◌else◌}

-- `text.replace(/_/g, "-")`, unit by unit.
unfoldable pub dash_unit : ℕ → ℕ
dash_unit c = if c == b'_' then b'-' else c

unfoldable pub provider_alias : Text → Text
provider_alias t =
    if same t (codes "grok") || same t (codes "x-ai") || same t (codes "grok-cli")
    then codes "xai"
    else t

unfoldable pub normalize_provider_id : LowerCase → Text → Text
unfolding dash_unit provider_alias
normalize_provider_id l provider = provider_alias (map dash_unit (l.lower (trim provider)))
