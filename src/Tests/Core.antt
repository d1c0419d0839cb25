-- ===== src/Tests/Core.antt =====
-- Labels and providers.
use aimgr.Prelude.{◌≡◌, refl, ◌↔◌, Text, codes, ok, ascii_lower, trim, lower_unit, includes, same}
use aimgr.Core.Labels.{is_label_text, normalize_label}
use aimgr.Core.Labels.Laws.{IsLabel, normalize_label_iff}

abbrev typed : Text
typed = codes " Coder2 "

coder2_ok : normalize_label ascii_lower typed ≡ ok (codes "coder2")
unfolding normalize_label trim is_label_text lower_unit includes same
coder2_ok = refl

normalize_label_iff_example :
    (normalize_label ascii_lower typed ≡ ok (codes "coder2"))
    ↔ ((ascii_lower.lower (trim typed) ≡ codes "coder2") × IsLabel (codes "coder2"))
normalize_label_iff_example = normalize_label_iff ascii_lower typed (codes "coder2")
