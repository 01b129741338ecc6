-- ===== src/Labels/Tests.antt =====
-- The label test at concrete inputs.
use funcbox.Prelude.{◌≡◌, refl, ◌↔◌, true, false, codes}
use funcbox.Go.Chars.{is_lower_alnum}
use funcbox.Labels.{dns_label}
use funcbox.Labels.Matching.{LabelMatch, dns_label_iff}

dns_label_run : dns_label is_lower_alnum (codes "a-") ≡ false
unfolding dns_label is_lower_alnum
dns_label_run = refl

dns_label_iff_example :
    (dns_label is_lower_alnum (codes "my-app") ≡ true) ↔ LabelMatch is_lower_alnum (codes "my-app")
dns_label_iff_example = dns_label_iff is_lower_alnum (codes "my-app")
