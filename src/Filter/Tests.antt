-- ===== src/Filter/Tests.antt =====
-- The theorems on the filters at concrete mail.
use bdsmail.Base.{Assoc, String, [], false, pos, refl, split, to_lower, trim_space, true, ◌∷◌, ◌≡◌}
use bdsmail.Model.{Filter, Message}
use bdsmail.Filter.{apply, default_filters, match_condition, no_change}
use bdsmail.Filter.Laws.{apply-eq-outcome, fired, outcome}

abbrev newsletter : Message
newsletter = record {
  id = "m1";
  message_id = "<m1@shop.example>";
  from = "News@Shop.Example";
  to = "ann@bds.example" ∷ [];
  cc = [];
  bcc = [];
  subject = "Sale";
  content_type = "text/plain";
  gcs_key = "";
  owner_user = "ann@bds.example";
  folder = "";
  seen = false;
  deleted = false;
  received_at = 100;
  body = "today";
  attachments = [];
}

abbrev headers : Assoc String
headers = ("list-unsubscribe", "<mailto:x@shop.example>") ∷ []

abbrev shop_filter : Filter
shop_filter = record {
  id = "f1";
  user_email = "ann@bds.example";
  name = "Shop";
  priority = pos 3;
  conditions =
      record { field = "from"; operator = "contains"; value = "bank|shop"; header = "" } ∷ [];
  actions =
      record { type = "move"; value = "Shop" } ∷ record { type = "mark_read"; value = "" } ∷ [];
  enabled = true;
}

apply_test :
    ((apply (shop_filter ∷ []) newsletter headers).folder ≡ "Shop")
    × ((apply (default_filters "ann@bds.example") newsletter headers).folder ≡ "Newsletters")
unfolding apply default_filters match_condition split to_lower trim_space
apply_test = (refl, refl)

apply-eq-outcome_example :
    apply (shop_filter ∷ []) newsletter headers
    ≡ outcome no_change (fired newsletter headers (shop_filter ∷ []))
apply-eq-outcome_example = apply-eq-outcome (shop_filter ∷ []) newsletter headers
