-- ===== src/Notify/Tests.antt =====
-- The properties of the ladder at concrete inputs.
use envelock.Prelude.{true, false, some}
use envelock.Notify.Ladder.{Recipient}

abbrev on_call : Recipient
on_call = record {
  user_id = "u1";
  is_admin = true;
  has_push_subscription = true;
  out_of_band_email = some "ana@example.org";
  phone = some "+441632960001";
  has_sensor = false;
}
