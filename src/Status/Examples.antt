-- ===== src/Status/Examples.antt =====
-- Readings of status texts.
use testingmulti.Status.{sub_status_value}
use testingmulti.Status.Parsing.{sub_status_type_from_db_lem}
use testingmulti.Common.{map_option, ◌↔◌}
use testingmulti.Common.Text.{strip}
use testingmulti.Status.{
  awaiting_customer_reply, pending_review, status_type_from_db, sub_status_type_from_db,
}
use testingmulti.Status.Parsing.{status_type_from_db-status_value}
use testingmulti.Common.{some, ◌≡◌}

pending_review_read : status_type_from_db (some "pending_review") ≡ some pending_review
pending_review_read = status_type_from_db-status_value pending_review

sub_status_type_from_db_lem_example :
    (sub_status_type_from_db (some " awaiting_customer_reply ") ≡ some awaiting_customer_reply) ↔ (
      map_option strip (some " awaiting_customer_reply ")
      ≡ some (sub_status_value awaiting_customer_reply))
sub_status_type_from_db_lem_example =
    sub_status_type_from_db_lem (some " awaiting_customer_reply ") awaiting_customer_reply
