-- ===== src/Tests/Links.antt =====
-- A run of lib/availability/single-use-link.ts.
use marlo_scheduling.Prelude.{◌≡◌, refl, none, some, [], ◌∷◌}
use marlo_scheduling.Rows.{Key}
use marlo_scheduling.Store.{ok, err}
use marlo_scheduling.Links.{
  Links, SingleUseLink, unused, already_consumed, link_by_token, consumed_by,
  consume_single_use_link,
}
use marlo_scheduling.Links.Once.{consume_single_use_link-once}

abbrev link_a : SingleUseLink
link_a = record {
  id = 1;
  token = 10;
  host_id = 5;
  status = unused;
  event_type_id = some 3;
  one_off_meeting_id = none;
  booking_id = none;
}

abbrev links_a : Links
links_a = record { by_id = link_a ∷ []; by_token = record { token = 10; id = 1 } ∷ [] }

abbrev trim_a : Key → Key
trim_a text = text

consume_single_use_link-once_example :
    let (answer, after) = consume_single_use_link trim_a 10 7 links_a in
    (answer ≡ ok (consumed_by 7 link_a))
    × (link_by_token after 10 ≡ some (consumed_by 7 link_a))
    × (consume_single_use_link trim_a 10 7 after ≡ (ok (consumed_by 7 link_a), after))
    × (consume_single_use_link trim_a 10 8 after ≡ (err already_consumed, after))
consume_single_use_link-once_example =
    consume_single_use_link-once trim_a 10 7 8 links_a link_a (unfold link_by_token in refl) refl
      refl refl refl
