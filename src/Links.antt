-- ===== src/Links.antt =====
-- lib/availability/single-use-link.ts: the links that one booking may consume. The creation of a
-- link, which reads the event types and the one-off meetings, is not modelled.
pub mod Once
use marlo_scheduling.Prelude.{
  Bool, not, Option, none, some, List, find, adjust, ◌==◌, is_key, if◌then◌else◌,
}
use marlo_scheduling.Rows.{Key}
use marlo_scheduling.Store.{Result, ok, err, TokenEntry, has_token}

pub data SingleUseLinkStatus : Type 0 where
  unused consumed : SingleUseLinkStatus

pub record SingleUseLink : Type 0 where
  pub id : Key
  pub token : Key
  pub host_id : Key
  pub status : SingleUseLinkStatus
  pub event_type_id : Option Key
  pub one_off_meeting_id : Option Key
  pub booking_id : Option Key

-- `linksById` and `linksByToken`.
pub record Links : Type 0 where
  pub by_id : List SingleUseLink
  pub by_token : List TokenEntry

pub data LinkError : Type 0 where
  link_not_found booking_id_required already_consumed : LinkError

abbrev pub is_link : Key → SingleUseLink → Bool
is_link id link = link.id == id

-- The link under a token: `linksByToken`, then `linksById`.
unfoldable pub link_by_token : Links → Key → Option SingleUseLink
link_by_token links token = elim (find (has_token token) links.by_token) [
  | none ↦ none
  | some entry ↦ find (is_link entry.id) links.by_id
]

abbrev pub consumed_by : Key → SingleUseLink → SingleUseLink
consumed_by booking_id link = record link { status = consumed; booking_id = some booking_id }

unfoldable pub consume_link : Key → SingleUseLink → Links → Result LinkError SingleUseLink × Links
consume_link booking_id link links = elim link.status [
  | consumed ↦
      if is_key link.booking_id booking_id then (ok link, links) else (err already_consumed, links)
  | unused ↦ (
    ok (consumed_by booking_id link),
    record links { by_id = adjust (is_link link.id) (consumed_by booking_id) links.by_id },
  )
]

-- `trim` is the `trim` of a text, whose result is the key 0 for a blank one.
unfoldable pub consume_single_use_link :
    (Key → Key) → Key → Key → Links → Result LinkError SingleUseLink × Links
unfolding link_by_token consume_link
consume_single_use_link trim token booking_id links = elim (link_by_token links token) [
  | none ↦ (err link_not_found, links)
  | some link ↦
      if trim booking_id == 0
      then (err booking_id_required, links)
      else consume_link (trim booking_id) link links
]
