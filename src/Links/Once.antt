-- ===== src/Links/Once.antt =====
-- lib/availability/single-use-link.ts: a link is consumed by one booking only.
use marlo_scheduling.Prelude.{
  ◌≡◌, refl, sym, subst, find-In, ◌∙◌, false, some, List, find, adjust, ◌==◌, find-adjust_self,
  Option-cases, inl, inr, ==→≡, ==-refl,
}
use marlo_scheduling.Rows.{Key}
use marlo_scheduling.Store.{ok, err, has_token}
use marlo_scheduling.Links.{
  Links, SingleUseLink, unused, consumed, already_consumed, is_link, link_by_token, consumed_by,
  consume_link, consume_single_use_link,
}

module _ (trim : Key → Key) (token booking : Key) where
  through :
      (links : Links) (link : SingleUseLink)
      → link_by_token links token ≡ some link
      → trim booking == 0 ≡ false
      → consume_single_use_link trim token booking links ≡ consume_link (trim booking) link links
  unfolding consume_single_use_link
  through links link e b = rw (e, b, consume_single_use_link) refl

owner_again :
    (booking : Key) (link : SingleUseLink) (links : Links)
    → link.status ≡ consumed
    → link.booking_id ≡ some booking
    → consume_link booking link links ≡ (ok link, links)
unfolding consume_link
owner_again booking link links c e = simp (c, consume_link) (rw (e, ==-refl booking) refl)

other_booking :
    (booking other : Key) (link : SingleUseLink) (links : Links)
    → link.status ≡ consumed
    → link.booking_id ≡ some booking
    → booking == other ≡ false
    → consume_link other link links ≡ (err already_consumed, links)
unfolding consume_link
other_booking booking other link links c e d = simp (c, consume_link) (rw (e, d) refl)

-- The store after the consumption of the link under the token.
abbrev pub after_consume : Key → SingleUseLink → Links → Links
after_consume booking link links = record links {
  by_id = adjust (is_link link.id) (consumed_by booking) links.by_id;
}

first_use :
    (booking : Key) (link : SingleUseLink) (links : Links)
    → link.status ≡ unused
    → consume_link booking link links
      ≡ (ok (consumed_by booking link), after_consume booking link links)
unfolding consume_link
first_use booking link links u = simp (u, consume_link) refl

find_adjusted :
    (key booking : Key) (link : SingleUseLink) (by_id : List SingleUseLink)
    → find (is_link key) by_id ≡ some link
    → find (is_link key) (adjust (is_link link.id) (consumed_by booking) by_id)
      ≡ some (consumed_by booking link)
find_adjusted key booking link by_id e =
    let same : link.id ≡ key = ==→≡ link.id key (find-In (is_link key) link by_id e).1 in
    subst
      (λ k.
        find (is_link k) (adjust (is_link link.id) (consumed_by booking) by_id)
        ≡ some (consumed_by booking link))
      same
      (find-adjust_self (is_link link.id) (consumed_by booking) link by_id (λ x t. t)
        (subst (λ k. find (is_link k) by_id ≡ some link) (sym same) e))

consumed_link :
    (token booking : Key) (link : SingleUseLink) (links : Links)
    → link_by_token links token ≡ some link
    → link_by_token (after_consume booking link links) token ≡ some (consumed_by booking link)
unfolding link_by_token
consumed_link token booking link links e =
    elim (Option-cases (find (has_token token) links.by_token)) [
      | inl f ↦ let wrong = rw (f, link_by_token) at e in cc
      | inr (entry, f) ↦
          rw (f, link_by_token)
            (find_adjusted entry.id booking link links.by_id (rw (f, link_by_token) at e))
    ]

-- An unused link is consumed once. Its first consumption records the booking; after it, the same
-- booking consumes the link again without an error and without a change, and every other booking is
-- refused without a change.
pub consume_single_use_link-once :
    (trim : Key → Key) (token booking other : Key) (links : Links) (link : SingleUseLink)
    → link_by_token links token ≡ some link
    → link.status ≡ unused
    → trim booking == 0 ≡ false
    → trim other == 0 ≡ false
    → trim booking == trim other ≡ false
    → let (answer, after) = consume_single_use_link trim token booking links in
      (answer ≡ ok (consumed_by (trim booking) link))
      × (link_by_token after token ≡ some (consumed_by (trim booking) link))
      × (consume_single_use_link trim token booking after
          ≡ (ok (consumed_by (trim booking) link), after))
      × (consume_single_use_link trim token other after ≡ (err already_consumed, after))
consume_single_use_link-once trim token booking other links link e u b o d =
    let after = after_consume (trim booking) link links in
    let mine = consumed_by (trim booking) link in
    let there = consumed_link token (trim booking) link links e in
    rw (through trim token booking links link e b ∙ first_use (trim booking) link links u) (
      refl,
      there,
      through trim token booking after mine there b
          ∙ owner_again (trim booking) mine after refl refl,
      through trim token other after mine there o
          ∙ other_booking (trim booking) (trim other) mine after refl refl d,
    )
